-- ===== src/Devices/Requests/Deliveries.antt =====
-- What becomes of actions, and which of them heartbeats hand out, over histories of requests.
use roodox_sever_win.Base.{
  ℕ, ℤ, ◌≡◌, refl, sym, ◌∙◌, ap, inl, inr, Bytes, bytes_eq, bytes_less, true, false, List, [], ◌∷◌,
  some, map, keep_if, Bool-cases,
}
use mathlib.Core.Path.{subst}
use roodox_sever_win.Base.Space.{trim_space}
use roodox_sever_win.Errors.{Result, Code, ok, err}
use roodox_sever_win.Devices.Tables.{DeviceActionRecord, Registry, Call}
use roodox_sever_win.Devices.Lists.{in_list, order_by, hex_encode}
use roodox_sever_win.Devices.Lists.Laws.{
  Every, Every-keep_if, Every-order_by, Every-take, Every-map, in_list_every, trim_space-hex_encode,
}
use roodox_sever_win.Devices.Rows.{DeviceHeartbeat}
use roodox_sever_win.Devices.Actions.{
  is_pending, deliver, cancel_similar, action_before, has_status, new_action, action_exists,
  selected_actions,
}
use roodox_sever_win.Devices.Actions.Lifecycle.{
  find_action, Follow, Follow-refl, Follow-trans, map-Follow, insert-Follow, deliver-Evolves,
  cancel-Evolves, Evolves,
}
use roodox_sever_win.Devices.Actions.Settled.{
  IsSettled, has_pending, deliver-IsSettled, cancel-IsSettled, insert-IsSettled,
  delivered-IsSettled, selected-HasPending, deliver_id, cancel_id,
}
use roodox_sever_win.Devices.Config.{ControlPlaneConfig}
use roodox_sever_win.Devices.Messages.{HeartbeatResponse, client_action_to_proto}
use roodox_sever_win.Devices.ControlPlane.{heartbeat}
use roodox_sever_win.Devices.Requests.{Request, serve_all, empty_registry}
use roodox_sever_win.Devices.Requests.Histories.{serve_all_actions_kept}
use roodox_sever_win.Devices.Requests.Beats.{HandsOut, marked, heartbeat-HandsOutSelected}

-- Whatever requests are served, an action stays in its table with its id, device, type, payload
-- and time of request. It changes at most once, and only when it is pending: to delivered with a
-- time of delivery, or to cancelled with a time of completion.
pub actions_evolve :
    (config : ControlPlaneConfig) (qs : List Request) (r : Registry) (id : Bytes)
    (a : DeviceActionRecord)
    → find_action id r.actions ≡ some a
    → (b : DeviceActionRecord) × (find_action id (serve_all config qs r).actions ≡ some b)
      × Evolves a b
unfolding trim_space
actions_evolve config qs r =
    serve_all_actions_kept (Follow r.actions)
      (λ c ids xs h.
        Follow-trans r.actions xs (map (deliver c ids) xs) h
          (map-Follow (deliver c ids) (deliver-Evolves c ids) xs))
      (λ c dev type xs h.
        Follow-trans r.actions xs (map (cancel_similar c dev type) xs) h
          (map-Follow (cancel_similar c dev type) (cancel-Evolves c dev type) xs))
      (λ c input buf xs free h.
        Follow-trans r.actions xs (new_action c input (hex_encode buf) ∷ xs) h
          (insert-Follow (new_action c input (hex_encode buf)) xs free))
      config qs r (Follow-refl r.actions)

-- The ids of newRandomID have no space to trim.
abbrev HasTrimmedIds : List DeviceActionRecord → Type 0
HasTrimmedIds xs = Every (λ a. trim_space a.action_id ≡ a.action_id) xs

serve_all-HasTrimmedIds :
    (config : ControlPlaneConfig) (qs : List Request)
    → HasTrimmedIds (serve_all config qs empty_registry).actions
unfolding trim_space
serve_all-HasTrimmedIds config qs =
    serve_all_actions_kept HasTrimmedIds
      (λ c ids xs h.
        Every-map _ _ (deliver c ids) xs
          (λ a k. subst (λ i. trim_space i ≡ i) (sym (deliver_id c ids a)) k) h)
      (λ c dev type xs h.
        Every-map _ _ (cancel_similar c dev type) xs
          (λ a k. subst (λ i. trim_space i ≡ i) (sym (cancel_id c dev type a)) k) h)
      (λ c input buf xs free h. (trim_space-hex_encode buf, h)) config qs empty_registry tt

trimmed_ids :
    (xs : List DeviceActionRecord)
    → HasTrimmedIds xs
    → map trim_space (map (λ a. a.action_id) xs) ≡ map (λ a. a.action_id) xs
trimmed_ids [] h = refl
trimmed_ids (x ∷ xs) h = rw (h.0, trimmed_ids xs h.1) refl

-- The ids that a heartbeat hands out.
abbrev pub handed_ids : HeartbeatResponse → List Bytes
handed_ids resp = map (λ a. a.action_id) resp.pending_action_details

proto_ids :
    (t : ℤ) (xs : List DeviceActionRecord)
    → map (λ a. a.action_id) (map (λ a. client_action_to_proto t a true) xs)
      ≡ map (λ a. a.action_id) xs
unfolding client_action_to_proto
proto_ids t [] = refl
proto_ids t (x ∷ xs) = ap (λ ys. x.action_id ∷ ys) (proto_ids t xs)

succeeded :
    (c : Call) (handed xs : List DeviceActionRecord) (x : Result Code HeartbeatResponse × Registry)
    (resp : HeartbeatResponse)
    → HandsOut c handed xs x
    → x.0 ≡ ok resp
    → (handed_ids resp ≡ map (λ a. a.action_id) handed) × (x.1.actions ≡ marked c handed xs)
unfolding bytes_eq client_action_to_proto trim_space
succeeded c handed xs (err e, r) resp h k = cc k
succeeded c handed xs (ok resp', r) resp h k =
    let same : resp' ≡ resp = cc k in
    (
      ap handed_ids (sym same)
          ∙ ap (λ ys. map (λ a. a.action_id) ys) h.1
          ∙ proto_ids c.now_unix handed,
      h.2,
    )

-- The newest pending actions of the device that a heartbeat names.
abbrev handed_to : DeviceHeartbeat → Registry → List DeviceActionRecord
unfolding bytes_eq bytes_less trim_space
handed_to req r = selected_actions is_pending (trim_space req.device_id) 16 r.actions

hands_out :
    (calls : ℕ → Call) (req : DeviceHeartbeat) (r : Registry) (resp : HeartbeatResponse)
    → (heartbeat calls req r).0 ≡ ok resp
    → (handed_ids resp ≡ map (λ a. a.action_id) (handed_to req r))
      × ((heartbeat calls req r).1.actions ≡ marked (calls 2) (handed_to req r) r.actions)
unfolding bytes_eq bytes_less trim_space client_action_to_proto
hands_out calls req r resp h =
    succeeded (calls 2) (handed_to req r) r.actions (heartbeat calls req r) resp
      (heartbeat-HandsOutSelected calls req r) h

handed_was_pending :
    (calls : ℕ → Call) (req : DeviceHeartbeat) (r : Registry) (resp : HeartbeatResponse)
    (id : Bytes)
    → (heartbeat calls req r).0 ≡ ok resp
    → in_list id (handed_ids resp) ≡ true
    → has_pending id r.actions ≡ true
unfolding bytes_eq bytes_less trim_space
handed_was_pending calls req r resp id h k =
    in_list_every (λ a. a.action_id) (λ i. has_pending i r.actions ≡ true) id (handed_to req r)
      (selected-HasPending (trim_space req.device_id) 16 r.actions)
      (sym (ap (in_list id) (hands_out calls req r resp h).0) ∙ k)

settled_not_handed :
    (calls : ℕ → Call) (req : DeviceHeartbeat) (r : Registry) (resp : HeartbeatResponse)
    (id : Bytes)
    → (heartbeat calls req r).0 ≡ ok resp
    → IsSettled id r.actions
    → in_list id (handed_ids resp) ≡ false
unfolding has_pending action_exists
settled_not_handed calls req r resp id h k = elim (Bool-cases (in_list id (handed_ids resp))) [
  | inl e ↦ absurd (let was = sym k.1 ∙ handed_was_pending calls req r resp id h e in cc was)
  | inr e ↦ e
]

handed-HasTrimmedIds :
    (req : DeviceHeartbeat) (r : Registry)
    → HasTrimmedIds r.actions
    → HasTrimmedIds (handed_to req r)
unfolding bytes_eq bytes_less trim_space
handed-HasTrimmedIds req r h =
    let pending_ones = keep_if (has_status is_pending (trim_space req.device_id)) r.actions in
    Every-take _ 16 (order_by action_before pending_ones) (
      Every-order_by _ action_before pending_ones
        (Every-keep_if _ (has_status is_pending (trim_space req.device_id)) r.actions h))

handed-IsSettled :
    (config : ControlPlaneConfig) (qs : List Request) (calls : ℕ → Call) (req : DeviceHeartbeat)
    (resp : HeartbeatResponse) (id : Bytes)
    → (heartbeat calls req (serve_all config qs empty_registry)).0 ≡ ok resp
    → in_list id (handed_ids resp) ≡ true
    → IsSettled id (heartbeat calls req (serve_all config qs empty_registry)).1.actions
unfolding bytes_eq bytes_less trim_space has_pending action_exists
handed-IsSettled config qs calls req resp id h k =
    let r = serve_all config qs empty_registry in
    let (ids, after) = hands_out calls req r resp h in
    let trimmed =
      trimmed_ids (handed_to req r)
        (handed-HasTrimmedIds req r (serve_all-HasTrimmedIds config qs)) in
    let listed = sym (ap (in_list id) (ids ∙ sym trimmed)) ∙ k in
    subst (IsSettled id) (sym after) (
      delivered-IsSettled (calls 2) (map trim_space (map (λ a. a.action_id) (handed_to req r))) id
        r.actions listed (handed_was_pending calls req r resp id h k))

-- No action is delivered twice: from an empty registry, after any requests, let a heartbeat
-- succeed and hand out the action id. Whatever requests follow, no later heartbeat that succeeds
-- hands out id again. Requests are served one after the other.
pub delivered_once :
    (config : ControlPlaneConfig) (qs qs' : List Request) (calls calls' : ℕ → Call)
    (req req' : DeviceHeartbeat) (resp resp' : HeartbeatResponse) (id : Bytes)
    → let r = (heartbeat calls req (serve_all config qs empty_registry)).1 in
      (heartbeat calls req (serve_all config qs empty_registry)).0 ≡ ok resp
      → (heartbeat calls' req' (serve_all config qs' r)).0 ≡ ok resp'
      → in_list id (handed_ids resp) ≡ true
      → in_list id (handed_ids resp') ≡ false
unfolding has_pending action_exists trim_space
delivered_once config qs qs' calls calls' req req' resp resp' id h h' k =
    let r = (heartbeat calls req (serve_all config qs empty_registry)).1 in
    settled_not_handed calls' req' (serve_all config qs' r) resp' id h' (
      serve_all_actions_kept (IsSettled id) (λ c ids. deliver-IsSettled c ids id)
        (λ c dev type. cancel-IsSettled c dev type id)
        (λ c input buf xs free g.
          insert-IsSettled (new_action c input (hex_encode buf)) id xs free g)
        config qs' r (handed-IsSettled config qs calls req resp id h k))
