-- ===== src/Devices/Requests/Beats.antt =====
-- What a heartbeat hands out and marks as delivered.
use roodox_sever_win.Base.{
  ℕ, ◌≡◌, refl, ap, Bytes, bytes_eq, bytes_less, Bool, true, false, List, [], ◌∷◌, Option, none,
  some, map, if◌then◌else◌,
}
use mathlib.Core.Path.{subst}
use roodox_sever_win.Base.Space.{trim_space}
use roodox_sever_win.Base.Space.Trims.{trim_space_idem}
use roodox_sever_win.Errors.{Result, Code, ok, err, Err, os_invalid, to_grpc_error}
use roodox_sever_win.Devices.Tables.{DeviceRecord, DeviceActionRecord, Registry, Call}
use roodox_sever_win.Devices.Lists.{is_empty}
use roodox_sever_win.Devices.Rows.{DeviceHeartbeat}
use roodox_sever_win.Devices.Reports.{end_write, update_heartbeat}
use roodox_sever_win.Devices.Actions.{
  is_pending, deliver, selected_actions, list_pending_actions, mark_actions_delivered,
}
use roodox_sever_win.Devices.Actions.Newest.{IsNewest, DeliversAll}
use roodox_sever_win.Devices.Messages.{HeartbeatResponse, client_action_to_proto}
use roodox_sever_win.Devices.ControlPlane.{
  heartbeat, hand_out, handed_out, beat_for, list_and_hand_out, respond, then_do,
}
use roodox_sever_win.Devices.Requests.Logs.{
  update_device_kept, insert_device_kept, update_heartbeat_kept,
}

-- The table once the actions handed out are marked.
abbrev pub marked :
    Call → List DeviceActionRecord → List DeviceActionRecord → List DeviceActionRecord
unfolding bytes_eq trim_space
marked c handed xs = map (deliver c (map trim_space (map (λ a. a.action_id) handed))) xs

abbrev pub HandsOut :
    Call
    → List DeviceActionRecord
    → List DeviceActionRecord
    → Result Code HeartbeatResponse × Registry
    → Type 0
unfolding bytes_eq client_action_to_proto trim_space
HandsOut c handed xs (err e, r') = r'.actions ≡ xs
HandsOut c handed xs (ok resp, r') =
    (resp.pending_actions ≡ map (λ a. a.action_type) handed)
    × (resp.pending_action_details ≡ map (λ a. client_action_to_proto c.now_unix a true) handed)
    × (r'.actions ≡ marked c handed xs)

-- The same with the actions that the query selects.
abbrev pub HandsOutSelected :
    Call → Bytes → List DeviceActionRecord → Result Code HeartbeatResponse × Registry → Type 0
unfolding bytes_eq bytes_less client_action_to_proto trim_space
HandsOutSelected c device_id xs = HandsOut c (selected_actions is_pending device_id 16 xs) xs

deliver_nothing : (c : Call) (xs : List DeviceActionRecord) → xs ≡ map (deliver c []) xs
unfolding bytes_eq
deliver_nothing c [] = refl
deliver_nothing c (x ∷ xs) = ap (λ ys. x ∷ ys) (deliver_nothing c xs)

hand_out-HandsOut :
    (c : Call) (handed : List DeviceActionRecord) (d : DeviceRecord) (r : Registry)
    → HandsOut c handed r.actions (hand_out c d (ok handed) r)
unfolding mark_actions_delivered client_action_to_proto to_grpc_error bytes_eq trim_space
hand_out-HandsOut c [] d r = (refl, refl, deliver_nothing c r.actions)
hand_out-HandsOut c (a ∷ handed) d r = by_fault c.write_fault
  where
    by_fault :
        (o : Option Err)
        → HandsOut c (a ∷ handed) r.actions (
            respond (handed_out c d (a ∷ handed)) (
              end_write
                (elim o [
                  | none ↦ ok (record r { actions = marked c (a ∷ handed) r.actions })
                  | some e ↦ err e
                ])
                r))
    by_fault none = (refl, refl, refl)
    by_fault (some e) = refl

abbrev listed : Option Err → Bytes → List DeviceActionRecord → Result Err (List DeviceActionRecord)
unfolding bytes_eq bytes_less
listed o id xs =
    if is_empty id
    then err os_invalid
    else elim o [ none ↦ ok (selected_actions is_pending id 16 xs) | some e ↦ err e ]

listed_lem :
    (c : Call) (o : Option Err) (id : Bytes) (d : DeviceRecord) (r : Registry)
    → HandsOutSelected c id r.actions (hand_out c d (listed o id r.actions) r)
unfolding mark_actions_delivered client_action_to_proto to_grpc_error bytes_eq bytes_less trim_space
listed_lem c o [] d r = refl
listed_lem c (some e) (x ∷ id) d r = refl
listed_lem c none (x ∷ id) d r =
    hand_out-HandsOut c (selected_actions is_pending (x ∷ id) 16 r.actions) d r

updated_lem :
    (calls : ℕ → Call) (id : Bytes) (xs : List DeviceActionRecord)
    (x : Result Err DeviceRecord × Registry)
    → x.1.actions ≡ xs
    → HandsOutSelected (calls 2) (trim_space id) xs (then_do x (list_and_hand_out calls id))
unfolding list_pending_actions mark_actions_delivered client_action_to_proto to_grpc_error bytes_eq
    bytes_less trim_space
updated_lem calls id xs (err e, r) h = h
updated_lem calls id xs (ok d, r) h =
    subst (λ ys. HandsOutSelected (calls 2) (trim_space id) ys (list_and_hand_out calls id d r)) h
      (listed_lem (calls 2) (calls 1).read_fault (trim_space id) d r)

branch {ℓ} : {A : Type ℓ} (C : A → Type 0) (b : Bool) (x y : A) → C x → C y → C (if b then x else y)
branch C true x y h k = h
branch C false x y h k = k

-- How a heartbeat ends, by the actions at its start: it fails and changes no action, or it hands
-- out the newest waiting ones, which are then delivered.
abbrev pub Beats :
    Call → Bytes → List DeviceActionRecord → Result Code HeartbeatResponse × Registry → Type 0
unfolding bytes_eq bytes_less client_action_to_proto trim_space
Beats c device_id xs (err e, r') = r'.actions ≡ xs
Beats c device_id xs (ok resp, r') =
    (handed : List DeviceActionRecord) × IsNewest device_id 16 xs handed
    × (resp.pending_actions ≡ map (λ a. a.action_type) handed)
    × (resp.pending_action_details ≡ map (λ a. client_action_to_proto c.now_unix a true) handed)
    × DeliversAll (map trim_space (map (λ a. a.action_id) handed)) c.now_unix xs r'.actions

-- A heartbeat in these words.
pub heartbeat-HandsOutSelected :
    (calls : ℕ → Call) (req : DeviceHeartbeat) (r : Registry)
    → HandsOutSelected (calls 2) (trim_space req.device_id) r.actions (heartbeat calls req r)
unfolding heartbeat list_pending_actions mark_actions_delivered client_action_to_proto to_grpc_error
    bytes_eq bytes_less
heartbeat-HandsOutSelected calls req r =
    let id = trim_space req.device_id in
    let input : DeviceHeartbeat = record req { device_id = id } in
    let kept =
      update_heartbeat_kept SameActions
        (λ i f _ s k. update_device_kept SameActions (λ _ _ g. g) i f s k)
        (λ n s k. insert_device_kept SameActions (λ _ _ g. g) n s k) (calls 0) input r refl in
    let beaten = updated_lem calls id r.actions (update_heartbeat (calls 0) input r) kept in
    branch (HandsOutSelected (calls 2) id r.actions) (is_empty id) _ (beat_for calls req r id) refl
      (subst (λ j. HandsOutSelected (calls 2) j r.actions (beat_for calls req r id))
        (trim_space_idem req.device_id) beaten)
  where
    SameActions : Registry → Type 0
    SameActions s = s.actions ≡ r.actions
