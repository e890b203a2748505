-- ===== src/Devices/Requests/Revisions.antt =====
-- The policy of a device over histories of requests, from the administrator to the device.
use roodox_sever_win.Base.{
  ℕ, ◌≡◌, refl, ◌∙◌, ap, inl, inr, Bytes, bytes_eq, bytes_eq_iff, false, List, [], ◌∷◌, Option,
  none, some, Bool-cases,
}
use roodox_sever_win.Base.Space.{trim_space}
use roodox_sever_win.Base.Dict.{Dict, get, put, remove, get-put, get-remove}
use roodox_sever_win.Devices.Tables.{DeviceRecord, DevicePolicyRecord, Registry}
use roodox_sever_win.Devices.Lists.Laws.{Every}
use roodox_sever_win.Devices.Reports.{update_device, insert_device, set_row}
use roodox_sever_win.Devices.Rows.{merge_row}
use roodox_sever_win.Devices.Policies.{put_policy, delete_policy, policy_row, set_policy_revision}
use roodox_sever_win.Devices.Config.{ControlPlaneConfig}
use roodox_sever_win.Devices.Requests.{
  Request, registers, beats, asks_config, reports_sync, reports_mount, uploads, sets_policy,
  requests_action, serve, serve_all,
}
use roodox_sever_win.Devices.Requests.Logs.{
  KeepsRevision, register_device_kept, report_sync_state_kept, report_mount_state_kept,
  get_assigned_config_kept, update_device_policy_kept,
}
use roodox_sever_win.Devices.Requests.Writes.{
  heartbeat_kept, request_client_action_kept, upload_diagnostics_kept,
}

-- The device is known, with this revision, and with this policy of its own, if any.
abbrev pub HasPolicy : Bytes → ℕ → Option DevicePolicyRecord → Registry → Type 0
unfolding get
HasPolicy id n policy r =
    ((d : DeviceRecord) × (get r.devices id ≡ some d) × (d.policy_revision ≡ n))
    × (get r.policies id ≡ policy)

-- A row that is put: for the device itself its revision must stay.
put_device :
    (id : Bytes) (n : ℕ) (k : Bytes) (v : DeviceRecord) (ds : Dict DeviceRecord)
    → ((d : DeviceRecord) → get ds k ≡ some d → v.policy_revision ≡ d.policy_revision)
    → ((d : DeviceRecord) × (get ds id ≡ some d) × (d.policy_revision ≡ n))
    → (d : DeviceRecord) × (get (put ds k v) id ≡ some d) × (d.policy_revision ≡ n)
put_device id n k v ds same (d, e, f) = elim (Bool-cases (bytes_eq k id)) [
  | inl g ↦
      (v, get-put ds k id v ∙ rw g refl, same d (ap (get ds) ((bytes_eq_iff k id).0 g) ∙ e) ∙ f)
  | inr g ↦ (d, get-put ds k id v ∙ rw g e, f)
]

module _ (id : Bytes) (n : ℕ) (policy : Option DevicePolicyRecord) where
  updates :
      (k : Bytes) (f : DeviceRecord → DeviceRecord)
      → KeepsRevision f
      → (r : Registry) → HasPolicy id n policy r
      → HasPolicy id n policy (update_device k f r)
  unfolding update_device
  updates k f same r h = by_row (get r.devices k) refl
    where
      by_row :
          (o : Option DeviceRecord) → get r.devices k ≡ o → HasPolicy id n policy (set_row k f r o)
      by_row none e = h
      by_row (some d) e = (
        put_device id n k (f d) r.devices
            (λ d' e'. same d ∙ (let g : d ≡ d' = cc (e, e') in ap (λ x. x.policy_revision) g)) h.0,
        h.1,
      )

  inserts :
      (x : DeviceRecord) (r : Registry)
      → HasPolicy id n policy r
      → HasPolicy id n policy (insert_device x r)
  unfolding insert_device
  inserts x r h = (
    put_device id n x.device_id (merge_row x (get r.devices x.device_id)) r.devices
        (λ d e. merged (get r.devices x.device_id) d e) h.0,
    h.1,
  )
    where
      merged :
          (o : Option DeviceRecord) (d : DeviceRecord)
          → o ≡ some d
          → (merge_row x o).policy_revision ≡ d.policy_revision
      merged none d e = cc e
      merged (some d') d e = let g : d' ≡ d = cc e in ap (λ y. y.policy_revision) g

-- A request that does not set the policy of this device.
abbrev pub LeavesPolicy : Bytes → Request → Type 0
unfolding trim_space
LeavesPolicy id (sets_policy calls req) = bytes_eq (trim_space req.device_id) id ≡ false
LeavesPolicy id q = Unit

module _ (id : Bytes) (n : ℕ) (policy : Option DevicePolicyRecord) where
  -- Writes for another device
  update_other :
      (k : Bytes) (f : DeviceRecord → DeviceRecord) (r : Registry)
      → bytes_eq k id ≡ false
      → HasPolicy id n policy r
      → HasPolicy id n policy (update_device k f r)
  unfolding update_device
  update_other k f r g h = by_row (get r.devices k)
    where
      by_row : (o : Option DeviceRecord) → HasPolicy id n policy (set_row k f r o)
      by_row none = h
      by_row (some d) = ((h.0.0, get-put r.devices k id (f d) ∙ rw g h.0.1, h.0.2), h.1)

  put_other :
      (p : DevicePolicyRecord) (r : Registry)
      → bytes_eq p.device_id id ≡ false
      → HasPolicy id n policy r
      → HasPolicy id n policy (put_policy p r)
  unfolding put get
  put_other p r g h = (h.0, get-put r.policies p.device_id id p ∙ rw g h.1)

  delete_other :
      (k : Bytes) (r : Registry)
      → bytes_eq k id ≡ false
      → HasPolicy id n policy r
      → HasPolicy id n policy (delete_policy k r)
  unfolding remove get
  delete_other k r g h = (h.0, get-remove r.policies k id ∙ rw g h.1)

  serve-HasPolicy :
      (config : ControlPlaneConfig) (q : Request) (r : Registry)
      → LeavesPolicy id q
      → HasPolicy id n policy r
      → HasPolicy id n policy (serve config q r)
  unfolding serve trim_space
  serve-HasPolicy config (registers c req) r l h =
      register_device_kept (HasPolicy id n policy) (updates id n policy) (inserts id n policy)
        config c req r h
  serve-HasPolicy config (beats calls req) r l h =
      heartbeat_kept (HasPolicy id n policy) (updates id n policy) (inserts id n policy) calls req r
        h λ _ _ _ k. k
  serve-HasPolicy config (asks_config calls i) r l h =
      get_assigned_config_kept (HasPolicy id n policy) (updates id n policy) (inserts id n policy)
        config calls i r h
  serve-HasPolicy config (reports_sync c req) r l h =
      report_sync_state_kept (HasPolicy id n policy) (updates id n policy) (inserts id n policy) c
        req r h
  serve-HasPolicy config (reports_mount c req) r l h =
      report_mount_state_kept (HasPolicy id n policy) (updates id n policy) (inserts id n policy) c
        req r h
  serve-HasPolicy config (uploads calls req) r l h =
      upload_diagnostics_kept (HasPolicy id n policy) (updates id n policy) (inserts id n policy)
        config calls req r h λ _ _ _ _. h
  serve-HasPolicy config (sets_policy calls req) r l h =
      update_device_policy_kept (HasPolicy id n policy) (updates id n policy) (inserts id n policy)
        req
        (λ c input r' e k.
          let g = ap (λ i. bytes_eq i id) e ∙ l in
          update_other (trim_space input.device_id) (set_policy_revision c input.policy_revision)
            (put_policy (policy_row c input) r') g (put_other (policy_row c input) r' g k))
        (λ c i m r' e k.
          let g = ap (λ j. bytes_eq j id) e ∙ l in
          update_other i (set_policy_revision c m) (delete_policy i r') g (delete_other i r' g k))
        config calls r h
  serve-HasPolicy config (requests_action calls req) r l h =
      request_client_action_kept (HasPolicy id n policy) (updates id n policy) (inserts id n policy)
        calls req r h λ _ _ _ _. h

  pub serve_all-HasPolicy :
      (config : ControlPlaneConfig) (qs : List Request) (r : Registry)
      → Every (LeavesPolicy id) qs
      → HasPolicy id n policy r
      → HasPolicy id n policy (serve_all config qs r)
  unfolding serve_all trim_space
  serve_all-HasPolicy config [] r l h = h
  serve_all-HasPolicy config (q ∷ qs) r l h =
      serve_all-HasPolicy config qs (serve config q r) l.1 (serve-HasPolicy config q r l.0 h)
