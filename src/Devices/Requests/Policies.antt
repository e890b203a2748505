-- ===== src/Devices/Requests/Policies.antt =====
-- UpdateDevicePolicy: what a success stores, and what GetAssignedConfig then reads.
use roodox_sever_win.Base.{
  ℕ, ◌≡◌, refl, ◌∙◌, ap, Bytes, bytes_eq_refl, Bool, true, false, Option, none, some, if◌then◌else◌,
}
use mathlib.Core.Path.{subst}
use roodox_sever_win.Base.Space.{trim_space}
use roodox_sever_win.Base.Space.Trims.{trim_space_idem}
use roodox_sever_win.Base.Dict.{get, put, remove, get-put, get-remove}
use roodox_sever_win.Errors.{
  Result, Code, ok, err, Err, os_invalid, invalid_argument, to_grpc_error, is_not_exist,
}
use roodox_sever_win.Devices.Tables.{DeviceRecord, DevicePolicyRecord, Registry, Call}
use roodox_sever_win.Devices.Lists.{is_empty, normalize_string_list}
use roodox_sever_win.Devices.Lists.Laws.{normalize_string_list_idem}
use roodox_sever_win.Devices.Reports.{
  set_row, update_known_device, ensure_rows_affected, end_write, found,
}
use roodox_sever_win.Devices.Policies.{
  put_policy, delete_policy, policy_row, set_policy_revision, get_policy, upsert_policy,
  reset_policy, read_policy_back,
}
use roodox_sever_win.Devices.Config.{
  AssignedConfig, ControlPlaneConfig, assigned_config_from_proto,
  assigned_config_from_policy_record,
}
use roodox_sever_win.Devices.ControlPlane.{effective_config, respond}
use roodox_sever_win.Devices.Console.{
  UpdateDevicePolicyRequest, UpdateDevicePolicyResponse, update_device_policy, update_policy_for,
  store_policy_update, check_policy_update, set_policy, reset_to_default, policy_record,
  policy_answer, policy_response,
}
use roodox_sever_win.Devices.Requests.Revisions.{HasPolicy}

-- The device is known with this revision, and this is the configuration that applies to it.
abbrev pub IsEffective : ControlPlaneConfig → Bytes → ℕ → AssignedConfig → Registry → Type 0
unfolding get assigned_config_from_policy_record is_not_exist to_grpc_error
IsEffective config id n assigned r =
    (policy : Option DevicePolicyRecord) × HasPolicy id n policy r
    × (effective_config config.default_assigned_config (found policy) ≡ ok assigned)

answered :
    {A : Type 0} (n : ℕ) (assigned : AssignedConfig) (x : Result Err A × Registry)
    (resp : UpdateDevicePolicyResponse)
    → (respond (policy_answer n assigned) x).0 ≡ ok resp
    → policy_response n assigned ≡ resp
unfolding to_grpc_error
answered n assigned (ok a, r) resp h = cc h
answered n assigned (err e, r) resp h = cc h

-- A transaction that sets the revision of a known device over tables with its policy.
abbrev transaction :
    Call → Bytes → ℕ → Registry → Option Err → Option DeviceRecord → Result Err Registry
unfolding put
transaction c id n r fault d = elim fault [
  | none ↦ ensure_rows_affected d (set_row id (set_policy_revision c n) r d)
  | some e ↦ err e
]

self_row :
    (c : Call) (id : Bytes) (n : ℕ) (r : Registry) (d : DeviceRecord)
    (policy : Option DevicePolicyRecord)
    → get r.policies id ≡ policy
    → HasPolicy id n policy (set_row id (set_policy_revision c n) r (some d))
unfolding put get
self_row c id n r d policy h = (
  (
    set_policy_revision c n d,
    get-put r.devices id id (set_policy_revision c n d) ∙ rw (bytes_eq_refl id) refl,
    refl,
  ),
  h,
)

reset_stored :
    (config : ControlPlaneConfig) (c : Call) (id : Bytes) (n : ℕ) (r : Registry) (b : Bool)
    (fault : Option Err) (d : Option DeviceRecord) (resp : UpdateDevicePolicyResponse)
    → let x =
        if b
        then (err os_invalid, r)
        else end_write (transaction c id n (delete_policy id r) fault d) r in
      (respond (policy_answer n config.default_assigned_config) x).0 ≡ ok resp
      → HasPolicy id n none x.1
unfolding put get remove to_grpc_error
reset_stored config c id n r true fault d resp h = cc h
reset_stored config c id n r false (some e) d resp h = cc h
reset_stored config c id n r false none none resp h = cc h
reset_stored config c id n r false none (some d) resp h =
    self_row c id n (delete_policy id r) d none
      (get-remove r.policies id id ∙ rw (bytes_eq_refl id) refl)

upsert_stored :
    (c : Call) (id : Bytes) (n : ℕ) (assigned : AssignedConfig) (p : DevicePolicyRecord)
    (r : Registry) (b : Bool) (fault : Option Err) (d : Option DeviceRecord)
    (resp : UpdateDevicePolicyResponse)
    → p.device_id ≡ id
    → let x =
        if b
        then (err os_invalid, r)
        else read_policy_back c id (transaction c id n (put_policy p r) fault d) r in
      (respond (policy_answer n assigned) x).0 ≡ ok resp → HasPolicy id n (some p) x.1
unfolding put get get_policy to_grpc_error
upsert_stored c id n assigned p r true fault d resp e h = cc h
upsert_stored c id n assigned p r false (some f) d resp e h = cc h
upsert_stored c id n assigned p r false none none resp e h = cc h
upsert_stored c id n assigned p r false none (some d) resp e h =
    self_row c id n (put_policy p r) d (some p)
      (get-put r.policies p.device_id id p ∙ rw (e, bytes_eq_refl id) refl)

-- A policy is stored as the response says: what is trimmed and put in order stays so.
row_config :
    (c : Call) (id : Bytes) (n : ℕ) (policy : AssignedConfig)
    → assigned_config_from_policy_record
        (policy_row c (policy_record id (assigned_config_from_proto c.to_lower policy) n))
      ≡ assigned_config_from_proto c.to_lower policy
unfolding assigned_config_from_policy_record assigned_config_from_proto
row_config c id n policy =
    rw
      (
        trim_space_idem policy.mount_path,
        normalize_string_list_idem c.to_lower policy.sync_roots,
        trim_space_idem policy.conflict_policy,
        trim_space_idem policy.log_level,
      )
      refl

-- The end of a successful UpdateDevicePolicy, from what it found first.
abbrev pub Stores :
    ControlPlaneConfig → Bytes → Result Code ℕ → UpdateDevicePolicyResponse → Registry → Type 0
unfolding get assigned_config_from_policy_record is_not_exist to_grpc_error
Stores config id checked resp r =
    (checked ≡ ok resp.policy_revision)
    × IsEffective config id resp.policy_revision resp.effective_policy r

respond-Stores :
    {A : Type 0} (config : ControlPlaneConfig) (id : Bytes) (n : ℕ) (assigned : AssignedConfig)
    (x : Result Err A × Registry) (resp : UpdateDevicePolicyResponse)
    → (respond (policy_answer n assigned) x).0 ≡ ok resp
    → IsEffective config id n assigned x.1
    → Stores config id (ok n) resp (respond (policy_answer n assigned) x).1
unfolding get assigned_config_from_policy_record is_not_exist to_grpc_error
respond-Stores config id n assigned (ok a, r) resp h k =
    subst (λ y. Stores config id (ok n) y r) (answered n assigned (ok a, r) resp h) (refl, k)
respond-Stores config id n assigned (err e, r) resp h k = cc h

reset-Stores :
    (config : ControlPlaneConfig) (c : Call) (id : Bytes) (n : ℕ) (r : Registry)
    (resp : UpdateDevicePolicyResponse)
    → trim_space id ≡ id
    → (reset_to_default config c id n r).0 ≡ ok resp
    → Stores config id (ok n) resp (reset_to_default config c id n r).1
unfolding reset_policy to_grpc_error is_not_exist get put remove trim_space update_known_device
    assigned_config_from_policy_record
reset-Stores config c id n r resp e h =
    let k = trim_space id in
    let stored = reset_stored config c k n r (is_empty k) c.write_fault (get r.devices k) resp h in
    respond-Stores config id n config.default_assigned_config (reset_policy c id n r) resp h
      (none, subst (λ j. HasPolicy j n none (reset_policy c id n r).1) e stored, refl)

upsert-Stores :
    (config : ControlPlaneConfig) (c : Call) (id : Bytes) (policy : Option AssignedConfig) (n : ℕ)
    (r : Registry) (resp : UpdateDevicePolicyResponse)
    → trim_space id ≡ id
    → (set_policy c id policy n r).0 ≡ ok resp
    → Stores config id (ok n) resp (set_policy c id policy n r).1
unfolding upsert_policy assigned_config_from_proto to_grpc_error is_not_exist get put trim_space
    update_known_device get_policy assigned_config_from_policy_record normalize_string_list
upsert-Stores config c id none n r resp e h = cc h
upsert-Stores config c id (some policy) n r resp e h =
    let k = trim_space id in
    let assigned = assigned_config_from_proto c.to_lower policy in
    let input = policy_record id assigned n in
    let row = policy_row c input in
    let stored =
      upsert_stored c k n assigned row r (is_empty k) c.write_fault (get r.devices k) resp refl h in
    respond-Stores config id n assigned (upsert_policy c input r) resp h (
      some row,
      subst (λ j. HasPolicy j n (some row) (upsert_policy c input r).1) e stored,
      ap ok (row_config c id n policy),
    )

pub store-Stores :
    (config : ControlPlaneConfig) (c : Call) (req : UpdateDevicePolicyRequest) (id : Bytes)
    (r : Registry) (x : Result Code ℕ) (resp : UpdateDevicePolicyResponse)
    → trim_space id ≡ id
    → (store_policy_update config c req id r x).0 ≡ ok resp
    → Stores config id x resp (store_policy_update config c req id r x).1
unfolding store_policy_update get assigned_config_from_policy_record is_not_exist to_grpc_error
    upsert_policy reset_policy assigned_config_from_proto
store-Stores config c req id r (err e) resp t h = cc h
store-Stores config c req id r (ok n) resp t h = chosen req.resets_to_default h
  where
    chosen :
        (b : Bool)
        → let x = if b then reset_to_default config c id n r else set_policy c id req.policy n r in
          x.0 ≡ ok resp → Stores config id (ok n) resp x.1
    chosen true g = reset-Stores config c id n r resp t g
    chosen false g = upsert-Stores config c id req.policy n r resp t g

-- What a successful UpdateDevicePolicy has found first, and what it stores.
pub update_device_policy-Stores :
    (config : ControlPlaneConfig) (calls : ℕ → Call) (req : UpdateDevicePolicyRequest)
    (r : Registry) (resp : UpdateDevicePolicyResponse)
    → (update_device_policy config calls req r).0 ≡ ok resp
    → Stores config
        (trim_space req.device_id)
        (check_policy_update (calls 0) req (trim_space req.device_id) r)
        resp
        (update_device_policy config calls req r).1
unfolding update_device_policy store_policy_update check_policy_update get
    assigned_config_from_policy_record is_not_exist to_grpc_error trim_space
update_device_policy-Stores config calls req r resp h =
    named (is_empty (trim_space req.device_id)) h
  where
    named :
        (b : Bool)
        → let id = trim_space req.device_id in
          let x =
            if b then (err invalid_argument, r) else update_policy_for config calls req r id in
          x.0 ≡ ok resp → Stores config id (check_policy_update (calls 0) req id r) resp x.1
    named true g = cc g
    named false g =
        let id = trim_space req.device_id in
        store-Stores config (calls 1) req id r (check_policy_update (calls 0) req id r) resp
          (trim_space_idem req.device_id) g

pub update_device_policy_named :
    (config : ControlPlaneConfig) (calls : ℕ → Call) (req : UpdateDevicePolicyRequest)
    (r : Registry) (resp : UpdateDevicePolicyResponse)
    → (update_device_policy config calls req r).0 ≡ ok resp
    → is_empty (trim_space req.device_id) ≡ false
unfolding update_device_policy
update_device_policy_named config calls req r resp h = named (is_empty (trim_space req.device_id)) h
  where
    named :
        (b : Bool)
        → let id = trim_space req.device_id in
          (if b then (err invalid_argument, r) else update_policy_for config calls req r id).0
            ≡ ok resp
          → b ≡ false
    named true g = cc g
    named false g = refl
