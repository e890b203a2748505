-- ===== src/Devices/Policies.antt =====
-- The policies of devices: GetPolicy, UpsertPolicy and ResetPolicy of
-- internal/db/device_registry_admin.go.
use roodox_sever_win.Base.{ℕ, true, Bytes, if◌then◌else◌}
use roodox_sever_win.Base.Space.{trim_space}
use roodox_sever_win.Base.Dict.{get, put, remove}
use roodox_sever_win.Errors.{Result, ok, err, Err, os_invalid}
use roodox_sever_win.Devices.Tables.{DeviceRecord, DevicePolicyRecord, Registry, Call}
use roodox_sever_win.Devices.Lists.{is_empty, normalize_string_list}
use roodox_sever_win.Devices.Reports.{read_found, write, update_known_device, end_write}

-- GetPolicy
unfoldable pub get_policy : Call → Bytes → Registry → Result Err DevicePolicyRecord
unfolding trim_space get
get_policy c device_id r = read_found c (get r.policies (trim_space device_id))

abbrev pub policy_row : Call → DevicePolicyRecord → DevicePolicyRecord
unfolding trim_space normalize_string_list
policy_row c input = record input {
  device_id = trim_space input.device_id;
  mount_path = trim_space input.mount_path;
  sync_roots = normalize_string_list c.to_lower input.sync_roots;
  conflict_policy = trim_space input.conflict_policy;
  log_level = trim_space input.log_level;
  updated_at_unix = c.now_unix;
}

abbrev pub set_policy_revision : Call → ℕ → DeviceRecord → DeviceRecord
set_policy_revision c revision d = record d {
  policy_revision = revision;
  requires_policy_pull = true;
  updated_at_unix = c.now_unix;
}

abbrev pub put_policy : DevicePolicyRecord → Registry → Registry
unfolding put
put_policy p r = record r { policies = put r.policies p.device_id p }

abbrev pub delete_policy : Bytes → Registry → Registry
unfolding remove
delete_policy id r = record r { policies = remove r.policies id }

-- `return r.GetPolicy(deviceID)` after the commit
abbrev pub read_policy_back :
    Call → Bytes → Result Err Registry → Registry → Result Err DevicePolicyRecord × Registry
unfolding get_policy
read_policy_back c id (err e) r = (err e, r)
read_policy_back c id (ok r') r = (get_policy c id r', r')

-- UpsertPolicy
unfoldable pub upsert_policy :
    Call → DevicePolicyRecord → Registry → Result Err DevicePolicyRecord × Registry
unfolding trim_space put update_known_device get_policy
upsert_policy c input r =
    if is_empty (trim_space input.device_id)
    then (err os_invalid, r)
    else read_policy_back c (trim_space input.device_id)
        (write c (
          update_known_device (trim_space input.device_id)
            (set_policy_revision c input.policy_revision) (put_policy (policy_row c input) r)))
        r

-- ResetPolicy
unfoldable pub reset_policy : Call → Bytes → ℕ → Registry → Result Err (Unit {0}) × Registry
unfolding trim_space remove update_known_device
reset_policy c device_id revision r =
    if is_empty (trim_space device_id)
    then (err os_invalid, r)
    else end_write
        (write c (
          update_known_device (trim_space device_id) (set_policy_revision c revision)
            (delete_policy (trim_space device_id) r)))
        r
