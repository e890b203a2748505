-- ===== src/Devices/Console.antt =====
-- The calls of the administrator that change a device: UpdateDevicePolicy and RequestClientAction of
-- internal/server/admin_console_service.go. `calls k` is what the k-th call of the registry in a
-- handler takes from outside; the handlers' logs are left out.
use roodox_sever_win.Base.{
  ℕ, pos, Bool, true, false, Bytes, Option, none, some, ◌==◌, not, ◌&&◌, ◌+◌, ◌%◌, ◌^◌,
  if◌then◌else◌,
}
use roodox_sever_win.Base.Space.{trim_space}
use roodox_sever_win.Errors.{
  Result, Code, invalid_argument, failed_precondition, ok, err, Err, to_grpc_error,
}
use roodox_sever_win.Devices.Tables.{
  DeviceRecord, DevicePolicyRecord, DeviceActionRecord, Registry, Call,
}
use roodox_sever_win.Devices.Lists.{is_empty}
use roodox_sever_win.Devices.Reports.{get_device}
use roodox_sever_win.Devices.Policies.{upsert_policy, reset_policy}
use roodox_sever_win.Devices.Actions.{DeviceActionRequest, enqueue_action}
use roodox_sever_win.Devices.Config.{AssignedConfig, ControlPlaneConfig, assigned_config_from_proto}
use roodox_sever_win.Devices.Messages.{ClientAction, client_action_to_proto}
use roodox_sever_win.Devices.ControlPlane.{with_device_id, respond}

pub record UpdateDevicePolicyRequest : Type 0 where
  pub device_id : Bytes
  pub policy : Option AssignedConfig
  pub expected_policy_revision : ℕ
  pub resets_to_default : Bool

pub record UpdateDevicePolicyResponse : Type 0 where
  pub policy_revision : ℕ
  pub requires_policy_pull : Bool
  pub effective_policy : AssignedConfig

-- The uint64 sum, where 0 is skipped.
abbrev pub next_revision : ℕ → ℕ
next_revision revision = let n = (revision + 1) % 2 ^ 64 in if n == 0 then 1 else n

abbrev pub policy_record : Bytes → AssignedConfig → ℕ → DevicePolicyRecord
policy_record id config revision = record {
  device_id = id;
  mount_path = config.mount_path;
  sync_roots = config.sync_roots;
  conflict_policy = config.conflict_policy;
  read_only = config.read_only;
  auto_connect = config.auto_connect;
  bandwidth_limit = config.bandwidth_limit;
  log_level = config.log_level;
  large_file_threshold = config.large_file_threshold;
  policy_revision = revision;
  updated_at_unix = pos 0;
}

abbrev pub policy_response : ℕ → AssignedConfig → UpdateDevicePolicyResponse
policy_response revision config = record {
  policy_revision = revision;
  requires_policy_pull = true;
  effective_policy = config;
}

abbrev pub policy_answer {ℓ} : {A : Type ℓ} → ℕ → AssignedConfig → A → UpdateDevicePolicyResponse
policy_answer revision config _ = policy_response revision config

abbrev pub checked_revision : ℕ → Result Err DeviceRecord → Result Code ℕ
unfolding to_grpc_error
checked_revision expected (err e) = err (to_grpc_error e)
checked_revision expected (ok d) =
    if not (expected == 0) && not (expected == d.policy_revision)
    then err failed_precondition
    else ok (next_revision d.policy_revision)

-- What UpdateDevicePolicy finds and tests before it writes: the next revision.
unfoldable pub check_policy_update :
    Call → UpdateDevicePolicyRequest → Bytes → Registry → Result Code ℕ
unfolding get_device to_grpc_error
check_policy_update c req device_id r =
    checked_revision req.expected_policy_revision (get_device c device_id r)

-- The policy of a request that sets one.
abbrev pub set_policy :
    Call
    → Bytes
    → Option AssignedConfig
    → ℕ
    → Registry
    → Result Code UpdateDevicePolicyResponse × Registry
unfolding upsert_policy assigned_config_from_proto to_grpc_error
set_policy c device_id none revision r = (err invalid_argument, r)
set_policy c device_id (some policy) revision r =
    respond (policy_answer revision (assigned_config_from_proto c.to_lower policy)) (
      upsert_policy c
        (policy_record device_id (assigned_config_from_proto c.to_lower policy) revision) r)

abbrev pub reset_to_default :
    ControlPlaneConfig
    → Call
    → Bytes
    → ℕ
    → Registry
    → Result Code UpdateDevicePolicyResponse × Registry
unfolding reset_policy to_grpc_error
reset_to_default config c device_id revision r =
    respond (policy_answer revision config.default_assigned_config)
      (reset_policy c device_id revision r)

-- The rest of UpdateDevicePolicy, in a transaction of its own.
unfoldable pub store_policy_update :
    ControlPlaneConfig
    → Call
    → UpdateDevicePolicyRequest
    → Bytes
    → Registry
    → Result Code ℕ
    → Result Code UpdateDevicePolicyResponse × Registry
unfolding upsert_policy reset_policy assigned_config_from_proto to_grpc_error
store_policy_update config c req device_id r (err e) = (err e, r)
store_policy_update config c req device_id r (ok revision) =
    if req.resets_to_default
    then reset_to_default config c device_id revision r
    else set_policy c device_id req.policy revision r

abbrev pub update_policy_for :
    ControlPlaneConfig
    → (ℕ → Call)
    → UpdateDevicePolicyRequest
    → Registry
    → Bytes
    → Result Code UpdateDevicePolicyResponse × Registry
unfolding check_policy_update store_policy_update
update_policy_for config calls req r device_id =
    store_policy_update config (calls 1) req device_id r
      (check_policy_update (calls 0) req device_id r)

-- UpdateDevicePolicy
unfoldable pub update_device_policy :
    ControlPlaneConfig
    → (ℕ → Call)
    → UpdateDevicePolicyRequest
    → Registry
    → Result Code UpdateDevicePolicyResponse × Registry
unfolding trim_space check_policy_update store_policy_update
update_device_policy config calls req r =
    with_device_id req.device_id r (update_policy_for config calls req r)

abbrev pub requested : DeviceActionRecord → ClientAction
unfolding client_action_to_proto
requested a = client_action_to_proto (pos 0) a false

-- What RequestClientAction does once it has looked for the device.
abbrev pub request_known :
    Call
    → DeviceActionRequest
    → Registry
    → Bytes
    → Result Err DeviceRecord
    → Result Code ClientAction × Registry
unfolding enqueue_action client_action_to_proto to_grpc_error
request_known c req r device_id (err e) = (err (to_grpc_error e), r)
request_known c req r device_id (ok d) =
    respond requested (enqueue_action c (record req { device_id = device_id }) r)

abbrev pub request_for :
    (ℕ → Call) → DeviceActionRequest → Registry → Bytes → Result Code ClientAction × Registry
unfolding trim_space get_device enqueue_action client_action_to_proto to_grpc_error
request_for calls req r device_id =
    if is_empty (trim_space req.action_type)
    then (err invalid_argument, r)
    else request_known (calls 1) req r device_id (get_device (calls 0) device_id r)

-- RequestClientAction. Its request has the fields of DeviceActionRequest.
unfoldable pub request_client_action :
    (ℕ → Call) → DeviceActionRequest → Registry → Result Code ClientAction × Registry
unfolding trim_space get_device enqueue_action client_action_to_proto to_grpc_error
request_client_action calls req r = with_device_id req.device_id r (request_for calls req r)
