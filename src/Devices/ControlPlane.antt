-- ===== src/Devices/ControlPlane.antt =====
-- The calls of the devices: internal/server/control_plane_service.go. `calls k` is what the k-th
-- call of the registry in a handler takes from outside; the handlers' logs are left out.
use roodox_sever_win.Base.{ℕ, ℤ, pos, true, Bytes, List, [], ◌∷◌, map, if◌then◌else◌}
use roodox_sever_win.Base.Space.{trim_space}
use roodox_sever_win.Errors.{
  Result, Code, invalid_argument, ok, err, Err, to_grpc_error, is_not_exist,
}
use roodox_sever_win.Devices.Tables.{
  DeviceRecord, DevicePolicyRecord, DeviceActionRecord, Registry, Call,
}
use roodox_sever_win.Devices.Lists.{is_empty, coalesce_non_empty, fallback_device_label}
use roodox_sever_win.Devices.Rows.{DeviceRegistration, DeviceHeartbeat}
use roodox_sever_win.Devices.Reports.{register, update_heartbeat, get_device, mark_policy_pulled}
use roodox_sever_win.Devices.Policies.{get_policy}
use roodox_sever_win.Devices.Actions.{list_pending_actions, mark_actions_delivered}
use roodox_sever_win.Devices.Messages.{
  RegisterDeviceRequest, RegisterDeviceResponse, HeartbeatResponse, GetAssignedConfigResponse,
  client_action_to_proto,
}
use roodox_sever_win.Devices.Config.{
  AssignedConfig, ControlPlaneConfig, assigned_config_from_policy_record,
}

-- The frame of every handler: `device_id is required`.
abbrev pub with_device_id {ℓ} :
    {A : Type ℓ} → Bytes → Registry → (Bytes → Result Code A × Registry) → Result Code A × Registry
unfolding trim_space
with_device_id device_id r f =
    if is_empty (trim_space device_id) then (err invalid_argument, r) else f (trim_space device_id)

-- `if err != nil { return nil, toGrpcError(err) }`, and the rest of the handler.
abbrev pub then_do {ℓ κ} :
    {A : Type ℓ} {B : Type κ}
    → Result Err A × Registry
    → (A → Registry → Result Code B × Registry)
    → Result Code B × Registry
unfolding to_grpc_error
then_do (err e, r) f = (err (to_grpc_error e), r)
then_do (ok a, r) f = f a r

-- The rest of a handler that only answers.
abbrev pub respond {ℓ κ} :
    {A : Type ℓ} {B : Type κ} → (A → B) → Result Err A × Registry → Result Code B × Registry
unfolding to_grpc_error
respond f (err e, r) = (err (to_grpc_error e), r)
respond f (ok a, r) = (ok (f a), r)

abbrev pub registration : ControlPlaneConfig → RegisterDeviceRequest → Bytes → DeviceRegistration
unfolding coalesce_non_empty fallback_device_label
registration config req device_id = record {
  device_id = device_id;
  device_name = req.device_name;
  device_role = req.device_role;
  assigned_device_label = fallback_device_label req.device_name device_id;
  client_version = req.client_version;
  platform = req.platform;
  overlay_provider = req.overlay_provider;
  overlay_address = req.overlay_address;
  capabilities = req.capabilities;
  server_id = coalesce_non_empty (config.server_id ∷ req.server_id ∷ []);
  device_group = coalesce_non_empty (req.device_group ∷ config.default_device_group ∷ []);
  heartbeat_interval_seconds = config.heartbeat_interval_seconds;
  policy_revision = config.default_policy_revision;
  requires_policy_pull = true;
  overlay_connected = true;
}

abbrev pub registered : DeviceRecord → RegisterDeviceResponse
registered d = record {
  accepted = true;
  assigned_device_label = d.assigned_device_label;
  heartbeat_interval_seconds = d.heartbeat_interval_seconds;
  policy_revision = d.policy_revision;
  requires_policy_pull = d.requires_policy_pull;
}

abbrev pub register_for :
    ControlPlaneConfig
    → Call
    → RegisterDeviceRequest
    → Registry
    → Bytes
    → Result Code RegisterDeviceResponse × Registry
unfolding register coalesce_non_empty fallback_device_label to_grpc_error
register_for config c req r device_id =
    respond registered (register c (registration config req device_id) r)

-- RegisterDevice
unfoldable pub register_device :
    ControlPlaneConfig
    → Call
    → RegisterDeviceRequest
    → Registry
    → Result Code RegisterDeviceResponse × Registry
unfolding trim_space register coalesce_non_empty fallback_device_label to_grpc_error
register_device config c req r = with_device_id req.device_id r (register_for config c req r)

abbrev pub heartbeat_response : ℤ → DeviceRecord → List DeviceActionRecord → HeartbeatResponse
unfolding client_action_to_proto
heartbeat_response now_unix d actions = record {
  next_heartbeat_seconds = d.heartbeat_interval_seconds;
  policy_revision = d.policy_revision;
  pending_actions = map (λ a. a.action_type) actions;
  pending_action_details = map (λ a. client_action_to_proto now_unix a true) actions;
}

abbrev pub handed_out : Call → DeviceRecord → List DeviceActionRecord → Unit {0} → HeartbeatResponse
unfolding client_action_to_proto
handed_out c d actions _ = heartbeat_response c.now_unix d actions

-- What Heartbeat does once it has listed the pending actions.
abbrev pub hand_out :
    Call
    → DeviceRecord
    → Result Err (List DeviceActionRecord)
    → Registry
    → Result Code HeartbeatResponse × Registry
unfolding mark_actions_delivered client_action_to_proto to_grpc_error
hand_out c d (err e) r = (err (to_grpc_error e), r)
hand_out c d (ok actions) r =
    respond (handed_out c d actions) (mark_actions_delivered c (map (λ a. a.action_id) actions) r)

-- What Heartbeat does once it has updated the device's row.
abbrev pub list_and_hand_out :
    (ℕ → Call) → Bytes → DeviceRecord → Registry → Result Code HeartbeatResponse × Registry
unfolding list_pending_actions mark_actions_delivered client_action_to_proto to_grpc_error
list_and_hand_out calls device_id d r =
    hand_out (calls 2) d (list_pending_actions (calls 1) device_id (pos 16) r) r

abbrev pub beat_for :
    (ℕ → Call) → DeviceHeartbeat → Registry → Bytes → Result Code HeartbeatResponse × Registry
unfolding update_heartbeat list_pending_actions mark_actions_delivered client_action_to_proto
    to_grpc_error
beat_for calls req r device_id =
    then_do (update_heartbeat (calls 0) (record req { device_id = device_id }) r)
      (list_and_hand_out calls device_id)

-- Heartbeat. Its request has the fields of DeviceHeartbeat; time.Now() is read once for the actions.
unfoldable pub heartbeat :
    (ℕ → Call) → DeviceHeartbeat → Registry → Result Code HeartbeatResponse × Registry
unfolding trim_space update_heartbeat list_pending_actions mark_actions_delivered
    client_action_to_proto to_grpc_error
heartbeat calls req r = with_device_id req.device_id r (beat_for calls req r)

-- GetPolicy as the handlers use it: no policy means the default configuration.
abbrev pub effective_config :
    AssignedConfig → Result Err DevicePolicyRecord → Result Code AssignedConfig
unfolding assigned_config_from_policy_record is_not_exist to_grpc_error
effective_config default (ok p) = ok (assigned_config_from_policy_record p)
effective_config default (err e) = if is_not_exist e then ok default else err (to_grpc_error e)

abbrev pub end_assigned_config :
    DeviceRecord → Result Code AssignedConfig → Result Code GetAssignedConfigResponse
end_assigned_config d (err e) = err e
end_assigned_config d (ok config) =
    ok (record { config = config; policy_revision = d.policy_revision })

-- What GetAssignedConfig does once it has read the device's row.
abbrev pub pull_policy :
    ControlPlaneConfig
    → (ℕ → Call)
    → Bytes
    → Registry
    → Result Err DeviceRecord
    → Result Code GetAssignedConfigResponse × Registry
unfolding mark_policy_pulled get_policy assigned_config_from_policy_record is_not_exist
    to_grpc_error
pull_policy config calls device_id r (err e) = (err (to_grpc_error e), r)
pull_policy config calls device_id r (ok d) =
    then_do (mark_policy_pulled (calls 1) device_id r) λ _ r'. (
      end_assigned_config d
          (effective_config config.default_assigned_config (get_policy (calls 2) device_id r')),
      r',
    )

abbrev pub pull_for :
    ControlPlaneConfig
    → (ℕ → Call)
    → Registry
    → Bytes
    → Result Code GetAssignedConfigResponse × Registry
unfolding get_device mark_policy_pulled get_policy assigned_config_from_policy_record is_not_exist
    to_grpc_error
pull_for config calls r device_id =
    pull_policy config calls device_id r (get_device (calls 0) device_id r)

-- GetAssignedConfig
unfoldable pub get_assigned_config :
    ControlPlaneConfig
    → (ℕ → Call)
    → Bytes
    → Registry
    → Result Code GetAssignedConfigResponse × Registry
unfolding trim_space get_device mark_policy_pulled get_policy assigned_config_from_policy_record
    is_not_exist to_grpc_error
get_assigned_config config calls req_id r = with_device_id req_id r (pull_for config calls r)
