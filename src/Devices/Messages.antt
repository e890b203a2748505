-- ===== src/Devices/Messages.antt =====
-- The messages of the control plane and of the admin console that differ from the registry's own
-- records, and clientActionToProto of internal/server/control_plane_support.go.
use roodox_sever_win.Base.{ℕ, ℤ, Bool, Bytes, List, if◌then◌else◌}
use roodox_sever_win.Devices.Tables.{ActionStatus, delivered, DeviceActionRecord}
use roodox_sever_win.Devices.Lists.{is_zero}
use roodox_sever_win.Devices.Config.{AssignedConfig}

pub record RegisterDeviceRequest : Type 0 where
  pub device_id : Bytes
  pub device_name : Bytes
  pub device_role : Bytes
  pub client_version : Bytes
  pub platform : Bytes
  pub overlay_provider : Bytes
  pub overlay_address : Bytes
  pub capabilities : List Bytes
  pub server_id : Bytes
  pub device_group : Bytes

pub record RegisterDeviceResponse : Type 0 where
  pub accepted : Bool
  pub assigned_device_label : Bytes
  pub heartbeat_interval_seconds : ℕ
  pub policy_revision : ℕ
  pub requires_policy_pull : Bool

pub record ClientAction : Type 0 where
  pub action_id : Bytes
  pub action_type : Bytes
  pub payload_json : Bytes
  pub status : ActionStatus
  pub requested_at_unix : ℤ
  pub delivered_at_unix : ℤ
  pub completed_at_unix : ℤ

pub record HeartbeatResponse : Type 0 where
  pub next_heartbeat_seconds : ℕ
  pub policy_revision : ℕ
  pub pending_actions : List Bytes
  pub pending_action_details : List ClientAction

pub record GetAssignedConfigResponse : Type 0 where
  pub config : AssignedConfig
  pub policy_revision : ℕ

pub record UploadDiagnosticsRequest : Type 0 where
  pub device_id : Bytes
  pub category : Bytes
  pub content_type : Bytes
  pub summary : Bytes
  pub data_bytes : Bytes

pub record UploadDiagnosticsResponse : Type 0 where
  pub diagnostics_id : Bytes
  pub uploaded_at_unix : ℤ
  pub size_bytes : ℤ

-- clientActionToProto
unfoldable pub client_action_to_proto : ℤ → DeviceActionRecord → Bool → ClientAction
client_action_to_proto now_unix a is_delivered = record {
  action_id = a.action_id;
  action_type = a.action_type;
  payload_json = a.payload_json;
  status = if is_delivered then delivered else a.status;
  requested_at_unix = a.requested_at_unix;
  delivered_at_unix =
      if is_delivered
      then if is_zero a.delivered_at_unix then now_unix else a.delivered_at_unix
      else a.delivered_at_unix;
  completed_at_unix = a.completed_at_unix;
}
