-- ===== src/Devices/Rows.antt =====
-- The inputs of Register, UpdateHeartbeat, UpdateSyncState and UpdateMountState, and the row of
-- device_registry that each writes.
use roodox_sever_win.Base.{
  ℕ, ℤ, pos, Bool, true, false, Bytes, List, [], Option, none, some, codes, ◌||◌, if◌then◌else◌,
}
use roodox_sever_win.Base.Space.{trim_space}
use roodox_sever_win.Devices.Tables.{DeviceRecord, Call}
use roodox_sever_win.Devices.Lists.{is_empty, is_zero, normalize_string_list, fallback_device_label}

pub record DeviceRegistration : Type 0 where
  pub device_id : Bytes
  pub device_name : Bytes
  pub device_role : Bytes
  pub assigned_device_label : Bytes
  pub client_version : Bytes
  pub platform : Bytes
  pub overlay_provider : Bytes
  pub overlay_address : Bytes
  pub capabilities : List Bytes
  pub server_id : Bytes
  pub device_group : Bytes
  pub heartbeat_interval_seconds : ℕ
  pub policy_revision : ℕ
  pub requires_policy_pull : Bool
  pub overlay_connected : Bool

pub record DeviceHeartbeat : Type 0 where
  pub device_id : Bytes
  pub session_id : Bytes
  pub timestamp_unix : ℤ
  pub overlay_connected : Bool
  pub grpc_connected : Bool
  pub last_sync_time_unix : ℤ
  pub last_error : Bytes
  pub mount_state : Bytes
  pub sync_state_summary : Bytes

pub record DeviceSyncStateReport : Type 0 where
  pub device_id : Bytes
  pub current_task_count : ℕ
  pub last_success_time : ℤ
  pub last_error : Bytes
  pub conflict_count : ℕ
  pub queue_depth : ℕ
  pub summary : Bytes

pub record DeviceMountStateReport : Type 0 where
  pub device_id : Bytes
  pub mounted : Bool
  pub mount_path : Bytes
  pub last_mount_time : ℤ
  pub last_error : Bytes

-- The row that Register inserts for a device that is new.
abbrev pub new_row : Call → DeviceRegistration → DeviceRecord
unfolding trim_space normalize_string_list fallback_device_label
new_row c input = record {
  device_id = trim_space input.device_id;
  device_name = trim_space input.device_name;
  device_role = trim_space input.device_role;
  assigned_device_label =
      if is_empty (trim_space input.assigned_device_label)
      then fallback_device_label input.device_name (trim_space input.device_id)
      else trim_space input.assigned_device_label;
  client_version = trim_space input.client_version;
  platform = trim_space input.platform;
  overlay_provider = trim_space input.overlay_provider;
  overlay_address = trim_space input.overlay_address;
  capabilities = normalize_string_list c.to_lower input.capabilities;
  server_id = trim_space input.server_id;
  device_group = trim_space input.device_group;
  last_session_id = [];
  heartbeat_interval_seconds = input.heartbeat_interval_seconds;
  policy_revision = input.policy_revision;
  requires_policy_pull = input.requires_policy_pull;
  overlay_connected = input.overlay_connected || is_empty (trim_space input.overlay_provider);
  grpc_connected = true;
  last_sync_time_unix = pos 0;
  last_error = [];
  mount_state = [];
  mounted = false;
  mount_path = [];
  last_mount_time_unix = pos 0;
  mount_last_error = [];
  sync_state_summary = [];
  current_task_count = 0;
  sync_last_success_time = pos 0;
  sync_last_error = [];
  conflict_count = 0;
  queue_depth = 0;
  sync_summary = [];
  created_at_unix = c.now_unix;
  updated_at_unix = c.now_unix;
  last_registered_at_unix = c.now_unix;
  last_heartbeat_at_unix = pos 0;
  last_sync_report_at_unix = pos 0;
  last_mount_report_at_unix = pos 0;
  last_seen_at_unix = c.now_unix;
}

-- ON CONFLICT(device_id) DO UPDATE SET
abbrev pub merge_row : DeviceRecord → Option DeviceRecord → DeviceRecord
merge_row n none = n
merge_row n (some d) = record d {
  device_name = n.device_name;
  device_role = n.device_role;
  assigned_device_label = n.assigned_device_label;
  client_version = n.client_version;
  platform = n.platform;
  overlay_provider = n.overlay_provider;
  overlay_address = n.overlay_address;
  capabilities = n.capabilities;
  server_id = n.server_id;
  device_group = n.device_group;
  heartbeat_interval_seconds = n.heartbeat_interval_seconds;
  overlay_connected = n.overlay_connected;
  grpc_connected = n.grpc_connected;
  updated_at_unix = n.updated_at_unix;
  last_registered_at_unix = n.last_registered_at_unix;
  last_seen_at_unix = n.last_seen_at_unix;
}

abbrev pub heartbeat_row : Call → DeviceHeartbeat → DeviceRecord → DeviceRecord
unfolding trim_space
heartbeat_row c input d =
    let seen = if is_zero input.timestamp_unix then c.now_unix else input.timestamp_unix in
    record d {
      last_session_id = trim_space input.session_id;
      overlay_connected = input.overlay_connected;
      grpc_connected = input.grpc_connected;
      last_sync_time_unix =
          if is_zero input.last_sync_time_unix
          then d.last_sync_time_unix
          else input.last_sync_time_unix;
      last_error = trim_space input.last_error;
      mount_state = trim_space input.mount_state;
      sync_state_summary = trim_space input.sync_state_summary;
      updated_at_unix = seen;
      last_heartbeat_at_unix = seen;
      last_seen_at_unix = seen;
    }

abbrev pub sync_state_row : Call → DeviceSyncStateReport → DeviceRecord → DeviceRecord
unfolding trim_space
sync_state_row c input d = record d {
  current_task_count = input.current_task_count;
  sync_last_success_time =
      if is_zero input.last_success_time then d.sync_last_success_time else input.last_success_time;
  sync_last_error = trim_space input.last_error;
  conflict_count = input.conflict_count;
  queue_depth = input.queue_depth;
  sync_summary = trim_space input.summary;
  sync_state_summary = trim_space input.summary;
  last_sync_time_unix =
      if is_zero input.last_success_time then d.last_sync_time_unix else input.last_success_time;
  last_error =
      if is_empty (trim_space input.last_error) then d.last_error else trim_space input.last_error;
  grpc_connected = true;
  updated_at_unix = c.now_unix;
  last_sync_report_at_unix = c.now_unix;
  last_seen_at_unix = c.now_unix;
}

abbrev pub mount_state_row : Call → DeviceMountStateReport → DeviceRecord → DeviceRecord
unfolding trim_space
mount_state_row c input d = record d {
  mounted = input.mounted;
  mount_path = trim_space input.mount_path;
  last_mount_time_unix =
      if is_zero input.last_mount_time then d.last_mount_time_unix else input.last_mount_time;
  mount_last_error = trim_space input.last_error;
  mount_state =
      if input.mounted
      then codes "mounted"
      else if is_empty (trim_space input.last_error)
      then codes "unmounted"
      else codes "error";
  last_error =
      if is_empty (trim_space input.last_error) then d.last_error else trim_space input.last_error;
  updated_at_unix = c.now_unix;
  last_mount_report_at_unix = c.now_unix;
  last_seen_at_unix = c.now_unix;
}
