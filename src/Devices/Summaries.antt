-- ===== src/Devices/Summaries.antt =====
-- What the administrator sees of the devices: ListDevices and GetDeviceDetail of
-- internal/server/admin_console_service.go, with buildDeviceSummary and diagnosticSummaryToProto of
-- control_plane_support.go.
use roodox_sever_win.Base.{
  ℕ, ℤ, pos, negsuc, ltz, wrap64, Bool, false, Bytes, List, map, codes, ◌==◌, ltb, leb, not, max,
  ◌&&◌, ◌||◌, ◌+◌, ◌*◌, ◌-◌, if◌then◌else◌,
}
use roodox_sever_win.Base.Space.{trim_space}
use roodox_sever_win.Errors.{Result, Code, invalid_argument, ok, err, grpc, ◌>>=◌}
use roodox_sever_win.Devices.Tables.{DeviceRecord, DeviceDiagnosticRecord, Registry, Call}
use roodox_sever_win.Devices.Lists.{is_empty, is_zero}
use roodox_sever_win.Devices.Reports.{get_device, list_devices}
use roodox_sever_win.Devices.Policies.{get_policy}
use roodox_sever_win.Devices.Actions.{list_active_actions}
use roodox_sever_win.Devices.Diagnostics.{list_diagnostics}
use roodox_sever_win.Devices.Config.{
  AssignedConfig, ControlPlaneConfig, default_heartbeat_interval_seconds,
}
use roodox_sever_win.Devices.Messages.{ClientAction, client_action_to_proto}
use roodox_sever_win.Devices.ControlPlane.{effective_config}

pub data OnlineState : Type 0 where
  unknown offline degraded online : OnlineState

-- a - b on integers
abbrev pub minus : ℤ → ℤ → ℤ
minus (pos a) (pos b) = if leb b a then pos (a - b) else negsuc (b - a - 1)
minus (pos a) (negsuc b) = pos (a + b + 1)
minus (negsuc a) (pos b) = negsuc (a + b)
minus (negsuc a) (negsuc b) = if leb a b then pos (b - a) else negsuc (a - b - 1)

abbrev pub offline_after : DeviceRecord → ℕ
offline_after d = max 45 (
    3
    * (if d.heartbeat_interval_seconds == 0
        then default_heartbeat_interval_seconds
        else d.heartbeat_interval_seconds))

-- A report of trouble, from a device that is seen in time.
abbrev pub is_degraded : DeviceRecord → Bool
unfolding trim_space
is_degraded d =
    not d.grpc_connected
    || (not (is_empty (trim_space d.overlay_provider)) && not d.overlay_connected)
    || (not (is_empty (trim_space d.last_error)) || not (is_empty (trim_space d.sync_last_error)))

-- deviceOnlineState; the difference of the int64 times wraps.
unfoldable pub device_online_state : DeviceRecord → ℤ → OnlineState
unfolding trim_space wrap64
device_online_state d now_unix =
    if is_zero d.last_seen_at_unix
    then unknown
    else if ltz (pos (offline_after d)) (wrap64 (minus now_unix d.last_seen_at_unix))
    then offline
    else if is_degraded d
    then degraded
    else online

-- deviceDisplayName
abbrev pub device_display_name : DeviceRecord → Bytes
unfolding trim_space
device_display_name d =
    if not (is_empty (trim_space d.assigned_device_label))
    then trim_space d.assigned_device_label
    else if not (is_empty (trim_space d.device_name))
    then trim_space d.device_name
    else d.device_id

-- deviceSyncState
abbrev pub device_sync_state : DeviceRecord → Bytes
unfolding trim_space
device_sync_state d =
    if not (is_empty (trim_space d.sync_summary))
    then trim_space d.sync_summary
    else if not (is_empty (trim_space d.sync_state_summary))
    then trim_space d.sync_state_summary
    else if not (is_empty (trim_space d.sync_last_error))
    then codes "error"
    else if ltb 0 d.current_task_count
    then codes "running"
    else codes "idle"

-- deviceMountState
abbrev pub device_mount_state : DeviceRecord → Bytes
unfolding trim_space
device_mount_state d =
    if not (is_empty (trim_space d.mount_state)) then trim_space d.mount_state else codes "unknown"

pub record DeviceSummary : Type 0 where
  pub device_id : Bytes
  pub display_name : Bytes
  pub role : Bytes
  pub overlay_provider : Bytes
  pub overlay_address : Bytes
  pub online_state : OnlineState
  pub last_seen_at : ℤ
  pub sync_state : Bytes
  pub mount_state : Bytes
  pub client_version : Bytes
  pub policy_revision : ℕ

-- buildDeviceSummary
unfoldable pub build_device_summary : ℤ → DeviceRecord → DeviceSummary
unfolding trim_space device_online_state
build_device_summary now_unix d = record {
  device_id = d.device_id;
  display_name = device_display_name d;
  role = d.device_role;
  overlay_provider = d.overlay_provider;
  overlay_address = d.overlay_address;
  online_state = device_online_state d now_unix;
  last_seen_at = d.last_seen_at_unix;
  sync_state = device_sync_state d;
  mount_state = device_mount_state d;
  client_version = d.client_version;
  policy_revision = d.policy_revision;
}

-- ListDevices
unfoldable pub list_device_summaries : Call → ℤ → Registry → Result Code (List DeviceSummary)
unfolding list_devices build_device_summary
list_device_summaries c now_unix r =
    grpc (list_devices c r) >>= λ ds. ok (map (build_device_summary now_unix) ds)

pub record DiagnosticSummary : Type 0 where
  pub diagnostics_id : Bytes
  pub category : Bytes
  pub content_type : Bytes
  pub summary : Bytes
  pub size_bytes : ℤ
  pub uploaded_at_unix : ℤ

-- diagnosticSummaryToProto
abbrev pub diagnostic_summary_to_proto : DeviceDiagnosticRecord → DiagnosticSummary
diagnostic_summary_to_proto x = record {
  diagnostics_id = x.diagnostics_id;
  category = x.category;
  content_type = x.content_type;
  summary = x.summary;
  size_bytes = x.size_bytes;
  uploaded_at_unix = x.uploaded_at_unix;
}

-- The response of GetDeviceDetail. `device` is the record whose fields it copies one by one.
pub record DeviceDetail : Type 0 where
  pub summary : DeviceSummary
  pub device : DeviceRecord
  pub assigned_config : AssignedConfig
  pub pending_actions : List ClientAction
  pub recent_diagnostics : List DiagnosticSummary
  pub available_actions : List Bytes

-- GetDeviceDetail
unfoldable pub get_device_detail :
    ControlPlaneConfig → (ℕ → Call) → ℤ → Bytes → Registry → Result Code DeviceDetail
unfolding trim_space get_device get_policy list_active_actions list_diagnostics build_device_summary
    client_action_to_proto
get_device_detail config calls now_unix req_id r =
    let id = trim_space req_id in
    if is_empty id
    then err invalid_argument
    else (grpc (get_device (calls 0) id r) >>= λ d.
        effective_config config.default_assigned_config (get_policy (calls 1) id r) >>= λ assigned.
        grpc (list_active_actions (calls 2) id (pos 16) r) >>= λ actions.
        grpc (list_diagnostics (calls 3) id config.diagnostics_keep_latest r) >>= λ diagnostics.
        ok (record {
          summary = build_device_summary now_unix d;
          device = d;
          assigned_config = assigned;
          pending_actions = map (λ a. client_action_to_proto now_unix a false) actions;
          recent_diagnostics = map diagnostic_summary_to_proto diagnostics;
          available_actions = config.available_actions;
        }))
