-- ===== src/Devices/Requests.antt =====
-- The requests that change the registry, of devices and of the administrator, and histories of them.
pub mod Frames
pub mod Logs
pub mod Writes
pub mod Histories
pub mod Beats
pub mod Deliveries
pub mod Uploads
pub mod Revisions
pub mod Policies
pub mod Pulls
pub mod Races
mod Tests
mod PolicyTests
use roodox_sever_win.Base.{ℕ, Bytes, List, [], ◌∷◌}
use roodox_sever_win.Devices.Tables.{Registry, Call}
use roodox_sever_win.Devices.Rows.{DeviceHeartbeat, DeviceSyncStateReport, DeviceMountStateReport}
use roodox_sever_win.Devices.Actions.{DeviceActionRequest}
use roodox_sever_win.Devices.Config.{ControlPlaneConfig}
use roodox_sever_win.Devices.Messages.{RegisterDeviceRequest, UploadDiagnosticsRequest}
use roodox_sever_win.Devices.ControlPlane.{register_device, heartbeat, get_assigned_config}
use roodox_sever_win.Devices.Reporting.{report_sync_state, report_mount_state, upload_diagnostics}
use roodox_sever_win.Devices.Console.{
  UpdateDevicePolicyRequest, update_device_policy, request_client_action,
}

-- A request, with what its calls of the registry take from outside.
pub data Request : Type 0 where
  registers : Call → RegisterDeviceRequest → Request
  beats : (ℕ → Call) → DeviceHeartbeat → Request
  asks_config : (ℕ → Call) → Bytes → Request
  reports_sync : Call → DeviceSyncStateReport → Request
  reports_mount : Call → DeviceMountStateReport → Request
  uploads : (ℕ → Call) → UploadDiagnosticsRequest → Request
  sets_policy : (ℕ → Call) → UpdateDevicePolicyRequest → Request
  requests_action : (ℕ → Call) → DeviceActionRequest → Request

unfoldable pub serve : ControlPlaneConfig → Request → Registry → Registry
unfolding register_device heartbeat get_assigned_config report_sync_state report_mount_state
    upload_diagnostics update_device_policy request_client_action
serve config (registers c req) r = (register_device config c req r).1
serve config (beats calls req) r = (heartbeat calls req r).1
serve config (asks_config calls id) r = (get_assigned_config config calls id r).1
serve config (reports_sync c req) r = (report_sync_state c req r).1
serve config (reports_mount c req) r = (report_mount_state c req r).1
serve config (uploads calls req) r = (upload_diagnostics config calls req r).1
serve config (sets_policy calls req) r = (update_device_policy config calls req r).1
serve config (requests_action calls req) r = (request_client_action calls req r).1

unfoldable pub serve_all : ControlPlaneConfig → List Request → Registry → Registry
unfolding serve
serve_all config [] r = r
serve_all config (q ∷ qs) r = serve_all config qs (serve config q r)

abbrev pub empty_registry : Registry
empty_registry = record { devices = []; policies = []; actions = []; diagnostics = [] }
