-- ===== src/Devices/Reporting.antt =====
-- The reports of the devices: ReportSyncState, ReportMountState and UploadDiagnostics of
-- internal/server/control_plane_service.go.
use roodox_sever_win.Base.{ℕ, pos, Bytes, [], length}
use roodox_sever_win.Base.Space.{trim_space}
use roodox_sever_win.Errors.{Result, Code, ok, err, Err, to_grpc_error}
use roodox_sever_win.Devices.Tables.{DeviceRecord, DeviceDiagnosticRecord, Registry, Call}
use roodox_sever_win.Devices.Rows.{DeviceSyncStateReport, DeviceMountStateReport}
use roodox_sever_win.Devices.Reports.{update_sync_state, update_mount_state, get_device}
use roodox_sever_win.Devices.Diagnostics.{insert_diagnostic}
use roodox_sever_win.Devices.Messages.{UploadDiagnosticsRequest, UploadDiagnosticsResponse}
use roodox_sever_win.Devices.Config.{ControlPlaneConfig}
use roodox_sever_win.Devices.ControlPlane.{with_device_id, respond}

abbrev pub acknowledged : DeviceRecord → Unit {0}
acknowledged d = tt

abbrev pub sync_for :
    Call → DeviceSyncStateReport → Registry → Bytes → Result Code (Unit {0}) × Registry
unfolding update_sync_state to_grpc_error
sync_for c req r device_id =
    respond acknowledged (update_sync_state c (record req { device_id = device_id }) r)

-- ReportSyncState
unfoldable pub report_sync_state :
    Call → DeviceSyncStateReport → Registry → Result Code (Unit {0}) × Registry
unfolding trim_space update_sync_state to_grpc_error
report_sync_state c req r = with_device_id req.device_id r (sync_for c req r)

abbrev pub mount_for :
    Call → DeviceMountStateReport → Registry → Bytes → Result Code (Unit {0}) × Registry
unfolding update_mount_state to_grpc_error
mount_for c req r device_id =
    respond acknowledged (update_mount_state c (record req { device_id = device_id }) r)

-- ReportMountState
unfoldable pub report_mount_state :
    Call → DeviceMountStateReport → Registry → Result Code (Unit {0}) × Registry
unfolding trim_space update_mount_state to_grpc_error
report_mount_state c req r = with_device_id req.device_id r (mount_for c req r)

abbrev pub uploaded_record : UploadDiagnosticsRequest → Bytes → DeviceDiagnosticRecord
uploaded_record req device_id = record {
  diagnostics_id = [];
  device_id = device_id;
  category = req.category;
  content_type = req.content_type;
  summary = req.summary;
  payload = req.data_bytes;
  size_bytes = pos (length req.data_bytes);
  uploaded_at_unix = pos 0;
}

abbrev pub uploaded : DeviceDiagnosticRecord → UploadDiagnosticsResponse
uploaded x = record {
  diagnostics_id = x.diagnostics_id;
  uploaded_at_unix = x.uploaded_at_unix;
  size_bytes = x.size_bytes;
}

-- What UploadDiagnostics does once it has looked for the device.
abbrev pub upload_known :
    ControlPlaneConfig
    → Call
    → UploadDiagnosticsRequest
    → Registry
    → Bytes
    → Result Err DeviceRecord
    → Result Code UploadDiagnosticsResponse × Registry
unfolding insert_diagnostic to_grpc_error
upload_known config c req r device_id (err e) = (err (to_grpc_error e), r)
upload_known config c req r device_id (ok d) =
    respond uploaded
      (insert_diagnostic c (uploaded_record req device_id) config.diagnostics_keep_latest r)

abbrev pub upload_for :
    ControlPlaneConfig
    → (ℕ → Call)
    → UploadDiagnosticsRequest
    → Registry
    → Bytes
    → Result Code UploadDiagnosticsResponse × Registry
unfolding get_device insert_diagnostic to_grpc_error
upload_for config calls req r device_id =
    upload_known config (calls 1) req r device_id (get_device (calls 0) device_id r)

-- UploadDiagnostics
unfoldable pub upload_diagnostics :
    ControlPlaneConfig
    → (ℕ → Call)
    → UploadDiagnosticsRequest
    → Registry
    → Result Code UploadDiagnosticsResponse × Registry
unfolding trim_space get_device insert_diagnostic to_grpc_error
upload_diagnostics config calls req r =
    with_device_id req.device_id r (upload_for config calls req r)
