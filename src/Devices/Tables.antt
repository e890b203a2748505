-- ===== src/Devices/Tables.antt =====
-- The tables device_registry, device_policy, device_actions and device_diagnostics, by the records
-- that internal/db reads from them. A string list in a JSON column stands as the list that it is
-- read back as, and a uint64 in an INTEGER column as the uint64.
use roodox_sever_win.Base.{ℕ, ℤ, Bool, Bytes, List, Option}
use roodox_sever_win.Base.Dict.{Dict}
use roodox_sever_win.Errors.{Result, Err}

pub record DeviceRecord : Type 0 where
  pub device_id : Bytes
  pub device_name : Bytes
  pub device_role : Bytes
  pub assigned_device_label : Bytes
  pub client_version : Bytes
  pub platform : Bytes
  pub overlay_provider : Bytes
  pub overlay_address : Bytes
  pub capabilities : List Bytes
  pub server_id : Bytes
  pub device_group : Bytes
  pub last_session_id : Bytes
  pub heartbeat_interval_seconds : ℕ
  pub policy_revision : ℕ
  pub requires_policy_pull : Bool
  pub overlay_connected : Bool
  pub grpc_connected : Bool
  pub last_sync_time_unix : ℤ
  pub last_error : Bytes
  pub mount_state : Bytes
  pub mounted : Bool
  pub mount_path : Bytes
  pub last_mount_time_unix : ℤ
  pub mount_last_error : Bytes
  pub sync_state_summary : Bytes
  pub current_task_count : ℕ
  pub sync_last_success_time : ℤ
  pub sync_last_error : Bytes
  pub conflict_count : ℕ
  pub queue_depth : ℕ
  pub sync_summary : Bytes
  pub created_at_unix : ℤ
  pub updated_at_unix : ℤ
  pub last_registered_at_unix : ℤ
  pub last_heartbeat_at_unix : ℤ
  pub last_sync_report_at_unix : ℤ
  pub last_mount_report_at_unix : ℤ
  pub last_seen_at_unix : ℤ

pub record DevicePolicyRecord : Type 0 where
  pub device_id : Bytes
  pub mount_path : Bytes
  pub sync_roots : List Bytes
  pub conflict_policy : Bytes
  pub read_only : Bool
  pub auto_connect : Bool
  pub bandwidth_limit : ℤ
  pub log_level : Bytes
  pub large_file_threshold : ℤ
  pub policy_revision : ℕ
  pub updated_at_unix : ℤ

-- The texts of the status column that the code writes.
pub data ActionStatus : Type 0 where
  pending delivered cancelled : ActionStatus

pub record DeviceActionRecord : Type 0 where
  pub action_id : Bytes
  pub device_id : Bytes
  pub action_type : Bytes
  pub payload_json : Bytes
  pub status : ActionStatus
  pub requested_at_unix : ℤ
  pub delivered_at_unix : ℤ
  pub completed_at_unix : ℤ

pub record DeviceDiagnosticRecord : Type 0 where
  pub diagnostics_id : Bytes
  pub device_id : Bytes
  pub category : Bytes
  pub content_type : Bytes
  pub summary : Bytes
  pub payload : Bytes
  pub size_bytes : ℤ
  pub uploaded_at_unix : ℤ

pub record Registry : Type 0 where
  pub devices : Dict DeviceRecord
  pub policies : Dict DevicePolicyRecord
  pub actions : List DeviceActionRecord
  pub diagnostics : List DeviceDiagnosticRecord

-- What a call takes from outside: time.Now().Unix(), strings.ToLower, the eight bytes that crypto/rand
-- draws or its error, and the errors, if any, that the engine reports when it writes and when it reads.
pub record Call : Type 0 where
  pub now_unix : ℤ
  pub to_lower : Bytes → Bytes
  pub random : Result Err Bytes
  pub write_fault : Option Err
  pub read_fault : Option Err
