-- ===== src/Devices/Requests/Tests.antt =====
-- Runs of the device services on small registries.
use roodox_sever_win.Base.{
  ℕ, pos, bytes_eq, ◌≤◌, ◌≡◌, refl, Bool, true, false, List, [], ◌∷◌, none, some, codes,
}
use roodox_sever_win.Base.Space.{trim_right}
use roodox_sever_win.Fs.Ignore.{to_lower}
use roodox_sever_win.Errors.{Result, Code, ok, err}
use roodox_sever_win.Devices.Tables.{pending, DeviceActionRecord, Registry, Call}
use roodox_sever_win.Devices.Lists.{in_list}
use roodox_sever_win.Devices.Rows.{DeviceHeartbeat}
use roodox_sever_win.Devices.Actions.{DeviceActionRequest}
use roodox_sever_win.Devices.Actions.Lifecycle.{find_action, Evolves}
use roodox_sever_win.Devices.Diagnostics.{is_of}
use roodox_sever_win.Devices.Diagnostics.Bounds.{count}
use roodox_sever_win.Devices.Config.{
  AssignedConfig, ControlPlaneConfig, normalize_control_plane_config,
}
use roodox_sever_win.Devices.Messages.{
  RegisterDeviceRequest, UploadDiagnosticsRequest, HeartbeatResponse,
}
use roodox_sever_win.Devices.ControlPlane.{heartbeat}
use roodox_sever_win.Devices.Requests.{
  Request, registers, beats, uploads, requests_action, serve_all, empty_registry,
}
use roodox_sever_win.Devices.Requests.Beats.{Beats}
use roodox_sever_win.Devices.Requests.Deliveries.{actions_evolve, delivered_once, handed_ids}
use roodox_sever_win.Devices.Requests.Uploads.{uploads_bounded}

abbrev pub call : ℕ → ℕ → Call
unfolding to_lower
call t k = record {
  now_unix = pos t;
  to_lower = to_lower;
  random = ok (t ∷ 171 ∷ []);
  write_fault = none;
  read_fault = none;
}

abbrev pub blank_config : AssignedConfig
blank_config = record {
  mount_path = [];
  sync_roots = [];
  conflict_policy = [];
  read_only = false;
  auto_connect = true;
  bandwidth_limit = pos 0;
  log_level = [];
  large_file_threshold = pos 0;
}

abbrev pub config : ControlPlaneConfig
unfolding normalize_control_plane_config to_lower
config = normalize_control_plane_config to_lower (record {
  server_id = codes "srv";
  default_device_group = [];
  heartbeat_interval_seconds = 0;
  default_policy_revision = 0;
  default_assigned_config = blank_config;
  join_bundle = record {
    overlay_provider = [];
    overlay_join_config_json = [];
    service_discovery = record {
      mode = [];
      host = [];
      port = 0;
      use_tls = false;
      tls_server_name = [];
    };
    shared_secret = [];
  };
  available_actions = [];
  diagnostics_keep_latest = pos 1;
})

abbrev pub registration : RegisterDeviceRequest
registration = record {
  device_id = codes " d1";
  device_name = codes "laptop";
  device_role = [];
  client_version = [];
  platform = [];
  overlay_provider = [];
  overlay_address = [];
  capabilities = codes "sync" ∷ codes "Sync " ∷ [];
  server_id = [];
  device_group = [];
}

abbrev remount : DeviceActionRequest
remount = record {
  device_id = codes "d1";
  action_type = codes "remount";
  payload_json = [];
  replace_similar_pending = true;
}

abbrev beat : DeviceHeartbeat
beat = record {
  device_id = codes "d1 ";
  session_id = codes "s";
  timestamp_unix = pos 0;
  overlay_connected = true;
  grpc_connected = true;
  last_sync_time_unix = pos 0;
  last_error = [];
  mount_state = [];
  sync_state_summary = [];
}

abbrev diagnostic : UploadDiagnosticsRequest
diagnostic = record {
  device_id = codes "d1";
  category = codes "log";
  content_type = [];
  summary = [];
  data_bytes = 1 ∷ 2 ∷ [];
}

abbrev pub first_requests : List Request
unfolding to_lower
first_requests =
    registers (call 10 0) registration
    ∷ requests_action (call 11) remount
    ∷ requests_action (call 12) remount
    ∷ []

abbrev pub registry : Registry
unfolding serve_all to_lower normalize_control_plane_config
registry = serve_all config first_requests empty_registry

abbrev no_response : HeartbeatResponse
no_response = record {
  next_heartbeat_seconds = 0;
  policy_revision = 0;
  pending_actions = [];
  pending_action_details = [];
}

abbrev pub answer {ℓ} : {A : Type ℓ} → A → Result Code A → A
answer d (ok a) = a
answer d (err e) = d

abbrev pub is_ok {ℓ} : {A : Type ℓ} → Result Code A → Bool
is_ok (ok a) = true
is_ok (err e) = false

pub has_answer {ℓ} : {A : Type ℓ} (d : A) (x : Result Code A) → is_ok x ≡ true → x ≡ ok (answer d x)
has_answer d (ok a) h = refl
has_answer d (err e) h = cc h

abbrev beaten : Registry
unfolding heartbeat serve_all to_lower normalize_control_plane_config
beaten = (heartbeat (call 13) beat registry).1

abbrev requested_again : Registry
unfolding heartbeat serve_all to_lower normalize_control_plane_config
requested_again = serve_all config (requests_action (call 14) remount ∷ []) beaten

-- The second request for the same action has replaced the first, and is handed out once.
handed_first :
    handed_ids (answer no_response (heartbeat (call 13) beat registry).0) ≡ codes "0cab" ∷ []
unfolding heartbeat serve_all to_lower normalize_control_plane_config trim_right
handed_first = refl

delivered_once_example :
    in_list
      (codes "0cab")
      (handed_ids (answer no_response (heartbeat (call 15) beat requested_again).0))
    ≡ false
unfolding heartbeat serve_all to_lower normalize_control_plane_config trim_right bytes_eq
delivered_once_example =
    delivered_once config first_requests (requests_action (call 14) remount ∷ []) (call 13)
      (call 15) beat beat (answer no_response (heartbeat (call 13) beat registry).0)
      (answer no_response (heartbeat (call 15) beat requested_again).0) (codes "0cab")
      (has_answer no_response (heartbeat (call 13) beat registry).0 refl)
      (has_answer no_response (heartbeat (call 15) beat requested_again).0 refl) refl

uploads_bounded_example :
    count
      (is_of (codes "d1"))
      (serve_all config
        (registers (call 10 0) registration
          ∷ uploads (call 11) diagnostic
          ∷ uploads (call 12) diagnostic
          ∷ [])
        empty_registry).diagnostics
    ≤ 1
unfolding serve_all to_lower normalize_control_plane_config trim_right bytes_eq
uploads_bounded_example =
    uploads_bounded config
      (registers (call 10 0) registration
        ∷ uploads (call 11) diagnostic
        ∷ uploads (call 12) diagnostic
        ∷ [])
      (codes "d1")

abbrev waiting : DeviceActionRecord
waiting = record {
  action_id = codes "0cab";
  device_id = codes "d1";
  action_type = codes "remount";
  payload_json = [];
  status = pending;
  requested_at_unix = pos 12;
  delivered_at_unix = pos 0;
  completed_at_unix = pos 0;
}

actions_evolve_example :
    (b : DeviceActionRecord) × (find_action
        (codes "0cab")
        (serve_all config
          (beats (call 13) beat ∷ requests_action (call 14) remount ∷ [])
          registry).actions
      ≡ some b)
    × Evolves waiting b
unfolding heartbeat serve_all to_lower normalize_control_plane_config trim_right bytes_eq
    find_action
actions_evolve_example =
    actions_evolve config (beats (call 13) beat ∷ requests_action (call 14) remount ∷ []) registry
      (codes "0cab") waiting refl
