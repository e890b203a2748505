-- ===== src/Devices/Join.antt =====
-- Join bundles for new devices: IssueJoinBundle of internal/server/admin_console_service.go.
use roodox_sever_win.Base.{Bool, Bytes, [], ◌∷◌, Option, codes, ◌==◌, not, ◌||◌, if◌then◌else◌}
use roodox_sever_win.Base.Space.{trim_space}
use roodox_sever_win.Errors.{Result, Code, invalid_argument, failed_precondition, ok, err, ◌>>=◌}
use roodox_sever_win.Devices.Lists.{is_empty, coalesce_non_empty}
use roodox_sever_win.Devices.Config.{ControlPlaneConfig}
use roodox_sever_win.Devices.Bundle.{Bundle, BundleError, normalize_bundle, marshal_json_file}

pub record IssueJoinBundleRequest : Type 0 where
  pub overlay_provider : Bytes
  pub overlay_join_config_json : Bytes
  pub device_group : Bytes
  pub device_id : Bytes
  pub device_name : Bytes
  pub device_role : Bytes

-- The bundle that IssueJoinBundle builds before Normalize.
abbrev pub bundle_model : ControlPlaneConfig → IssueJoinBundleRequest → Bundle
unfolding trim_space coalesce_non_empty
bundle_model config req = record {
  version = 1;
  overlay = record {
    provider = coalesce_non_empty (req.overlay_provider ∷ config.join_bundle.overlay_provider ∷ []);
    join_config =
        if not (is_empty (trim_space req.overlay_join_config_json))
        then trim_space req.overlay_join_config_json
        else if not (is_empty config.join_bundle.overlay_join_config_json)
        then config.join_bundle.overlay_join_config_json
        else codes "{}";
  };
  service_discovery = record {
    mode = config.join_bundle.service_discovery.mode;
    host = config.join_bundle.service_discovery.host;
    port = config.join_bundle.service_discovery.port;
    use_tls = config.join_bundle.service_discovery.use_tls;
    tls_server_name = config.join_bundle.service_discovery.tls_server_name;
  };
  roodox = record {
    server_id = config.server_id;
    device_group = coalesce_non_empty (req.device_group ∷ config.default_device_group ∷ []);
    shared_secret = config.join_bundle.shared_secret;
    device_id = trim_space req.device_id;
    device_name = trim_space req.device_name;
    device_role = trim_space req.device_role;
  };
}

abbrev bundle_text : Result BundleError Bytes → Result Code Bytes
bundle_text (ok text) = ok text
bundle_text (err e) = err invalid_argument

-- IssueJoinBundle: the bundle's text, and the bundle by whose fields the response is filled. The names
-- of the server and of the device stand there as they were before Normalize.
unfoldable pub issue_join_bundle :
    (Bytes → Bytes)
    → (Bytes → Bool)
    → (Bundle → Option Bytes)
    → ControlPlaneConfig
    → IssueJoinBundleRequest
    → Result Code (Bytes × Bundle)
unfolding trim_space coalesce_non_empty normalize_bundle marshal_json_file
issue_join_bundle lower json_valid marshal_indent config req =
    let model = bundle_model config req in
    if is_empty model.overlay.provider
    then err failed_precondition
    else if is_empty (trim_space model.service_discovery.host) || model.service_discovery.port == 0
    then err failed_precondition
    else (bundle_text
          (marshal_json_file lower json_valid marshal_indent (normalize_bundle lower model))
        >>= λ text. ok (text, record (normalize_bundle lower model) { roodox = model.roodox }))
