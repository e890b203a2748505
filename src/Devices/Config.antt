-- ===== src/Devices/Config.antt =====
-- The settings of the control plane and their defaults: the configuration types and
-- normalizeControlPlaneConfig of internal/server/control_plane_service.go.
use roodox_sever_win.Base.{
  ℕ, ℤ, pos, non_positive, Bool, Bytes, List, [], ◌∷◌, codes, ◌==◌, ◌*◌, ◌^◌, if◌then◌else◌,
}
use roodox_sever_win.Base.Space.{trim_space}
use roodox_sever_win.Devices.Tables.{DevicePolicyRecord}
use roodox_sever_win.Devices.Lists.{is_empty, normalize_string_list}

pub record AssignedConfig : Type 0 where
  pub mount_path : Bytes
  pub sync_roots : List Bytes
  pub conflict_policy : Bytes
  pub read_only : Bool
  pub auto_connect : Bool
  pub bandwidth_limit : ℤ
  pub log_level : Bytes
  pub large_file_threshold : ℤ

pub record ServiceDiscoveryConfig : Type 0 where
  pub mode : Bytes
  pub host : Bytes
  pub port : ℕ
  pub use_tls : Bool
  pub tls_server_name : Bytes

pub record JoinBundleConfig : Type 0 where
  pub overlay_provider : Bytes
  pub overlay_join_config_json : Bytes
  pub service_discovery : ServiceDiscoveryConfig
  pub shared_secret : Bytes

pub record ControlPlaneConfig : Type 0 where
  pub server_id : Bytes
  pub default_device_group : Bytes
  pub heartbeat_interval_seconds : ℕ
  pub default_policy_revision : ℕ
  pub default_assigned_config : AssignedConfig
  pub join_bundle : JoinBundleConfig
  pub available_actions : List Bytes
  pub diagnostics_keep_latest : ℤ

abbrev pub default_heartbeat_interval_seconds : ℕ
default_heartbeat_interval_seconds = 15

abbrev pub default_policy_revision_number : ℕ
default_policy_revision_number = 1

abbrev default_large_file_threshold : ℤ
default_large_file_threshold = pos (64 * 2 ^ 20)

abbrev or_default : Bytes → Bytes → Bytes
or_default s d = if is_empty s then d else s

abbrev or_list : List Bytes → List Bytes → List Bytes
or_list s d = if is_empty s then d else s

abbrev pub normalize_assigned_config : (Bytes → Bytes) → AssignedConfig → AssignedConfig
unfolding trim_space normalize_string_list
normalize_assigned_config lower config = record config {
  mount_path = trim_space config.mount_path;
  sync_roots = or_list (normalize_string_list lower config.sync_roots) (codes "." ∷ []);
  conflict_policy = or_default (trim_space config.conflict_policy) (codes "manual");
  log_level = or_default (trim_space config.log_level) (codes "info");
  large_file_threshold =
      if non_positive config.large_file_threshold
      then default_large_file_threshold
      else config.large_file_threshold;
}

abbrev pub normalize_service_discovery : ServiceDiscoveryConfig → ServiceDiscoveryConfig
unfolding trim_space
normalize_service_discovery d = record d {
  mode = or_default (trim_space d.mode) (codes "static");
  host = trim_space d.host;
  tls_server_name = trim_space d.tls_server_name;
}

abbrev pub normalize_join_bundle : JoinBundleConfig → JoinBundleConfig
unfolding trim_space
normalize_join_bundle b = record b {
  overlay_provider = trim_space b.overlay_provider;
  overlay_join_config_json = trim_space b.overlay_join_config_json;
  service_discovery = normalize_service_discovery b.service_discovery;
  shared_secret = trim_space b.shared_secret;
}

-- normalizeControlPlaneConfig
unfoldable pub normalize_control_plane_config :
    (Bytes → Bytes) → ControlPlaneConfig → ControlPlaneConfig
unfolding trim_space normalize_string_list
normalize_control_plane_config lower config = record config {
  server_id = trim_space config.server_id;
  default_device_group = or_default (trim_space config.default_device_group) (codes "default");
  heartbeat_interval_seconds =
      if config.heartbeat_interval_seconds == 0
      then default_heartbeat_interval_seconds
      else config.heartbeat_interval_seconds;
  default_policy_revision =
      if config.default_policy_revision == 0
      then default_policy_revision_number
      else config.default_policy_revision;
  default_assigned_config = normalize_assigned_config lower config.default_assigned_config;
  join_bundle = normalize_join_bundle config.join_bundle;
  available_actions = or_list (normalize_string_list lower config.available_actions) (
      codes "reconnect_overlay"
      ∷ codes "resync"
      ∷ codes "remount"
      ∷ codes "collect_diagnostics"
      ∷ []);
  diagnostics_keep_latest =
      if non_positive config.diagnostics_keep_latest
      then pos 20
      else config.diagnostics_keep_latest;
}

-- assignedConfigFromPolicyRecord
unfoldable pub assigned_config_from_policy_record : DevicePolicyRecord → AssignedConfig
assigned_config_from_policy_record p = record {
  mount_path = p.mount_path;
  sync_roots = p.sync_roots;
  conflict_policy = p.conflict_policy;
  read_only = p.read_only;
  auto_connect = p.auto_connect;
  bandwidth_limit = p.bandwidth_limit;
  log_level = p.log_level;
  large_file_threshold = p.large_file_threshold;
}

-- assignedConfigFromProto: a message has the fields of the configuration.
unfoldable pub assigned_config_from_proto : (Bytes → Bytes) → AssignedConfig → AssignedConfig
unfolding trim_space normalize_string_list
assigned_config_from_proto lower policy = record policy {
  mount_path = trim_space policy.mount_path;
  sync_roots = normalize_string_list lower policy.sync_roots;
  conflict_policy = trim_space policy.conflict_policy;
  log_level = trim_space policy.log_level;
}
