-- ===== src/Devices/Bundle.antt =====
-- Access bundles: internal/accessbundle/bundle.go. strings.ToLower, json.Valid and json.MarshalIndent
-- are parameters. A rune that is no ASCII letter or digit becomes a dash, and so does each byte of it
-- here: adjacent dashes are one.
pub mod Slugs
pub mod Texts
mod Tests
use roodox_sever_win.Base.{
  ℕ, Bool, true, false, Bytes, bytes_eq, [], ◌∷◌, Option, none, some, codes, ◌==◌, leb, ◌&&◌, ◌||◌,
  not, if◌then◌else◌,
}
use roodox_sever_win.Base.Space.{trim_space}
use roodox_sever_win.Errors.{Result, ok, err}
use roodox_sever_win.Devices.Lists.{is_empty}

pub record Overlay : Type 0 where
  pub provider : Bytes
  pub join_config : Bytes

pub record ServiceDiscovery : Type 0 where
  pub mode : Bytes
  pub host : Bytes
  pub port : ℕ
  pub use_tls : Bool
  pub tls_server_name : Bytes

pub record Roodox : Type 0 where
  pub server_id : Bytes
  pub device_group : Bytes
  pub shared_secret : Bytes
  pub device_id : Bytes
  pub device_name : Bytes
  pub device_role : Bytes

pub record Bundle : Type 0 where
  pub version : ℕ
  pub overlay : Overlay
  pub service_discovery : ServiceDiscovery
  pub roodox : Roodox

-- The errors of Validate, in the order of its tests, and that of json.MarshalIndent.
pub data BundleError : Type 0 where
  provider_required invalid_join_config mode_required host_required port_required server_id_required
        device_group_required not_encoded :
      BundleError

abbrev pub dash : ℕ
dash = 45

-- r >= 'a' && r <= 'z', or r >= '0' && r <= '9'
abbrev pub is_slug_char : ℕ → Bool
is_slug_char b = (leb 97 b && leb b 122) || (leb 48 b && leb b 57)

-- The loop of normalizeSlug, with lastDash.
unfoldable pub slug_from : Bool → Bytes → Bytes
slug_from last_dash [] = []
slug_from last_dash (b ∷ s) =
    let kept = slug_from false s in
    let dashed = slug_from true s in
    if is_slug_char b then b ∷ kept else if last_dash then dashed else dash ∷ dashed

unfoldable pub trim_dashes_left : Bytes → Bytes
trim_dashes_left [] = []
trim_dashes_left (b ∷ s) = let rest = trim_dashes_left s in if b == dash then rest else b ∷ s

abbrev pub cons_unless_last_dash : ℕ → Bytes → Bytes
cons_unless_last_dash b [] = if b == dash then [] else b ∷ []
cons_unless_last_dash b (x ∷ s) = b ∷ x ∷ s

unfoldable pub trim_dashes_right : Bytes → Bytes
trim_dashes_right [] = []
trim_dashes_right (b ∷ s) = cons_unless_last_dash b (trim_dashes_right s)

-- normalizeSlug
unfoldable pub normalize_slug : (Bytes → Bytes) → Bytes → Bytes
unfolding trim_space slug_from trim_dashes_left trim_dashes_right
normalize_slug lower value =
    if is_empty (lower (trim_space value))
    then []
    else trim_dashes_right (trim_dashes_left (slug_from false (lower (trim_space value))))

-- normalizeSlugWithDefault
unfoldable pub normalize_slug_with_default : (Bytes → Bytes) → Bytes → Bytes → Bytes
unfolding normalize_slug
normalize_slug_with_default lower value fallback =
    if is_empty (normalize_slug lower value)
    then normalize_slug lower fallback
    else normalize_slug lower value

abbrev pub non_zero_uint32 : ℕ → ℕ → ℕ
non_zero_uint32 value fallback = if value == 0 then fallback else value

-- Normalize
unfoldable pub normalize_bundle : (Bytes → Bytes) → Bundle → Bundle
unfolding trim_space normalize_slug normalize_slug_with_default
normalize_bundle lower b = record {
  version = non_zero_uint32 b.version 1;
  overlay = record {
    provider = normalize_slug lower b.overlay.provider;
    join_config = if is_empty b.overlay.join_config then codes "{}" else b.overlay.join_config;
  };
  service_discovery = record b.service_discovery {
    mode = normalize_slug_with_default lower b.service_discovery.mode (codes "static");
    host = trim_space b.service_discovery.host;
    tls_server_name = trim_space b.service_discovery.tls_server_name;
  };
  roodox = record {
    server_id = trim_space b.roodox.server_id;
    device_group = trim_space b.roodox.device_group;
    shared_secret = trim_space b.roodox.shared_secret;
    device_id = trim_space b.roodox.device_id;
    device_name = trim_space b.roodox.device_name;
    device_role = trim_space b.roodox.device_role;
  };
}

abbrev pub check_normalized : (Bytes → Bool) → Bundle → Option BundleError
unfolding bytes_eq
check_normalized json_valid b =
    if is_empty b.overlay.provider
    then some provider_required
    else if not (json_valid b.overlay.join_config)
    then some invalid_join_config
    else if is_empty b.service_discovery.mode
    then some mode_required
    else if bytes_eq b.service_discovery.mode (codes "static") && is_empty b.service_discovery.host
    then some host_required
    else if bytes_eq b.service_discovery.mode (codes "static") && b.service_discovery.port == 0
    then some port_required
    else if is_empty b.roodox.server_id
    then some server_id_required
    else if is_empty b.roodox.device_group
    then some device_group_required
    else none

-- Validate
unfoldable pub validate : (Bytes → Bytes) → (Bytes → Bool) → Bundle → Option BundleError
unfolding normalize_bundle bytes_eq
validate lower json_valid b = check_normalized json_valid (normalize_bundle lower b)

abbrev pub encoded : Option Bytes → Result BundleError Bytes
encoded none = err not_encoded
encoded (some text) = ok text

abbrev pub unless_invalid : Option BundleError → Result BundleError Bytes → Result BundleError Bytes
unless_invalid (some e) x = err e
unless_invalid none x = x

-- MarshalJSONFile. `marshal_indent` is json.MarshalIndent of the file form of a bundle.
unfoldable pub marshal_json_file :
    (Bytes → Bytes) → (Bytes → Bool) → (Bundle → Option Bytes) → Bundle → Result BundleError Bytes
unfolding normalize_bundle validate
marshal_json_file lower json_valid marshal_indent b =
    unless_invalid (validate lower json_valid (normalize_bundle lower b))
      (encoded (marshal_indent (normalize_bundle lower b)))
