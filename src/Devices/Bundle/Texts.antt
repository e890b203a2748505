-- ===== src/Devices/Bundle/Texts.antt =====
-- Normalize once and twice, and the text that MarshalJSONFile makes of a bundle.
use roodox_sever_win.Base.{
  ℕ, ◌≡◌, refl, sym, ◌∙◌, ap, Bytes, Bool, [], ◌∷◌, Option, codes, arith, if◌then◌else◌,
}
use roodox_sever_win.Base.Space.Trims.{trim_space_idem}
use roodox_sever_win.Devices.Lists.{is_empty}
use roodox_sever_win.Devices.Bundle.{
  Bundle, normalize_slug, normalize_slug_with_default, non_zero_uint32, check_normalized,
  unless_invalid, encoded, normalize_bundle, validate, marshal_json_file,
}
use roodox_sever_win.Devices.Bundle.Slugs.{
  IsSlug, KeepsSlugs, normalize_slug_idem, normalize_slug-IsSlug,
}

-- A text, or another one when it is empty.
abbrev or_else : Bytes → Bytes → Bytes
or_else s d = if is_empty s then d else s

or_else_idem : (s d : Bytes) → or_else (or_else s d) d ≡ or_else s d
or_else_idem [] d = ground arith
or_else_idem (x ∷ s) d = refl

or_else_same : (f : Bytes → Bytes) (s d : Bytes) → f s ≡ s → f d ≡ d → f (or_else s d) ≡ or_else s d
or_else_same f [] d h k = k
or_else_same f (x ∷ s) d h k = h

with_default_step :
    (lower : Bytes → Bytes) (value fallback : Bytes)
    → normalize_slug_with_default lower value fallback
      ≡ or_else (normalize_slug lower value) (normalize_slug lower fallback)
unfolding normalize_slug_with_default
with_default_step lower value fallback = refl

with_default_idem :
    (lower : Bytes → Bytes) (value fallback : Bytes)
    → KeepsSlugs lower
    → normalize_slug_with_default lower (normalize_slug_with_default lower value fallback) fallback
      ≡ normalize_slug_with_default lower value fallback
with_default_idem lower value fallback keeps =
    let v = normalize_slug lower value in
    let d = normalize_slug lower fallback in
    ap (λ s. normalize_slug_with_default lower s fallback) (with_default_step lower value fallback)
    ∙ with_default_step lower (or_else v d) fallback
    ∙ ap (λ s. or_else s d)
        (or_else_same (normalize_slug lower) v d (normalize_slug_idem lower value keeps)
          (normalize_slug_idem lower fallback keeps))
    ∙ or_else_idem v d
    ∙ sym (with_default_step lower value fallback)

non_zero_idem : (v d : ℕ) → non_zero_uint32 (non_zero_uint32 v d) d ≡ non_zero_uint32 v d
non_zero_idem v d = ground arith

normalize_bundle_idem :
    (lower : Bytes → Bytes) (b : Bundle)
    → KeepsSlugs lower
    → normalize_bundle lower (normalize_bundle lower b) ≡ normalize_bundle lower b
unfolding normalize_bundle
normalize_bundle_idem lower b keeps =
    rw
      (
        non_zero_idem b.version 1,
        normalize_slug_idem lower b.overlay.provider keeps,
        or_else_idem b.overlay.join_config (codes "{}"),
        with_default_idem lower b.service_discovery.mode (codes "static") keeps,
        trim_space_idem b.service_discovery.host,
        trim_space_idem b.service_discovery.tls_server_name,
        trim_space_idem b.roodox.server_id,
        trim_space_idem b.roodox.device_group,
        trim_space_idem b.roodox.shared_secret,
        trim_space_idem b.roodox.device_id,
        trim_space_idem b.roodox.device_name,
        trim_space_idem b.roodox.device_role,
      )
      refl

-- Normalizing a bundle first changes nothing: Validate and MarshalJSONFile answer as they do for
-- the bundle as it is. The provider of a normalized bundle has only lower-case letters, digits
-- and single dashes, and no dash at either end. The lower case of such a text is the text
-- itself.
pub marshal_json_file-normalize_bundle :
    (lower : Bytes → Bytes) (json_valid : Bytes → Bool) (marshal_indent : Bundle → Option Bytes)
    (b : Bundle)
    → KeepsSlugs lower
    → (validate lower json_valid (normalize_bundle lower b) ≡ validate lower json_valid b)
      × (marshal_json_file lower json_valid marshal_indent (normalize_bundle lower b)
          ≡ marshal_json_file lower json_valid marshal_indent b)
      × IsSlug (normalize_bundle lower b).overlay.provider
unfolding validate marshal_json_file normalize_bundle
marshal_json_file-normalize_bundle lower json_valid marshal_indent b keeps =
    let same = normalize_bundle_idem lower b keeps in
    (
      ap (check_normalized json_valid) same,
      ap (λ n. unless_invalid (validate lower json_valid n) (encoded (marshal_indent n))) same,
      normalize_slug-IsSlug lower b.overlay.provider,
    )
