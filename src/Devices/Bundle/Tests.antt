-- ===== src/Devices/Bundle/Tests.antt =====
-- A bundle whose provider is no slug, with the lower case of ASCII.
use roodox_sever_win.Base.{
  ◌≡◌, refl, inl, inr, Bytes, Bool, true, false, [], ◌∷◌, some, codes, arith, Bool-cases,
}
use roodox_sever_win.Fs.Ignore.{to_lower}
use roodox_sever_win.Devices.Bundle.{
  Bundle, is_slug_char, normalize_bundle, validate, marshal_json_file,
}
use roodox_sever_win.Devices.Bundle.Slugs.{IsSlug, KeepsSlugs, has_single_dashes}
use roodox_sever_win.Devices.Bundle.Texts.{marshal_json_file-normalize_bundle}

lower_slug : (last : Bool) (s : Bytes) → has_single_dashes last s ≡ true → to_lower s ≡ s
unfolding to_lower
lower_slug last [] h = refl
lower_slug last (b ∷ s) h = elim (Bool-cases (is_slug_char b)) [
  | inl e ↦ let rest = lower_slug false s (ground arith) in ground arith
  | inr e ↦ let rest = lower_slug true s (ground arith) in ground arith
]

to_lower-KeepsSlugs : KeepsSlugs to_lower
to_lower-KeepsSlugs s h = lower_slug true s h.0

abbrev bundle : Bundle
bundle = record {
  version = 0;
  overlay = record { provider = codes " Tail  Scale!"; join_config = [] };
  service_discovery = record {
    mode = [];
    host = codes "cp ";
    port = 50051;
    use_tls = true;
    tls_server_name = [];
  };
  roodox = record {
    server_id = codes "srv";
    device_group = codes "default";
    shared_secret = [];
    device_id = [];
    device_name = [];
    device_role = [];
  };
}

marshal_json_file-normalize_bundle_example :
    (validate to_lower (λ s. true) (normalize_bundle to_lower bundle)
      ≡ validate to_lower (λ s. true) bundle)
    × (marshal_json_file to_lower
          (λ s. true)
          (λ b. some b.overlay.provider)
          (normalize_bundle to_lower bundle)
        ≡ marshal_json_file to_lower (λ s. true) (λ b. some b.overlay.provider) bundle)
    × IsSlug (normalize_bundle to_lower bundle).overlay.provider
marshal_json_file-normalize_bundle_example =
    marshal_json_file-normalize_bundle to_lower (λ s. true) (λ b. some b.overlay.provider) bundle
      to_lower-KeepsSlugs
