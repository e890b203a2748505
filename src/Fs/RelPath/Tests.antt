-- ===== src/Fs/RelPath/Tests.antt =====
-- NormalizeRelativePath at concrete paths.
use roodox_sever_win.Base.{◌≡◌, refl, Bytes, codes, bytes_eq, if◌then◌else◌, [], ◌∷◌}
use roodox_sever_win.Errors.{ok, err, os_invalid}
use roodox_sever_win.Fs.RelPath.{
  slash, dot, normalize_relative_path, clean, check_clean, is_rooted, split,
}
use roodox_sever_win.Fs.RelPath.Inside.{IsInside, normalize-IsInside, normalize_idem}
use roodox_sever_win.Fs.RelPath.Climbs.{climbs, normalize_relative_path_lem}

abbrev messy : Bytes
messy = codes "a/./b//../c/"

abbrev tidy : Bytes
tidy = codes "a/c"

abbrev outside : Bytes
outside = codes "a/../../c"

normalize_escape : normalize_relative_path outside ≡ err os_invalid
unfolding normalize_relative_path clean check_clean bytes_eq
normalize_escape = refl

normalize-IsInside_example : IsInside tidy
unfolding normalize_relative_path clean check_clean bytes_eq
normalize-IsInside_example = normalize-IsInside messy tidy refl

normalize_idem_example : normalize_relative_path tidy ≡ ok tidy
unfolding normalize_relative_path clean check_clean bytes_eq
normalize_idem_example = normalize_idem messy tidy refl

normalize_relative_path_lem_example : normalize_relative_path outside ≡ (
    if is_rooted outside
    then if bytes_eq outside (slash ∷ []) then ok dot else err os_invalid
    else if climbs 0 (split outside)
    then err os_invalid
    else ok (clean outside))
normalize_relative_path_lem_example = normalize_relative_path_lem outside
