-- ===== src/Fs/RelPath.antt =====
-- internal/fs/path.go, over path/filepath of a Unix build: the separator is `/`, there are no
-- volume names, and ToSlash and FromSlash change nothing. Roots are absolute, as NewFileSystem
-- makes them, so filepath.Abs is filepath.Clean.
pub mod Segments
pub mod Inside
pub mod Climbs
mod Tests
use mathlib.Core.List.{reverse}
use roodox_sever_win.Base.{
  ℕ, zero, suc, Bool, true, false, ◌||◌, List, [], ◌∷◌, ◌++◌, Bytes, bytes_eq, codes, ◌==◌,
  if◌then◌else◌,
}
use roodox_sever_win.Errors.{Result, ok, err, Err, os_invalid, ◌>>=◌}

abbrev pub slash : ℕ
slash = b'/'

abbrev pub dot : Bytes
dot = b'.' ∷ []

abbrev pub dotdot : Bytes
dotdot = b'.' ∷ b'.' ∷ []

abbrev pub cons_head : ℕ → List Bytes → List Bytes
cons_head c [] = (c ∷ []) ∷ []
cons_head c (x ∷ xs) = (c ∷ x) ∷ xs

-- The segments between separators; there is one more of them than separators.
unfoldable pub split : Bytes → List Bytes
split [] = [] ∷ []
split (c ∷ s) = let rest = split s in if c == slash then [] ∷ rest else cons_head c rest

unfoldable pub join : List Bytes → Bytes
join [] = []
join (x ∷ []) = x
join (x ∷ y ∷ r) = x ++ (slash ∷ join (y ∷ r))

unfoldable pub is_rooted : Bytes → Bool
is_rooted [] = false
is_rooted (c ∷ s) = c == slash

-- What filepath.Clean has written so far: the `..` that nothing cancels, and the segments after
-- them, last first.
pub record Cleaned : Type 0 where
  pub ups : ℕ
  pub comps : List Bytes

-- One `..`: it cancels the last segment, or is kept unless the path is rooted.
unfoldable pub go_up : Bool → ℕ → List Bytes → Cleaned
go_up rooted ups (x ∷ xs) = record { ups = ups; comps = xs }
go_up true ups [] = record { ups = ups; comps = [] }
go_up false ups [] = record { ups = suc ups; comps = [] }

unfoldable pub clean_step : Bool → Cleaned → Bytes → Cleaned
unfolding go_up
clean_step rooted s x =
    if bytes_eq x [] || bytes_eq x dot
    then s
    else if bytes_eq x dotdot
    then go_up rooted s.ups s.comps
    else record s { comps = x ∷ s.comps }

unfoldable pub clean_loop : Bool → Cleaned → List Bytes → Cleaned
clean_loop rooted s [] = s
clean_loop rooted s (x ∷ xs) = clean_loop rooted (clean_step rooted s x) xs

unfoldable pub replicate_up : ℕ → List Bytes → List Bytes
replicate_up zero xs = xs
replicate_up (suc n) xs = dotdot ∷ replicate_up n xs

abbrev pub cleaned : Bool → Bytes → Cleaned
cleaned rooted p = clean_loop rooted (record { ups = 0; comps = [] }) (split p)

abbrev pub parts_of : Cleaned → List Bytes
parts_of s = replicate_up s.ups (reverse s.comps)

unfoldable pub render : Bool → List Bytes → Bytes
render true xs = slash ∷ join xs
render false [] = dot
render false (x ∷ xs) = join (x ∷ xs)

-- filepath.Clean: of the empty path it is `.`, as of `.` itself.
unfoldable pub clean : Bytes → Bytes
unfolding render replicate_up clean_loop clean_step split join
clean p = render (is_rooted p) (parts_of (cleaned (is_rooted p) p))

unfoldable pub has_prefix : Bytes → Bytes → Bool
has_prefix s [] = true
has_prefix [] (p ∷ ps) = false
has_prefix (c ∷ s) (p ∷ ps) = if c == p then has_prefix s ps else false

-- The path is `..` or begins with `../`.
unfoldable pub escapes : Bytes → Bool
unfolding has_prefix
escapes rel = bytes_eq rel dotdot || has_prefix rel (dotdot ++ (slash ∷ []))

-- The checks of NormalizeRelativePath on the cleaned path.
unfoldable pub check_clean : Bytes → Result Err Bytes
unfolding is_rooted escapes
check_clean clean_rel =
    if is_rooted clean_rel
    then err os_invalid
    else if escapes clean_rel
    then err os_invalid
    else if bytes_eq clean_rel dot
    then ok dot
    else ok clean_rel

-- NormalizeRelativePath
unfoldable pub normalize_relative_path : Bytes → Result Err Bytes
normalize_relative_path rel =
    if bytes_eq rel [] || (bytes_eq rel dot || bytes_eq rel (slash ∷ []))
    then ok dot
    else check_clean (clean rel)
