-- ===== src/Fs/Ignore.antt =====
-- internal/fs/ignore.go: the names that scans leave out. Lower case is that of ASCII names.
use roodox_sever_win.Base.{
  ℕ, ◌+◌, Bool, true, ◌&&◌, ◌||◌, List, [], ◌∷◌, Bytes, bytes_eq, codes, leb, if◌then◌else◌,
}
use mathlib.Core.List.{reverse}
use roodox_sever_win.Fs.RelPath.{split, has_prefix}

-- The segments before the last one, and the last one.
unfoldable pub split_last : Bytes → List Bytes → List Bytes × Bytes
split_last x [] = ([], x)
split_last x (y ∷ ys) = let rest = split_last y ys in (x ∷ rest.0, rest.1)

abbrev last_of : Bytes → List Bytes → Bytes
last_of p [] = p
last_of p (x ∷ xs) = (split_last x xs).1

-- filepath.Base of a path in normal form.
unfoldable pub base_name : Bytes → Bytes
unfolding split_last split
base_name p = last_of p (split p)

has_suffix : Bytes → Bytes → Bool
has_suffix s p = has_prefix (reverse s) (reverse p)

unfoldable pub lower : ℕ → ℕ
lower c = if leb 65 c && leb c 90 then c + 32 else c

-- strings.ToLower
unfoldable pub to_lower : Bytes → Bytes
unfolding lower
to_lower [] = []
to_lower (c ∷ s) = lower c ∷ to_lower s

-- strings.Contains
unfoldable pub contains : Bytes → Bytes → Bool
contains [] sub = has_prefix [] sub
contains (c ∷ s) sub = let rest = contains s sub in if has_prefix (c ∷ s) sub then true else rest

unfoldable pub should_ignore : Bytes → Bool
unfolding has_suffix has_prefix base_name
should_ignore path =
    let base = base_name path in
    if bytes_eq base (codes ".git")
      || (bytes_eq base (codes ".svn") || bytes_eq base (codes ".DS_Store"))
    then true
    else has_suffix base (codes "~")
      || (has_suffix base (codes ".tmp") || has_suffix base (codes ".swp"))

abbrev pub marker : Bytes
marker = codes ".roodox-conflict-"

unfoldable pub is_conflict_path : Bytes → Bool
unfolding base_name contains has_prefix to_lower
is_conflict_path path = contains (to_lower (base_name path)) marker

-- ShouldIgnoreInProjectScan
pub should_ignore_in_project_scan : Bytes → Bool
should_ignore_in_project_scan path = should_ignore path || is_conflict_path path
