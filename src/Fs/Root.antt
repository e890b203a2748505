-- ===== src/Fs/Root.antt =====
-- internal/fs/path.go: ResolvePath, IsWithinRoot and NormalizeProjectPath, with filepath.Join and
-- filepath.Rel of a Unix build. Roots are absolute, so filepath.Abs is filepath.Clean.
pub mod Resolve
pub mod Within
pub mod Requests
mod Tests
use mathlib.Core.List.{reverse}
use roodox_sever_win.Base.{
  ℕ, zero, suc, Bool, true, false, not, List, [], ◌∷◌, ◌++◌, Bytes, bytes_eq, if◌then◌else◌, length,
}
use roodox_sever_win.Errors.{Result, Err, ok, err, os_invalid, ◌>>=◌}
use roodox_sever_win.Fs.RelPath.{
  slash, dot, join, cleaned, parts_of, replicate_up, clean, escapes, normalize_relative_path,
  render,
}

-- The segments of an absolute path.
unfoldable pub abs_segments : Bytes → List Bytes
abs_segments p = parts_of (cleaned true p)

-- filepath.Join of two paths that are not empty.
abbrev pub join_paths : Bytes → Bytes → Bytes
join_paths a b = clean (a ++ (slash ∷ b))

-- What is left of the base and of the target behind their common segments.
unfoldable pub strip_common : List Bytes → List Bytes → List Bytes × List Bytes
strip_common (x ∷ xs) (y ∷ ys) =
    let rest = strip_common xs ys in if bytes_eq x y then rest else (x ∷ xs, y ∷ ys)
strip_common xs ys = (xs, ys)

-- filepath.Rel of two absolute paths: up from the base, then down to the target.
unfoldable pub rel_path : Bytes → Bytes → Bytes
unfolding strip_common
rel_path base targ =
    let (b, t) = strip_common (abs_segments base) (abs_segments targ) in
    render false (replicate_up (length b) t)

unfoldable pub is_within_root : Bytes → Bytes → Bool
is_within_root root candidate =
    let rel = rel_path (clean root) (clean candidate) in
    if bytes_eq rel dot then true else not (escapes (clean rel))

-- ResolvePath, once the request is normalised.
unfoldable pub resolve_clean : Bytes → Bytes → Result Err Bytes
resolve_clean root_abs clean_rel =
    if bytes_eq clean_rel dot
    then ok root_abs
    else let full = clean (join_paths root_abs clean_rel) in
      if is_within_root root_abs full then ok full else err os_invalid

unfoldable pub resolve_path : Bytes → Bytes → Result Err Bytes
resolve_path root rel = do
  clean_rel ← normalize_relative_path rel
  resolve_clean (clean root) clean_rel

unfoldable pub normalize_project_path : Bytes → Bytes → Result Err Bytes
normalize_project_path root rel = do
  full ← resolve_path root rel
  normalize_relative_path (rel_path (clean root) full)
