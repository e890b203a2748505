-- ===== src/Fs/Root/Requests.antt =====
-- What ResolvePath and NormalizeProjectPath make of a request: they never reject what
-- NormalizeRelativePath accepts.
use mathlib.Core.List.{append-nil}
use roodox_sever_win.Base.{
  ◌≡◌, refl, ap, sym, ◌∙◌, inl, inr, true, false, List, [], ◌++◌, Bytes, bytes_eq, bytes_eq_iff,
  arith, if◌then◌else◌, Bool-cases,
}
use roodox_sever_win.Errors.{Result, Err, ok, err, ◌>>=◌}
use roodox_sever_win.Fs.RelPath.{
  dot, split, join, replicate_up, is_rooted, clean, normalize_relative_path, render,
}
use roodox_sever_win.Fs.RelPath.Segments.{IsSegment, All, All-append, join-split, split-cons}
use roodox_sever_win.Fs.RelPath.Inside.{IsInside, normalize-IsInside, normalize_idem, not_dot}
use roodox_sever_win.Fs.Root.{
  abs_segments, join_paths, rel_path, is_within_root, resolve_path, resolve_clean,
  normalize_project_path,
}
use roodox_sever_win.Fs.Root.Resolve.{
  abs_path, abs_segments-IsSegment, clean_rooted, abs_segments-clean, abs_segments-abs_path,
  clean-join_paths, is_rooted-abs_path,
}
use roodox_sever_win.Fs.Root.Within.{is_within_root_iff, strip_common-append}

-- The segments that a normalised request names below the root.
abbrev pub below : Bytes → List Bytes
below q = if bytes_eq q dot then [] else split q

below_segments : (q : Bytes) → IsInside q → All IsSegment (below q)
below_segments q (inl e) = rw e (unfold bytes_eq in tt)
below_segments q (inr h) = elim (Bool-cases (bytes_eq q dot)) [ inl e ↦ rw e tt | inr e ↦ rw e h ]

render-below : (q : Bytes) → IsInside q → render false (below q) ≡ q
unfolding render
render-below q (inl e) = rw e (unfold bytes_eq in refl)
render-below q (inr h) = elim (Bool-cases (bytes_eq q dot)) [
  | inl e ↦ absurd (not_dot q h ((bytes_eq_iff q dot).0 e))
  | inr e ↦ (let (x, xs, c) = split-cons q in rw (e, c) (ap join (sym c) ∙ join-split q))
]

full_path :
    (root q : Bytes)
    → is_rooted root ≡ true
    → All IsSegment (split q)
    → clean (join_paths (clean root) q) ≡ abs_path (abs_segments root ++ split q)
full_path root q h k =
    ap (λ r. clean (join_paths r q)) (clean_rooted root h)
    ∙ clean-join_paths (abs_segments root) q (abs_segments-IsSegment root) k

abs_segments-full :
    (root : Bytes) (xs : List Bytes)
    → All IsSegment xs
    → abs_segments (abs_path (abs_segments root ++ xs)) ≡ abs_segments root ++ xs
abs_segments-full root xs k =
    abs_segments-abs_path _
      (All-append IsSegment (abs_segments root) xs (abs_segments-IsSegment root) k)

full_is_within :
    (root : Bytes) (xs : List Bytes)
    → is_rooted root ≡ true
    → All IsSegment xs
    → is_within_root (clean root) (abs_path (abs_segments root ++ xs)) ≡ true
full_is_within root xs h k =
    (is_within_root_iff (clean root) (abs_path (abs_segments root ++ xs))
        (ap is_rooted (clean_rooted root h) ∙ is_rooted-abs_path (abs_segments root))
        (is_rooted-abs_path (abs_segments root ++ xs))).1
      (xs, abs_segments-full root xs k ∙ ap (λ r. r ++ xs) (sym (abs_segments-clean root h)))

resolve_clean_lem :
    (root q : Bytes)
    → is_rooted root ≡ true
    → IsInside q
    → resolve_clean (clean root) q ≡ ok (abs_path (abs_segments root ++ below q))
unfolding resolve_clean
resolve_clean_lem root q h (inl e) = rw e (
    unfold bytes_eq in
    ap ok (clean_rooted root h ∙ ap abs_path (sym (append-nil (abs_segments root)))))
resolve_clean_lem root q h (inr k) =
    let not_root : bytes_eq q dot ≡ false = ground (arith, bytes_eq_iff q dot, not_dot q k) in
    rw (not_root, full_path root q h k, full_is_within root (split q) h k) refl

-- For an absolute root, a request that NormalizeRelativePath accepts is resolved, to the path
-- whose segments are those of the root and then those of the normalised request.
pub resolve_path_lem :
    (root rel q : Bytes)
    → is_rooted root ≡ true
    → normalize_relative_path rel ≡ ok q
    → resolve_path root rel ≡ ok (abs_path (abs_segments root ++ below q))
unfolding resolve_path
resolve_path_lem root rel q h e =
    rw (e, ◌>>=◌) (resolve_clean_lem root q h (normalize-IsInside rel q e))

rel_path-below :
    (root q : Bytes)
    → is_rooted root ≡ true
    → IsInside q
    → rel_path (clean root) (abs_path (abs_segments root ++ below q)) ≡ q
unfolding rel_path replicate_up
rel_path-below root q h i =
    rw
      (
        abs_segments-clean root h,
        abs_segments-full root (below q) (below_segments q i),
        strip_common-append (abs_segments root) (below q),
      )
      (render-below q i)

-- For an absolute root, NormalizeProjectPath accepts, rejects and returns what
-- NormalizeRelativePath does.
pub normalize_project_path_lem :
    (root rel : Bytes)
    → is_rooted root ≡ true
    → normalize_project_path root rel ≡ normalize_relative_path rel
unfolding normalize_project_path
normalize_project_path_lem root rel h = go (normalize_relative_path rel) refl
  where
    go :
        (r : Result Err Bytes)
        → normalize_relative_path rel ≡ r
        → normalize_project_path root rel ≡ r
    go (ok q) e =
        rw (resolve_path_lem root rel q h e, ◌>>=◌)
          (rw (rel_path-below root q h (normalize-IsInside rel q e)) (normalize_idem rel q e))
    go (err x) e = unfold resolve_path in rw (e, ◌>>=◌) refl
