-- ===== src/Fs/RelPath/Inside.antt =====
-- What NormalizeRelativePath accepts: paths that stay inside the root.
use mathlib.Core.List.{reverse, reverse_aux, reverse-reverse}
use roodox_sever_win.Base.{
  ℕ, zero, suc, ◌≡◌, ◌≢◌, refl, ap, sym, ◌∙◌, ◌⊎◌, inl, inr, ◌↔◌, Bool, true, false, Bool-cases,
  List, [], ◌∷◌, ◌++◌, Bytes, bytes_eq, bytes_eq_iff, arith, ◌==◌,
}
use roodox_sever_win.Errors.{ok}
use roodox_sever_win.Fs.RelPath.{
  slash, dot, dotdot, split, join, Cleaned, clean_step, clean_loop, clean, check_clean, escapes,
  is_rooted, replicate_up, render, parts_of, cleaned, has_prefix, normalize_relative_path,
}
use roodox_sever_win.Fs.RelPath.Segments.{
  NoSlash, IsSegment, All, All-reverse, split-NoSlash, split-join, join-split, clean_step-comps,
  split-cons,
}

-- The path names the root itself, or something below it by plain segments only.
abbrev pub IsInside : Bytes → Type 0
IsInside q = (q ≡ dot) ⊎ All IsSegment (split q)

pub clean_loop-comps :
    (rooted : Bool) (s : Cleaned) (xs : List Bytes)
    → All IsSegment s.comps
    → All NoSlash xs
    → All IsSegment (clean_loop rooted s xs).comps
unfolding clean_loop
clean_loop-comps rooted s [] h n = h
clean_loop-comps rooted s (x ∷ xs) h n =
    clean_loop-comps rooted (clean_step rooted s x) xs (clean_step-comps rooted s x h n.0) n.1

pub All-NoSlash : (xs : List Bytes) → All IsSegment xs → All NoSlash xs
All-NoSlash [] h = tt
All-NoSlash (x ∷ xs) h = (h.0.0, All-NoSlash xs h.1)

-- Joined segments split back, so they stay inside.
pub render-IsInside : (xs : List Bytes) → All IsSegment xs → IsInside (render false xs)
unfolding render
render-IsInside [] h = inl refl
render-IsInside (x ∷ xs) h = inr (rw (split-join x xs (All-NoSlash (x ∷ xs) h)) h)

-- A `..` that nothing cancels is seen by the check.
pub escapes_lem : (xs : List Bytes) → escapes (join (dotdot ∷ xs)) ≡ true
unfolding escapes has_prefix join bytes_eq
escapes_lem [] = refl
escapes_lem (x ∷ xs) = refl

check_clean-IsInside :
    (ups : ℕ) (xs : List Bytes) (q : Bytes)
    → All IsSegment xs
    → check_clean (render false (replicate_up ups xs)) ≡ ok q
    → IsInside q
unfolding check_clean replicate_up
check_clean-IsInside zero xs q h e = ground (arith, render-IsInside xs h)
check_clean-IsInside (suc k) xs q h e =
    unfold render in ground (arith, escapes_lem (replicate_up k xs))

check_clean_rooted : (xs : List Bytes) (q : Bytes) → check_clean (render true xs) ≢ ok q
unfolding check_clean render
check_clean_rooted xs q e = cc

-- Whatever the client sends, an accepted path is the root itself or is made of plain segments
-- only: it has no empty segment, no . and no .., so it names nothing outside the root.
pub normalize-IsInside : (rel q : Bytes) → normalize_relative_path rel ≡ ok q → IsInside q
unfolding normalize_relative_path clean
normalize-IsInside rel q e = elim (Bool-cases (is_rooted rel)) [
  | inl r ↦ ground (arith, check_clean_rooted (parts_of (cleaned true rel)) q)
  | inr r ↦ ground (
    arith,
    check_clean-IsInside (cleaned false rel).ups (reverse (cleaned false rel).comps) q (
        All-reverse IsSegment _ (
          clean_loop-comps false (record { ups = 0; comps = [] }) (split rel) tt
            (split-NoSlash rel))),
  )
]

clean_step_segment :
    (s : Cleaned) (x : Bytes)
    → IsSegment x
    → clean_step false s x ≡ record { ups = s.ups; comps = x ∷ s.comps }
unfolding clean_step
clean_step_segment s x h =
    ground (arith, bytes_eq_iff x [], bytes_eq_iff x dot, bytes_eq_iff x dotdot)

clean_loop_segments :
    (s : Cleaned) (xs : List Bytes)
    → All IsSegment xs
    → clean_loop false s xs ≡ record { ups = s.ups; comps = reverse_aux xs s.comps }
unfolding clean_loop
clean_loop_segments s [] h = refl
clean_loop_segments s (x ∷ xs) h =
    rw (clean_step_segment s x h.0)
      (clean_loop_segments (record { ups = s.ups; comps = x ∷ s.comps }) xs h.1)

rooted_not_segments : (q : Bytes) → All IsSegment (split q) → is_rooted q ≡ false
unfolding is_rooted split
rooted_not_segments [] h = refl
rooted_not_segments (c ∷ s) h = elim (Bool-cases (c == slash)) [
  | inl e ↦ absurd (let k = rw e at h in k.0.1 refl)
  | inr e ↦ e
]

pub clean_segments : (q : Bytes) → All IsSegment (split q) → clean q ≡ q
unfolding clean
clean_segments q h =
    let (x, xs, e) = split-cons q in
    rw (rooted_not_segments q h, clean_loop_segments (record { ups = 0; comps = [] }) (split q) h)
      (unfold replicate_up in
        rw (reverse-reverse (split q)) (rw e (unfold render in ap join (sym e) ∙ join-split q)))

has_prefix_up :
    (q : Bytes)
    → has_prefix q (dotdot ++ (slash ∷ [])) ≡ true
    → (s : Bytes) × (q ≡ dotdot ++ (slash ∷ s))
unfolding has_prefix
has_prefix_up [] h = cc
has_prefix_up (a ∷ []) h = ground arith
has_prefix_up (a ∷ b ∷ []) h = ground arith
has_prefix_up (a ∷ b ∷ c ∷ s) h = (s, ground arith)

not_dotdot : (q : Bytes) → All IsSegment (split q) → q ≢ dotdot
unfolding split
not_dotdot q h e = (rw e at h).0.3 refl

not_climbing : (q s : Bytes) → All IsSegment (split q) → q ≢ dotdot ++ (slash ∷ s)
unfolding split
not_climbing q s h e = (rw e at h).0.3 refl

pub not_dot : (q : Bytes) → All IsSegment (split q) → q ≢ dot
unfolding split
not_dot q h e = (rw e at h).0.2 refl

pub escapes_segments : (q : Bytes) → All IsSegment (split q) → escapes q ≡ false
unfolding escapes
escapes_segments q h = elim (Bool-cases (has_prefix q (dotdot ++ (slash ∷ [])))) [
  | inl e ↦ (let (s, p) = has_prefix_up q e in absurd (not_climbing q s h p))
  | inr e ↦ ground (arith, bytes_eq_iff q dotdot, not_dotdot q h)
]

not_slash : (q : Bytes) → All IsSegment (split q) → q ≢ slash ∷ []
unfolding split
not_slash q h e = (rw e at h).0.1 refl

not_empty : (q : Bytes) → All IsSegment (split q) → q ≢ []
unfolding split
not_empty q h e = (rw e at h).0.1 refl

check_clean_segments : (q : Bytes) → All IsSegment (split q) → check_clean q ≡ ok q
unfolding check_clean
check_clean_segments q h =
    rw (rooted_not_segments q h, escapes_segments q h)
      (ground (arith, bytes_eq_iff q dot, not_dot q h))

pub check_clean_inside : (q : Bytes) → IsInside q → check_clean q ≡ ok q
check_clean_inside q (inl e) =
    rw e (unfold check_clean is_rooted escapes has_prefix bytes_eq in refl)
check_clean_inside q (inr h) = check_clean_segments q h

normalize_segments : (q : Bytes) → All IsSegment (split q) → normalize_relative_path q ≡ ok q
unfolding normalize_relative_path
normalize_segments q h =
    rw (clean_segments q h, check_clean_segments q h)
      (ground (
        arith,
        bytes_eq_iff q dot,
        not_dot q h,
        bytes_eq_iff q (slash ∷ []),
        bytes_eq_iff q [],
        not_slash q h,
        not_empty q h,
      ))

normalize_dot : normalize_relative_path dot ≡ ok dot
unfolding normalize_relative_path bytes_eq
normalize_dot = refl

-- The paths that NormalizeRelativePath returns unchanged are exactly those that stay inside the
-- root.
pub normalize_fixed_iff : (q : Bytes) → (normalize_relative_path q ≡ ok q) ↔ IsInside q
normalize_fixed_iff q = (normalize-IsInside q q, fixed)
  where
    fixed : IsInside q → normalize_relative_path q ≡ ok q
    fixed (inl e) = rw e normalize_dot
    fixed (inr h) = normalize_segments q h

-- An accepted path is in normal form: to normalise it again changes nothing.
pub normalize_idem :
    (rel q : Bytes) → normalize_relative_path rel ≡ ok q → normalize_relative_path q ≡ ok q
normalize_idem rel q e = (normalize_fixed_iff q).1 (normalize-IsInside rel q e)
