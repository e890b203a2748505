-- ===== src/Fs/Root/Within.antt =====
-- IsWithinRoot is the prefix relation on segments.
use mathlib.Core.List.{append-nil}
use mathlib.Core.Path.{subst}
use roodox_sever_win.Base.{
  ℕ, ◌≤◌, zero, suc, ◌≡◌, refl, ap, sym, ◌∙◌, inl, inr, ◌↔◌, Bool, true, false, Bool-cases, not,
  List, [], ◌∷◌, ◌++◌, Bytes, bytes_eq, bytes_eq_iff, bytes_eq_refl, arith, length, if◌then◌else◌,
}
use roodox_sever_win.Fs.RelPath.{
  dot, dotdot, split, join, is_rooted, clean_step, clean_loop, replicate_up, clean, escapes, render,
  go_up,
}
use roodox_sever_win.Fs.RelPath.Segments.{IsSegment, All, All-append_back}
use roodox_sever_win.Fs.RelPath.Inside.{
  render-IsInside, escapes_lem, clean_segments, escapes_segments,
}
use roodox_sever_win.Fs.RelPath.Climbs.{ups_mono}
use roodox_sever_win.Fs.Root.Resolve.{abs_segments-clean, abs_segments-IsSegment}
use roodox_sever_win.Fs.Root.{abs_segments, strip_common, rel_path, is_within_root}

-- What strip_common leaves: the two lists have a common front, and it is the longest.
pub record IsStripped (xs ys bs ts : List Bytes) : Type 0 where
  pub front : List Bytes
  pub base_eq : xs ≡ front ++ bs
  pub targ_eq : ys ≡ front ++ ts

strip_common-IsStripped :
    (xs ys : List Bytes) → IsStripped xs ys (strip_common xs ys).0 (strip_common xs ys).1
unfolding strip_common
strip_common-IsStripped [] ys = record { front = []; base_eq = refl; targ_eq = refl }
strip_common-IsStripped (x ∷ xs) [] = record { front = []; base_eq = refl; targ_eq = refl }
strip_common-IsStripped (x ∷ xs) (y ∷ ys) = elim (Bool-cases (bytes_eq x y)) [
  | inl e ↦
      (let r = strip_common-IsStripped xs ys in
        rw e (record {
          front = x ∷ r.front;
          base_eq = ap (◌∷◌ x) r.base_eq;
          targ_eq = cc ((bytes_eq_iff x y).0 e, r.targ_eq);
        }))
  | inr e ↦ rw e (record { front = []; base_eq = refl; targ_eq = refl })
]

pub strip_common-append : (xs ys : List Bytes) → strip_common xs (xs ++ ys) ≡ ([], ys)
unfolding strip_common
strip_common-append [] [] = refl
strip_common-append [] (y ∷ ys) = refl
strip_common-append (x ∷ xs) ys = rw (bytes_eq_refl x) (strip_common-append xs ys)

-- The test of IsWithinRoot on the relative path.
abbrev stays : Bytes → Bool
stays rel = if bytes_eq rel dot then true else not (escapes (clean rel))

stays_down : (ts : List Bytes) → All IsSegment ts → stays (render false ts) ≡ true
stays_down ts h = elim (render-IsInside ts h) [
  | inl e ↦ rw e (unfold bytes_eq in refl)
  | inr k ↦
      rw (clean_segments (render false ts) k, escapes_segments (render false ts) k) (ground arith)
]

parts_escape :
    (ups : ℕ) (xs : List Bytes) → 1 ≤ ups → escapes (render false (replicate_up ups xs)) ≡ true
unfolding replicate_up render
parts_escape zero xs h = absurd (omega (arith, h))
parts_escape (suc k) xs h = escapes_lem (replicate_up k xs)

clean_up :
    (rel : Bytes) (xs : List Bytes)
    → split rel ≡ dotdot ∷ xs
    → is_rooted rel ≡ false
    → escapes (clean rel) ≡ true
unfolding clean clean_loop clean_step bytes_eq go_up
clean_up rel xs e r = rw (r, e) (parts_escape _ _ (ups_mono (record { ups = 1; comps = [] }) xs))

join_up : (xs : List Bytes) → (ys : List Bytes) × (split (join (dotdot ∷ xs)) ≡ dotdot ∷ ys)
unfolding join split
join_up [] = ([], refl)
join_up (x ∷ xs) = (split (join (x ∷ xs)), refl)

up_not_rooted : (xs : List Bytes) → is_rooted (join (dotdot ∷ xs)) ≡ false
unfolding join is_rooted
up_not_rooted [] = refl
up_not_rooted (x ∷ xs) = refl

up_not_dot : (xs : List Bytes) → bytes_eq (join (dotdot ∷ xs)) dot ≡ false
unfolding join bytes_eq
up_not_dot [] = refl
up_not_dot (x ∷ xs) = refl

stays_up : (xs : List Bytes) → stays (render false (dotdot ∷ xs)) ≡ false
unfolding render
stays_up xs =
    let (ys, e) = join_up xs in
    rw (up_not_dot xs, clean_up (join (dotdot ∷ xs)) ys e (up_not_rooted xs)) refl

-- The relative path stays below the base exactly when nothing of the base is left.
stays_parts :
    (bs ts : List Bytes)
    → All IsSegment ts
    → (stays (render false (replicate_up (length bs) ts)) ≡ true) ↔ (bs ≡ [])
unfolding replicate_up
stays_parts [] ts h = (λ _. refl, λ _. stays_down ts h)
stays_parts (b ∷ bs) ts h =
    (λ e. absurd (cc (stays_up (replicate_up (length bs) ts), e)), λ e. absurd (cc e))

-- The remainder of a segment list behind the root's.
abbrev pub IsBelow : List Bytes → List Bytes → Type 0
IsBelow root candidate = (below : List Bytes) × (candidate ≡ root ++ below)

strip_common_iff : (xs ys : List Bytes) → ((strip_common xs ys).0 ≡ []) ↔ IsBelow xs ys
strip_common_iff xs ys = (
  λ e.
      (let r = strip_common-IsStripped xs ys in
        (
          (strip_common xs ys).1,
          r.targ_eq
              ∙ ap (λ f. f ++ (strip_common xs ys).1)
                  (sym (append-nil r.front) ∙ sym (r.base_eq ∙ ap (λ b. r.front ++ b) e)),
        )),
  λ (zs, e). ap (λ s. (strip_common xs s).0) e ∙ ap (λ s. s.0) (strip_common-append xs zs),
)

is_within_root_lem :
    (root candidate : Bytes)
    → is_rooted root ≡ true
    → is_rooted candidate ≡ true
    → let s = strip_common (abs_segments root) (abs_segments candidate) in
      is_within_root root candidate ≡ stays (render false (replicate_up (length s.0) s.1))
unfolding is_within_root rel_path
is_within_root_lem root candidate h k =
    rw (abs_segments-clean root h, abs_segments-clean candidate k) refl

-- For absolute paths, IsWithinRoot holds exactly when the segments of the candidate are those of
-- the root, followed by any others.
pub is_within_root_iff :
    (root candidate : Bytes)
    → is_rooted root ≡ true
    → is_rooted candidate ≡ true
    → (is_within_root root candidate ≡ true) ↔ IsBelow (abs_segments root) (abs_segments candidate)
is_within_root_iff root candidate h k =
    let xs = abs_segments root in
    let ys = abs_segments candidate in
    let p = stays_parts (strip_common xs ys).0 (strip_common xs ys).1 (
      All-append_back IsSegment (strip_common-IsStripped xs ys).front _ (
        subst (All IsSegment) (strip_common-IsStripped xs ys).targ_eq
          (abs_segments-IsSegment candidate))) in
    rw (is_within_root_lem root candidate h k)
      (λ e. (strip_common_iff xs ys).0 (p.0 e), λ b. p.1 ((strip_common_iff xs ys).1 b))
