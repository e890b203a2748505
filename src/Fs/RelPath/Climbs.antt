-- ===== src/Fs/RelPath/Climbs.antt =====
-- What NormalizeRelativePath rejects, by a walk over the segments as the client wrote them.
use roodox_sever_win.Base.{
  ℕ, zero, suc, ◌≡◌, ◌<◌, refl, ◌⊎◌, inl, inr, Bool, true, false, Bool-cases, List, [], ◌∷◌, ◌||◌,
  Bytes, bytes_eq, arith, length, if◌then◌else◌, Option, none, some, ◌==◌, ◌-◌, ◌+◌, ◌≤◌,
  Option-cases,
}
use roodox_sever_win.Errors.{ok, err, os_invalid}
use mathlib.Core.Path.{subst, subst₂}
use roodox_sever_win.Fs.RelPath.Segments.{IsSegment, All, All-reverse, split-NoSlash}
use roodox_sever_win.Fs.RelPath.{
  slash, dot, dotdot, split, Cleaned, clean_step, clean_loop, clean, check_clean, is_rooted,
  replicate_up, render, cleaned, normalize_relative_path,
}
use roodox_sever_win.Fs.RelPath.Inside.{
  escapes_lem, check_clean_inside, clean_loop-comps, render-IsInside,
}

-- The depth below the root after one segment; nothing if the segment leaves the root.
next_depth : ℕ → Bytes → Option ℕ
next_depth depth x =
    if bytes_eq x [] || bytes_eq x dot
    then some depth
    else if bytes_eq x dotdot
    then (if depth == 0 then none else some (depth - 1))
    else some (depth + 1)

-- Some `..` of the walk steps above the root.
pub climbs : ℕ → List Bytes → Bool
climbs depth [] = false
climbs depth (x ∷ xs) = elim (next_depth depth x) [ none ↦ true | some d ↦ climbs d xs ]

abbrev StepsTo : Cleaned → Cleaned → Option ℕ → Type 0
StepsTo s t none = t.ups ≡ suc s.ups
StepsTo s t (some d) = (t.ups ≡ s.ups) × (length t.comps ≡ d)

step_depth :
    (s : Cleaned) (x : Bytes) → StepsTo s (clean_step false s x) (next_depth (length s.comps) x)
unfolding clean_step next_depth
step_depth s x = ground arith

pub ups_mono : (s : Cleaned) (xs : List Bytes) → s.ups ≤ (clean_loop false s xs).ups
unfolding clean_loop
ups_mono s [] = omega arith
ups_mono s (x ∷ xs) = elim (Option-cases (next_depth (length s.comps) x)) [
  | inl e ↦ (let k = rw e at (step_depth s x) in omega (arith, ups_mono (clean_step false s x) xs))
  | inr (d, e) ↦
      (let k = rw e at (step_depth s x) in omega (arith, ups_mono (clean_step false s x) xs))
]

transfer :
    {d d' u u' : ℕ} (xs : List Bytes) (r : ℕ)
    → d' ≡ d
    → u' ≡ u
    → (if climbs d' xs then u' < r else (r ≡ u'))
    → if climbs d xs then u < r else (r ≡ u)
transfer xs r = subst₂ (λ d u. if climbs d xs then u < r else (r ≡ u))

climbs_ups :
    (s : Cleaned) (xs : List Bytes)
    → if climbs (length s.comps) xs
      then s.ups < (clean_loop false s xs).ups
      else ((clean_loop false s xs).ups ≡ s.ups)
unfolding clean_loop climbs
climbs_ups s [] = refl
climbs_ups s (x ∷ xs) = elim (Option-cases (next_depth (length s.comps) x)) [
  | inl e ↦
      (let k = rw e at (step_depth s x) in
        rw (e, climbs) (omega (arith, ups_mono (clean_step false s x) xs)))
  | inr (d, e) ↦
      (let k = rw e at (step_depth s x) in
        rw (e, climbs) (transfer xs _ k.1 k.0 (climbs_ups (clean_step false s x) xs)))
]

check_clean_ups :
    (n : ℕ) (xs : List Bytes)
    → 0 < n
    → check_clean (render false (replicate_up n xs)) ≡ err os_invalid
unfolding check_clean replicate_up render
check_clean_ups zero xs h = elim h [ ]
check_clean_ups (suc k) xs h = ground (arith, escapes_lem (replicate_up k xs))

abbrev start : Cleaned
start = record { ups = 0; comps = [] }

check_relative :
    (rel : Bytes)
    → is_rooted rel ≡ false
    → check_clean (clean rel) ≡ (if climbs 0 (split rel) then err os_invalid else ok (clean rel))
unfolding clean
check_relative rel r = elim (Bool-cases (climbs 0 (split rel))) [
  | inl e ↦ rw (r, e) (check_clean_ups _ _ (outcome true e (climbs_ups start (split rel))))
  | inr e ↦
      rw (r, e, outcome false e (climbs_ups start (split rel)))
        (unfold replicate_up in
          check_clean_inside _ (render-IsInside _ (All-reverse IsSegment _ comps)))
]
  where
    comps : All IsSegment (cleaned false rel).comps
    comps = clean_loop-comps false start (split rel) tt (split-NoSlash rel)

    outcome :
        (b : Bool)
        → climbs 0 (split rel) ≡ b
        → (if climbs 0 (split rel)
            then 0 < (cleaned false rel).ups
            else ((cleaned false rel).ups ≡ 0))
        → if b then 0 < (cleaned false rel).ups else ((cleaned false rel).ups ≡ 0)
    outcome b e =
        subst (λ b. if b then 0 < (cleaned false rel).ups else ((cleaned false rel).ups ≡ 0)) e

check_rooted : (rel : Bytes) → is_rooted rel ≡ true → check_clean (clean rel) ≡ err os_invalid
unfolding clean check_clean render
check_rooted rel r = rw r

abbrev is_special : Bytes → Bool
is_special rel = bytes_eq rel [] || (bytes_eq rel dot || bytes_eq rel (slash ∷ []))

special_rooted : (rel : Bytes) → is_rooted rel ≡ true → is_special rel ≡ bytes_eq rel (slash ∷ [])
unfolding is_rooted bytes_eq
special_rooted [] r = cc
special_rooted (c ∷ s) r = ground arith

special_relative :
    (rel : Bytes) → is_rooted rel ≡ false → is_special rel ≡ true → (rel ≡ []) ⊎ (rel ≡ dot)
unfolding is_rooted bytes_eq
special_relative [] r e = inl refl
special_relative (c ∷ []) r e = inr (ground arith)
special_relative (c ∷ d ∷ s) r e = ground arith

-- NormalizeRelativePath on every input: the path / is the root, any other path that begins with
-- / is rejected as invalid, and a path that does not is rejected exactly when some .. of it
-- steps above the root, even if later segments come back; otherwise its cleaned form is
-- returned.
pub normalize_relative_path_lem :
    (rel : Bytes)
    → normalize_relative_path rel ≡ (
        if is_rooted rel
        then if bytes_eq rel (slash ∷ []) then ok dot else err os_invalid
        else if climbs 0 (split rel)
        then err os_invalid
        else ok (clean rel))
unfolding normalize_relative_path next_depth
normalize_relative_path_lem rel = elim (Bool-cases (is_rooted rel)) [
  | inl r ↦ rw (r, check_rooted rel r) (ground (arith, special_rooted rel r))
  | inr r ↦
      rw (r, check_relative rel r)
        (elim (Bool-cases (is_special rel)) [
          | inl e ↦ elim (special_relative rel r e) [
            | inl p ↦ rw p (unfold split climbs clean bytes_eq is_rooted in refl)
            | inr p ↦ rw p (unfold split climbs clean bytes_eq is_rooted in refl)
          ]
          | inr e ↦ rw e
        ])
]
