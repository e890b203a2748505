-- ===== src/Devices/Bundle/Slugs.antt =====
-- The names that normalizeSlug makes: lower-case letters, digits and single dashes between them.
use roodox_sever_win.Base.{
  ℕ, ◌≡◌, refl, ◌∙◌, ap, inl, inr, Bytes, Bool, true, false, [], ◌∷◌, arith, Bool-cases, not, ◌==◌,
  ◌&&◌, if◌then◌else◌,
}
use roodox_sever_win.Base.Space.{trim_space}
use roodox_sever_win.Base.Space.Trims.{Plain, trim_space-Plain}
use roodox_sever_win.Devices.Lists.{is_empty}
use roodox_sever_win.Devices.Bundle.{
  dash, is_slug_char, slug_from, trim_dashes_left, trim_dashes_right, cons_unless_last_dash,
  normalize_slug,
}

-- Letters, digits and dashes, of which none follows another, or `last` when that is set.
abbrev pub has_single_dashes : Bool → Bytes → Bool
has_single_dashes last [] = true
has_single_dashes last (b ∷ s) =
    if is_slug_char b
    then has_single_dashes false s
    else ((b == dash) && (not last && has_single_dashes true s))

abbrev pub ends_in_dash : Bytes → Bool
ends_in_dash [] = false
ends_in_dash (b ∷ []) = b == dash
ends_in_dash (b ∷ c ∷ s) = ends_in_dash (c ∷ s)

-- A dash neither begins nor ends it.
abbrev pub IsSlug : Bytes → Type 0
IsSlug s = (has_single_dashes true s ≡ true) × (ends_in_dash s ≡ false)

slug_from_single : (last : Bool) (s : Bytes) → has_single_dashes last (slug_from last s) ≡ true
unfolding slug_from
slug_from_single last [] = refl
slug_from_single last (b ∷ s) = ground (arith, slug_from_single false s, slug_from_single true s)

single_weaken : (s : Bytes) → has_single_dashes true s ≡ true → has_single_dashes false s ≡ true
single_weaken [] h = refl
single_weaken (b ∷ s) h = ground arith

trim_dashes_left_single :
    (last : Bool) (s : Bytes)
    → has_single_dashes last s ≡ true
    → has_single_dashes true (trim_dashes_left s) ≡ true
unfolding trim_dashes_left
trim_dashes_left_single last [] h = refl
trim_dashes_left_single last (b ∷ s) h =
    ground (arith, trim_dashes_left_single true s, trim_dashes_left_single false s)

cons_single :
    (last : Bool) (b : ℕ) (s t : Bytes)
    → (has_single_dashes false s ≡ true → has_single_dashes false t ≡ true)
    → (has_single_dashes true s ≡ true → has_single_dashes true t ≡ true)
    → has_single_dashes last (b ∷ s) ≡ true
    → has_single_dashes last (cons_unless_last_dash b t) ≡ true
cons_single last b s [] f g h = ground arith
cons_single last b s (x ∷ t) f g h = ground arith

trim_dashes_right_single :
    (last : Bool) (s : Bytes)
    → has_single_dashes last s ≡ true
    → has_single_dashes last (trim_dashes_right s) ≡ true
unfolding trim_dashes_right
trim_dashes_right_single last [] h = refl
trim_dashes_right_single last (b ∷ s) h =
    cons_single last b s (trim_dashes_right s) (trim_dashes_right_single false s)
      (trim_dashes_right_single true s) h

cons_ends :
    (b : ℕ) (t : Bytes) → ends_in_dash t ≡ false → ends_in_dash (cons_unless_last_dash b t) ≡ false
cons_ends b [] h = ground arith
cons_ends b (x ∷ t) h = h

trim_dashes_right_ends : (s : Bytes) → ends_in_dash (trim_dashes_right s) ≡ false
unfolding trim_dashes_right
trim_dashes_right_ends [] = refl
trim_dashes_right_ends (b ∷ s) = cons_ends b (trim_dashes_right s) (trim_dashes_right_ends s)

pub normalize_slug-IsSlug :
    (lower : Bytes → Bytes) (value : Bytes) → IsSlug (normalize_slug lower value)
unfolding normalize_slug
normalize_slug-IsSlug lower value = by_test (is_empty (lower (trim_space value)))
  where
    made : Bytes
    made = trim_dashes_left (slug_from false (lower (trim_space value)))

    by_test : (b : Bool) → IsSlug (if b then [] else trim_dashes_right made)
    by_test true = (refl, refl)
    by_test false = (
      trim_dashes_right_single true made (
          trim_dashes_left_single false (slug_from false (lower (trim_space value)))
            (slug_from_single false (lower (trim_space value)))),
      trim_dashes_right_ends made,
    )

-- A slug passes through every step as it is.
slug_from_same : (last : Bool) (s : Bytes) → has_single_dashes last s ≡ true → slug_from last s ≡ s
unfolding slug_from
slug_from_same last [] h = refl
slug_from_same last (b ∷ s) h = elim (Bool-cases (is_slug_char b)) [
  | inl e ↦ let rest = slug_from_same false s (ground arith) in rw e (ap (λ t. b ∷ t) rest)
  | inr e ↦
      let rest = slug_from_same true s (ground arith) in
      let same : dash ≡ b = ground arith in
      let first : last ≡ false = ground arith in
      rw (e, first) (ap (λ t. dash ∷ t) rest ∙ ap (λ c. c ∷ s) same)
]

trim_dashes_left_same : (s : Bytes) → has_single_dashes true s ≡ true → trim_dashes_left s ≡ s
unfolding trim_dashes_left
trim_dashes_left_same [] h = refl
trim_dashes_left_same (b ∷ s) h = ground arith

trim_dashes_right_same : (s : Bytes) → ends_in_dash s ≡ false → trim_dashes_right s ≡ s
unfolding trim_dashes_right
trim_dashes_right_same [] h = refl
trim_dashes_right_same (b ∷ []) h = ground arith
trim_dashes_right_same (b ∷ c ∷ s) h = rw (trim_dashes_right_same (c ∷ s) h) refl

slug-Plain : (last : Bool) (s : Bytes) → has_single_dashes last s ≡ true → Plain s
slug-Plain last [] h = tt
slug-Plain last (b ∷ s) h = elim (Bool-cases (is_slug_char b)) [
  | inl e ↦ (ground arith, slug-Plain false s (ground arith))
  | inr e ↦ (ground arith, slug-Plain true s (ground arith))
]

-- What is asked of strings.ToLower: a text of lower-case letters, digits and dashes stays as it is.
abbrev pub KeepsSlugs : (Bytes → Bytes) → Type 0
KeepsSlugs lower = (s : Bytes) → IsSlug s → lower s ≡ s

same_slug :
    (lower : Bytes → Bytes) (s : Bytes) → KeepsSlugs lower → IsSlug s → normalize_slug lower s ≡ s
unfolding normalize_slug
same_slug lower s keeps h =
    let lowered = ap lower (trim_space-Plain s (slug-Plain true s h.0)) ∙ keeps s h in
    ap (λ t. if is_empty t then [] else trim_dashes_right (trim_dashes_left (slug_from false t)))
      lowered
    ∙ by_shape s h
  where
    by_shape :
        (t : Bytes)
        → IsSlug t
        → (if is_empty t then [] else trim_dashes_right (trim_dashes_left (slug_from false t))) ≡ t
    by_shape [] g = refl
    by_shape (b ∷ t) g =
        ap (λ u. trim_dashes_right (trim_dashes_left u))
          (slug_from_same false (b ∷ t) (single_weaken (b ∷ t) g.0))
        ∙ ap trim_dashes_right (trim_dashes_left_same (b ∷ t) g.0)
        ∙ trim_dashes_right_same (b ∷ t) g.1

pub normalize_slug_idem :
    (lower : Bytes → Bytes) (value : Bytes)
    → KeepsSlugs lower
    → normalize_slug lower (normalize_slug lower value) ≡ normalize_slug lower value
normalize_slug_idem lower value keeps =
    same_slug lower (normalize_slug lower value) keeps (normalize_slug-IsSlug lower value)
