-- ===== src/Base/Space/Trims.antt =====
-- Laws of strings.TrimSpace: the spaces at the front of a text and at its end.
use roodox_sever_win.Base.{
  ℕ, zero, suc, ◌-◌, ◌⊎◌, ◌↔◌, ◌≤◌, ◌≡◌, ◌≢◌, refl, sym, ap, ◌∙◌, inl, inr, Bool, true, false, [],
  ◌∷◌, ◌++◌, leb, ◌&&◌, arith, Bool-cases, Bytes, if◌then◌else◌, ◌==◌, length,
}
use roodox_sever_win.Base.Space.{space_length, trim_left_from, is_blank, trim_right, trim_space}

space_length_bound : (s : Bytes) → space_length s ≤ length s
unfolding space_length
space_length_bound [] = ground arith
space_length_bound (a ∷ []) = ground arith
space_length_bound (a ∷ b ∷ []) = ground arith
space_length_bound (a ∷ b ∷ c ∷ s) = ground arith

space_length_small : (s : Bytes) → space_length s ≤ 3
unfolding space_length
space_length_small [] = ground arith
space_length_small (a ∷ []) = ground arith
space_length_small (a ∷ b ∷ []) = ground arith
space_length_small (a ∷ b ∷ c ∷ s) = ground arith

-- A space at the front stays one whatever follows.
space_length-append : (s t : Bytes) → space_length s ≢ 0 → space_length (s ++ t) ≡ space_length s
unfolding space_length
space_length-append [] t h = ground arith
space_length-append (a ∷ []) [] h = refl
space_length-append (a ∷ []) (x ∷ []) h = ground arith
space_length-append (a ∷ []) (x ∷ y ∷ t) h = ground arith
space_length-append (a ∷ b ∷ []) [] h = refl
space_length-append (a ∷ b ∷ []) (x ∷ t) h = ground arith
space_length-append (a ∷ b ∷ c ∷ s) t h = refl

chosen :
    {n : ℕ} {x y z w : Bytes}
    → n ≤ 3
    → let r = if n == 1 then x else if n == 2 then y else if n == 3 then z else w in
      (((n ≡ 1) × (r ≡ x)) ⊎ ((n ≡ 2) × (r ≡ y))) ⊎ (((n ≡ 3) × (r ≡ z)) ⊎ ((n ≡ 0) × (r ≡ w)))
chosen h = ground arith

-- One round of the cut, by the length of the space at the front.
cut_cases :
    (b : ℕ) (s : Bytes)
    → let n = space_length (b ∷ s) in
      let r = trim_left_from 0 (b ∷ s) in
      (((n ≡ 1) × (r ≡ trim_left_from 0 s)) ⊎ ((n ≡ 2) × (r ≡ trim_left_from 1 s)))
      ⊎ (((n ≡ 3) × (r ≡ trim_left_from 2 s)) ⊎ ((n ≡ 0) × (r ≡ b ∷ s)))
unfolding trim_left_from
cut_cases b s = chosen (space_length_small (b ∷ s))

pub space_length-trim : (k : ℕ) (s : Bytes) → space_length (trim_left_from k s) ≡ 0
unfolding trim_left_from
space_length-trim zero [] = refl
space_length-trim (suc k) [] = refl
space_length-trim (suc k) (b ∷ s) = space_length-trim k s
space_length-trim zero (b ∷ s) = elim (cut_cases b s) [
  | inl (inl (n, e)) ↦ rw e (space_length-trim 0 s)
  | inl (inr (n, e)) ↦ rw e (space_length-trim 1 s)
  | inr (inl (n, e)) ↦ rw e (space_length-trim 2 s)
  | inr (inr (n, e)) ↦ rw e n
]

trim_left_none : (s : Bytes) → space_length s ≡ 0 → trim_left_from 0 s ≡ s
unfolding trim_left_from
trim_left_none [] h = refl
trim_left_none (b ∷ s) h = ground arith

-- A round that begins with a space goes on behind it.
cut_space :
    (b : ℕ) (s : Bytes)
    → space_length (b ∷ s) ≢ 0
    → trim_left_from 0 (b ∷ s) ≡ trim_left_from (space_length (b ∷ s) - 1) s
cut_space b s h = elim (cut_cases b s) [
  | inl (inl (n, e)) ↦ e ∙ back (omega arith)
  | inl (inr (n, e)) ↦ e ∙ back (omega arith)
  | inr (inl (n, e)) ↦ e ∙ back (omega arith)
  | inr (inr (n, e)) ↦ absurd (h n)
]
  where
    back :
        {m : ℕ}
        → m ≡ space_length (b ∷ s) - 1
        → trim_left_from m s ≡ trim_left_from (space_length (b ∷ s) - 1) s
    back n = ap (λ k. trim_left_from k s) n

zero_or : (n : ℕ) → (n ≡ 0) ⊎ (n ≢ 0)
zero_or n = ground arith

trim_left-append :
    (k : ℕ) (s t : Bytes)
    → k ≤ length s
    → trim_left_from k s ≡ []
    → trim_left_from k (s ++ t) ≡ trim_left_from 0 t
unfolding trim_left_from
trim_left-append zero [] t h e = refl
trim_left-append (suc k) [] t h e = ground arith
trim_left-append (suc k) (b ∷ s) t h e = trim_left-append k s t (omega arith) e
trim_left-append zero (b ∷ s) t h e = elim (zero_or (space_length (b ∷ s))) [
  | inl n ↦ absurd (let f = sym (trim_left_none (b ∷ s) n) ∙ e in cc f)
  | inr n ↦
      cut_space b (s ++ t) (more n)
      ∙ ap (λ k. trim_left_from (k - 1) (s ++ t)) (space_length-append (b ∷ s) t n)
      ∙ trim_left-append (space_length (b ∷ s) - 1) s t (omega (arith, space_length_bound (b ∷ s)))
          (sym (cut_space b s n) ∙ e)
]
  where
    more : space_length (b ∷ s) ≢ 0 → space_length (b ∷ (s ++ t)) ≢ 0
    more n z = n (sym (space_length-append (b ∷ s) t n) ∙ z)

blank_iff : (s : Bytes) → (is_blank s ≡ true) ↔ (trim_left_from 0 s ≡ [])
unfolding is_blank
blank_iff s = ground arith

is_blank-append : (s t : Bytes) → is_blank s ≡ true → is_blank (s ++ t) ≡ is_blank t
unfolding is_blank
is_blank-append s t h = rw (is_blank, trim_left-append 0 s t (omega arith) ((blank_iff s).0 h)) refl

trim_right_step :
    (b : ℕ) (s : Bytes) → trim_right (b ∷ s) ≡ (if is_blank (b ∷ s) then [] else b ∷ trim_right s)
unfolding trim_right
trim_right_step b s = refl

trim_right_blank : (s : Bytes) → is_blank s ≡ true → trim_right s ≡ []
unfolding trim_right
trim_right_blank [] h = refl
trim_right_blank (b ∷ s) h = trim_right_step b s ∙ rw h refl

trim_right_keep :
    (b : ℕ) (s : Bytes) → is_blank (b ∷ s) ≡ false → trim_right (b ∷ s) ≡ b ∷ trim_right s
trim_right_keep b s h = trim_right_step b s ∙ rw h refl

-- What trim_right cuts off is blank.
cut_off : (s : Bytes) → (t : Bytes) × (s ≡ trim_right s ++ t) × (is_blank t ≡ true)
unfolding trim_right is_blank
cut_off [] = ([], refl, refl)
cut_off (b ∷ s) = elim (Bool-cases (is_blank (b ∷ s))) [
  | inl e ↦ (b ∷ s, ap (λ r. r ++ (b ∷ s)) (sym (trim_right_blank (b ∷ s) e)), e)
  | inr e ↦
      let (t, f, g) = cut_off s in
      (t, ap (λ r. b ∷ r) f ∙ ap (λ r. r ++ t) (sym (trim_right_keep b s e)), g)
]

-- A text that ends in a blank part is blank if the rest is.
kept_is_blank : (b : ℕ) (s : Bytes) → is_blank (b ∷ s) ≡ false → is_blank (b ∷ trim_right s) ≡ false
kept_is_blank b s h = elim (Bool-cases (is_blank (b ∷ trim_right s))) [
  | inl e ↦
      let (t, f, g) = cut_off s in
      let joined : is_blank (b ∷ s) ≡ is_blank ((b ∷ trim_right s) ++ t) =
        ap (λ r. is_blank (b ∷ r)) f in
      absurd (cc (h, joined, is_blank-append (b ∷ trim_right s) t e, g))
  | inr e ↦ e
]

trim_right_idem : (s : Bytes) → trim_right (trim_right s) ≡ trim_right s
unfolding trim_right
trim_right_idem [] = refl
trim_right_idem (b ∷ s) = elim (Bool-cases (is_blank (b ∷ s))) [
  | inl e ↦ rw (trim_right_blank (b ∷ s) e) refl
  | inr e ↦
      rw (trim_right_keep b s e) (
        trim_right_keep b (trim_right s) (kept_is_blank b s e)
        ∙ ap (λ r. b ∷ r) (trim_right_idem s))
]

-- A text that begins with no space does not begin with one when its end is cut.
space_length-trim_right : (s : Bytes) → space_length s ≡ 0 → space_length (trim_right s) ≡ 0
space_length-trim_right s h = elim (zero_or (space_length (trim_right s))) [
  | inl e ↦ e
  | inr e ↦
      let (t, f, _) = cut_off s in
      sym (space_length-append (trim_right s) t e) ∙ ap space_length (sym f) ∙ h
]

pub trim_space_idem : (s : Bytes) → trim_space (trim_space s) ≡ trim_space s
unfolding trim_space
trim_space_idem s =
    ap trim_right (
      trim_left_none (trim_right (trim_left_from 0 s))
        (space_length-trim_right (trim_left_from 0 s) (space_length-trim 0 s)))
    ∙ trim_right_idem (trim_left_from 0 s)

-- Printable ASCII
abbrev pub is_plain : ℕ → Bool
is_plain b = leb 33 b && leb b 126

abbrev pub Plain : Bytes → Type 0
Plain [] = Unit
Plain (b ∷ s) = (is_plain b ≡ true) × Plain s

space_length_plain : (b : ℕ) (s : Bytes) → is_plain b ≡ true → space_length (b ∷ s) ≡ 0
unfolding space_length
space_length_plain b [] h = ground arith
space_length_plain b (c ∷ []) h = ground arith
space_length_plain b (c ∷ d ∷ s) h = ground arith

trim_right-Plain : (s : Bytes) → Plain s → trim_right s ≡ s
unfolding trim_right
trim_right-Plain [] h = refl
trim_right-Plain (b ∷ s) h =
    trim_right_keep b s
      (ground (arith, blank_iff (b ∷ s), trim_left_none (b ∷ s) (space_length_plain b s h.0)))
    ∙ ap (λ r. b ∷ r) (trim_right-Plain s h.1)

pub trim_space-Plain : (s : Bytes) → Plain s → trim_space s ≡ s
unfolding trim_space trim_right
trim_space-Plain [] h = refl
trim_space-Plain (b ∷ s) h =
    ap trim_right (trim_left_none (b ∷ s) (space_length_plain b s h.0)) ∙ trim_right-Plain (b ∷ s) h
