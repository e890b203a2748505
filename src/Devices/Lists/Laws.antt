-- ===== src/Devices/Lists/Laws.antt =====
-- Laws of the lists that queries select, and of random ids.
use roodox_sever_win.Base.{
  ℕ, zero, suc, ◌≡◌, refl, ap, inl, inr, Bytes, bytes_eq, bytes_eq→eq, Bool, true, List, [], ◌∷◌,
  map, keep_if, take, ◌%◌, ◌/◌, Bool-cases, arith,
}
use mathlib.Core.Path.{subst}
use roodox_sever_win.Base.Space.{trim_space}
use roodox_sever_win.Base.Space.Trims.{Plain, is_plain, trim_space-Plain, trim_space_idem}
use roodox_sever_win.Devices.Lists.{
  is_empty, normalize_from, normalize_string_list, in_list, insert_by, order_by, hex_digit,
  hex_encode,
}

abbrev pub Every {ℓ} : {A : Type ℓ} → (A → Type 0) → List A → Type 0
Every P [] = Unit
Every P (x ∷ xs) = P x × Every P xs

module _ {ℓ} {A : Type ℓ} (P : A → Type 0) where
  pub Every-keep_if : (p : A → Bool) (xs : List A) → Every P xs → Every P (keep_if p xs)
  Every-keep_if p [] h = tt
  Every-keep_if p (x ∷ xs) h = elim (Bool-cases (p x)) [
    | inl e ↦ rw e (h.0, Every-keep_if p xs h.1)
    | inr e ↦ rw e (Every-keep_if p xs h.1)
  ]

  Every-insert_by :
      (before : A → A → Bool) (x : A) (ys : List A)
      → P x
      → Every P ys
      → Every P (insert_by before x ys)
  Every-insert_by before x [] h k = (h, tt)
  Every-insert_by before x (y ∷ ys) h k = elim (Bool-cases (before y x)) [
    | inl e ↦ rw e (k.0, Every-insert_by before x ys h k.1)
    | inr e ↦ rw e (h, k)
  ]

  pub Every-order_by :
      (before : A → A → Bool) (xs : List A) → Every P xs → Every P (order_by before xs)
  Every-order_by before [] h = tt
  Every-order_by before (x ∷ xs) h =
      Every-insert_by before x (order_by before xs) h.0 (Every-order_by before xs h.1)

  pub Every-take : (n : ℕ) (xs : List A) → Every P xs → Every P (take n xs)
  Every-take zero xs h = tt
  Every-take (suc n) [] h = tt
  Every-take (suc n) (x ∷ xs) h = (h.0, Every-take n xs h.1)

pub Every-map :
    {A B : Type 0} (P : A → Type 0) (R : B → Type 0) (f : A → B) (xs : List A)
    → ((a : A) → P a → R (f a))
    → Every P xs
    → Every R (map f xs)
Every-map P R f [] h k = tt
Every-map P R f (x ∷ xs) h k = (h x k.0, Every-map P R f xs h k.1)

pub in_list_every :
    {A : Type 0} (key : A → Bytes) (C : Bytes → Type 0) (id : Bytes) (xs : List A)
    → Every (λ a. C (key a)) xs
    → in_list id (map key xs) ≡ true
    → C id
in_list_every key C id [] h k = absurd (cc k)
in_list_every key C id (x ∷ xs) h k = elim (Bool-cases (bytes_eq (key x) id)) [
  | inl e ↦ subst C (bytes_eq→eq (key x) id e) h.0
  | inr e ↦ in_list_every key C id xs h.1 (ground arith)
]

hex_digit_plain : (n : ℕ) → is_plain (hex_digit (n % 16)) ≡ true
hex_digit_plain n = ground arith

hex_encode-Plain : (s : Bytes) → Plain (hex_encode s)
hex_encode-Plain [] = tt
hex_encode-Plain (b ∷ s) = (hex_digit_plain (b / 16), (hex_digit_plain b, hex_encode-Plain s))

pub trim_space-hex_encode : (s : Bytes) → trim_space (hex_encode s) ≡ hex_encode s
trim_space-hex_encode s = trim_space-Plain (hex_encode s) (hex_encode-Plain s)

normalize_from_idem :
    (lower : Bytes → Bytes) (seen vs : List Bytes)
    → normalize_from lower seen (normalize_from lower seen vs) ≡ normalize_from lower seen vs
normalize_from_idem lower seen [] = refl
normalize_from_idem lower seen (v ∷ vs) = elim (Bool-cases (is_empty (trim_space v))) [
  | inl e ↦ rw e (normalize_from_idem lower seen vs)
  | inr e ↦ elim (Bool-cases (in_list (lower (trim_space v)) seen)) [
    | inl f ↦ rw (e, f) (normalize_from_idem lower seen vs)
    | inr f ↦
        rw (e, f, trim_space_idem v, e, f)
          (ap (λ ys. trim_space v ∷ ys)
            (normalize_from_idem lower (lower (trim_space v) ∷ seen) vs))
  ]
]

pub normalize_string_list_idem :
    (lower : Bytes → Bytes) (vs : List Bytes)
    → normalize_string_list lower (normalize_string_list lower vs) ≡ normalize_string_list lower vs
unfolding normalize_string_list
normalize_string_list_idem lower vs = normalize_from_idem lower [] vs
