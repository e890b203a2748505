-- ===== src/Devices/Lists/Orders.antt =====
-- What ORDER BY and LIMIT make of the rows that they are given.
use roodox_sever_win.Base.{
  ℕ, zero, suc, ◌≤◌, ◌≡◌, refl, ap, ◌⊎◌, inl, inr, Bool, true, false, Bool-cases, List, [], ◌∷◌,
  ◌++◌, length, take, drop, keep_if, arith,
}
use mathlib.Core.List.{Perm}
use mathlib.Core.List.Perm
use roodox_sever_win.Devices.Lists.{insert_by, order_by}

module _ {A : Type 0} (before : A → A → Bool) where
  -- No row comes before the one that it follows.
  abbrev pub Follows : A → List A → Type 0
  Follows x [] = Unit
  Follows x (y ∷ ys) = before y x ≡ false

  abbrev pub Chains : List A → Type 0
  Chains [] = Unit
  Chains (x ∷ xs) = Follows x xs × Chains xs

  insert_by-Follows :
      (x y : A) (ys : List A)
      → before x y ≡ false
      → Follows y ys
      → Follows y (insert_by before x ys)
  insert_by-Follows x y [] h f = h
  insert_by-Follows x y (z ∷ zs) h f = elim (Bool-cases (before z x)) [
    | inl e ↦ rw e f
    | inr e ↦ rw e h
  ]

  insert_by-Chains :
      (asym : (x y : A) → before x y ≡ true → before y x ≡ false) (x : A) (ys : List A)
      → Chains ys
      → Chains (insert_by before x ys)
  insert_by-Chains asym x [] c = (tt, tt)
  insert_by-Chains asym x (y ∷ ys) c = elim (Bool-cases (before y x)) [
    | inl e ↦ rw e (insert_by-Follows x y ys (asym y x e) c.0, insert_by-Chains asym x ys c.1)
    | inr e ↦ rw e (e, c)
  ]

  pub order_by-Chains :
      (asym : (x y : A) → before x y ≡ true → before y x ≡ false) (xs : List A)
      → Chains (order_by before xs)
  order_by-Chains asym [] = tt
  order_by-Chains asym (x ∷ xs) =
      insert_by-Chains asym x (order_by before xs) (order_by-Chains asym xs)

  insert_by-Perm : (x : A) (ys : List A) → Perm (insert_by before x ys) (x ∷ ys)
  insert_by-Perm x [] = Perm.refl (x ∷ [])
  insert_by-Perm x (y ∷ ys) = elim (Bool-cases (before y x)) [
    | inl e ↦ rw e (Perm.trans (Perm.cons y (insert_by-Perm x ys)) (Perm.swap x y ys))
    | inr e ↦ rw e (Perm.refl (x ∷ y ∷ ys))
  ]

  pub order_by-Perm : (xs : List A) → Perm (order_by before xs) xs
  order_by-Perm [] = Perm.nil
  order_by-Perm (x ∷ xs) =
      Perm.trans (insert_by-Perm x (order_by before xs)) (Perm.cons x (order_by-Perm xs))

module _ {A : Type 0} where
  pub take-drop : (n : ℕ) (xs : List A) → take n xs ++ drop n xs ≡ xs
  take-drop zero xs = refl
  take-drop (suc n) [] = refl
  take-drop (suc n) (x ∷ xs) = ap (λ ys. x ∷ ys) (take-drop n xs)

  pub take_cases :
      (n : ℕ) (xs : List A)
      → (length (take n xs) ≡ n) ⊎ ((length (take n xs) ≤ n) × (drop n xs ≡ []))
  take_cases zero xs = inl refl
  take_cases (suc n) [] = inr (omega arith, refl)
  take_cases (suc n) (x ∷ xs) = elim (take_cases n xs) [
    | inl e ↦ inl (ap suc e)
    | inr (l, e) ↦ inr (omega arith, e)
  ]

  pub keep_if_same :
      (p q : A → Bool) (xs : List A) → ((a : A) → p a ≡ q a) → keep_if p xs ≡ keep_if q xs
  keep_if_same p q [] h = refl
  keep_if_same p q (x ∷ xs) h = rw (h x, keep_if_same p q xs h) refl
