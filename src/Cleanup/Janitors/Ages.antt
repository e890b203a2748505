-- ===== src/Cleanup/Janitors/Ages.antt =====
-- The order of age, and expiry along it.
use roodox_sever_win.Base.{
  ℕ, ◌≤◌, ◌≡◌, inl, inr, true, false, Bool-cases, not, ◌&&◌, List, [], ◌∷◌, ℤ, pos, negsuc,
  non_positive, ltz, arith,
}
use roodox_sever_win.Base.Time.{elapsed}
use roodox_sever_win.Cleanup.Janitors.{Item, is_before, insert_item, sort_items, is_expired}

abbrev AllFrom : ℕ → List Item → Type 0
AllFrom t [] = Unit
AllFrom t (a ∷ xs) = (t ≤ a.mod_time) × AllFrom t xs

-- The oldest first.
abbrev pub Ages : List Item → Type 0
Ages [] = Unit
Ages (a ∷ xs) = AllFrom a.mod_time xs × Ages xs

AllFrom-le : (t u : ℕ) (xs : List Item) → t ≤ u → AllFrom u xs → AllFrom t xs
AllFrom-le t u [] h a = tt
AllFrom-le t u (b ∷ bs) h a = (omega arith, AllFrom-le t u bs h a.1)

insert-AllFrom :
    (t : ℕ) (a : Item) (xs : List Item)
    → t ≤ a.mod_time
    → AllFrom t xs
    → AllFrom t (insert_item a xs)
unfolding insert_item
insert-AllFrom t a [] h f = (h, tt)
insert-AllFrom t a (b ∷ bs) h f = elim (Bool-cases (is_before b a)) [
  | inl e ↦ rw e (f.0, insert-AllFrom t a bs h f.1)
  | inr e ↦ rw e (h, f)
]

insert-Ages : (a : Item) (xs : List Item) → Ages xs → Ages (insert_item a xs)
unfolding insert_item
insert-Ages a [] f = (tt, tt)
insert-Ages a (b ∷ bs) f = elim (Bool-cases (is_before b a)) [
  | inl e ↦
      (let le : b.mod_time ≤ a.mod_time = ground arith in
        rw e (insert-AllFrom b.mod_time a bs le f.0, insert-Ages a bs f.1))
  | inr e ↦
      (let le : a.mod_time ≤ b.mod_time = ground arith in
        rw e ((le, AllFrom-le a.mod_time b.mod_time bs le f.0), f))
]

pub sort-Ages : (xs : List Item) → Ages (sort_items xs)
unfolding sort_items
sort-Ages [] = tt
sort-Ages (a ∷ xs) = insert-Ages a (sort_items xs) (sort-Ages xs)

-- An older item has expired when a younger one has.
expired_older :
    (retention : ℤ) (now t u : ℕ)
    → t ≤ u
    → ltz retention (elapsed now u) ≡ true
    → not (non_positive retention) ≡ true
    → ltz retention (elapsed now t) ≡ true
expired_older (negsuc n) now t u h e p = ground arith
expired_older (pos n) now t u h e p = ground arith

-- No item has expired.
abbrev pub AllFresh : ℤ → ℕ → List Item → Type 0
AllFresh retention now [] = Unit
AllFresh retention now (a ∷ xs) = (is_expired retention now a ≡ false) × AllFresh retention now xs

fresh_younger :
    (retention : ℤ) (now : ℕ) (a b : Item)
    → a.mod_time ≤ b.mod_time
    → is_expired retention now a ≡ false
    → is_expired retention now b ≡ false
unfolding is_expired
fresh_younger retention now a b h e =
    elim (Bool-cases (not (non_positive retention) && ltz retention (elapsed now b.mod_time))) [
      | inr f ↦ f
      | inl f ↦
          (let p : not (non_positive retention) ≡ true = ground arith in
            let q : ltz retention (elapsed now b.mod_time) ≡ true = ground arith in
            let r = expired_older retention now a.mod_time b.mod_time h q p in
            absurd (let x = rw (p, r) at e in cc x))
    ]

pub all_fresh :
    (retention : ℤ) (now : ℕ) (a : Item) (xs : List Item)
    → is_expired retention now a ≡ false
    → AllFrom a.mod_time xs
    → AllFresh retention now xs
all_fresh retention now a [] e f = tt
all_fresh retention now a (b ∷ bs) e f =
    (fresh_younger retention now a b f.0 e, all_fresh retention now a bs e f.1)
