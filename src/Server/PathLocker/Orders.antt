-- ===== src/Server/PathLocker/Orders.antt =====
-- The order in which LockMany locks.
use roodox_sever_win.Base.{
  ◌≡◌, refl, ◌∙◌, inl, inr, true, false, Bool-cases, List, [], ◌∷◌, Bytes, bytes_eq, bytes_eq_iff,
  bytes_less, if◌then◌else◌, arith,
}
use roodox_sever_win.Server.PathLocker.{
  contains_path, without_repeats, insert_path, sort_paths, lock_order,
}

pub less_trans :
    (a b c : Bytes) → bytes_less a b ≡ true → bytes_less b c ≡ true → bytes_less a c ≡ true
unfolding bytes_less
less_trans a b [] h k = cc k
less_trans a [] (z ∷ c) h k = cc h
less_trans [] (y ∷ b) (z ∷ c) h k = refl
less_trans (x ∷ a) (y ∷ b) (z ∷ c) h k = ground (arith, less_trans a b c)

pub less_irrefl : (a : Bytes) → bytes_less a a ≡ false
unfolding bytes_less
less_irrefl [] = refl
less_irrefl (x ∷ a) = ground (arith, less_irrefl a)

less_total : (a b : Bytes) → bytes_eq a b ≡ false → bytes_less a b ≡ false → bytes_less b a ≡ true
unfolding bytes_less bytes_eq
less_total [] [] n h = cc n
less_total (x ∷ a) [] n h = refl
less_total [] (y ∷ b) n h = cc h
less_total (x ∷ a) (y ∷ b) n h = ground (arith, less_total a b)

-- The path is less than each of the list.
abbrev pub AllAbove : Bytes → List Bytes → Type 0
AllAbove p [] = Unit
AllAbove p (q ∷ qs) = (bytes_less p q ≡ true) × AllAbove p qs

abbrev pub Increases : List Bytes → Type 0
Increases [] = Unit
Increases (p ∷ ps) = AllAbove p ps × Increases ps

pub AllAbove-less :
    (p q : Bytes) (qs : List Bytes) → bytes_less p q ≡ true → AllAbove q qs → AllAbove p qs
AllAbove-less p q [] h a = tt
AllAbove-less p q (r ∷ rs) h a = (less_trans p q r h a.0, AllAbove-less p q rs h a.1)

insert-AllAbove :
    (q p : Bytes) (ps : List Bytes)
    → bytes_less q p ≡ true
    → AllAbove q ps
    → AllAbove q (insert_path p ps)
unfolding insert_path
insert-AllAbove q p [] h a = (h, tt)
insert-AllAbove q p (r ∷ rs) h a = elim (Bool-cases (bytes_less p r)) [
  | inl e ↦ rw e (h, a)
  | inr e ↦ rw e (a.0, insert-AllAbove q p rs h a.1)
]

contains_cons :
    (p q : Bytes) (qs : List Bytes)
    → contains_path p (q ∷ qs) ≡ false
    → (bytes_eq p q ≡ false) × (contains_path p qs ≡ false)
unfolding contains_path
contains_cons p q qs h = (ground arith, ground arith)

insert-Increases :
    (p : Bytes) (ps : List Bytes)
    → contains_path p ps ≡ false
    → Increases ps
    → Increases (insert_path p ps)
unfolding insert_path
insert-Increases p [] n a = (tt, tt)
insert-Increases p (q ∷ qs) n a = elim (Bool-cases (bytes_less p q)) [
  | inl e ↦ rw e ((e, AllAbove-less p q qs e a.0), a)
  | inr e ↦
      (let (other, absent) = contains_cons p q qs n in
        rw e
          (insert-AllAbove q p qs (less_total p q other e) a.0, insert-Increases p qs absent a.1))
]

contains-insert :
    (x p : Bytes) (ps : List Bytes) → contains_path x (insert_path p ps) ≡ contains_path x (p ∷ ps)
unfolding contains_path insert_path
contains-insert x p [] = refl
contains-insert x p (q ∷ qs) = ground (arith, contains-insert x p qs)

pub contains-sort :
    (x : Bytes) (ps : List Bytes) → contains_path x (sort_paths ps) ≡ contains_path x ps
unfolding sort_paths contains_path
contains-sort x [] = refl
contains-sort x (p ∷ ps) = ground (arith, contains-insert x p (sort_paths ps), contains-sort x ps)

-- No path stands twice.
abbrev NoRepeats : List Bytes → Type 0
NoRepeats [] = Unit
NoRepeats (p ∷ ps) = (contains_path p ps ≡ false) × NoRepeats ps

sort-Increases : (ps : List Bytes) → NoRepeats ps → Increases (sort_paths ps)
unfolding sort_paths
sort-Increases [] n = tt
sort-Increases (p ∷ ps) n =
    insert-Increases p (sort_paths ps) (contains-sort p ps ∙ n.0) (sort-Increases ps n.1)

-- A path is kept once unless it has been seen.
contains-without_repeats :
    (x : Bytes) (seen ps : List Bytes)
    → contains_path x (without_repeats seen ps)
      ≡ (if contains_path x seen then false else contains_path x ps)
unfolding contains_path without_repeats
contains-without_repeats x seen [] = ground arith
contains-without_repeats x seen (p ∷ ps) = ground (
  arith,
  contains-without_repeats x seen ps,
  contains-without_repeats x (p ∷ seen) ps,
  bytes_eq_iff x p,
  bytes_eq_iff p x,
)

without_repeats-NoRepeats : (seen ps : List Bytes) → NoRepeats (without_repeats seen ps)
unfolding without_repeats
without_repeats-NoRepeats seen [] = tt
without_repeats-NoRepeats seen (p ∷ ps) = elim (Bool-cases (contains_path p seen)) [
  | inl e ↦ rw e (without_repeats-NoRepeats seen ps)
  | inr e ↦ rw e (
    contains-without_repeats p (p ∷ seen) ps ∙ seen_itself p seen ps,
    without_repeats-NoRepeats (p ∷ seen) ps,
  )
]
  where
    seen_itself :
        (p : Bytes) (seen ps : List Bytes)
        → (if contains_path p (p ∷ seen) then false else contains_path p ps) ≡ false
    seen_itself p seen ps = unfold contains_path in ground (arith, bytes_eq_iff p p)

-- The order in which LockMany locks is strictly increasing, so that no path is locked twice, and
-- has exactly the paths that it is given.
pub lock_order_lem :
    (ps : List Bytes)
    → Increases (lock_order ps)
      × ((x : Bytes) → contains_path x (lock_order ps) ≡ contains_path x ps)
unfolding lock_order
lock_order_lem ps = (
  sort-Increases (without_repeats [] ps) (without_repeats-NoRepeats [] ps),
  λ x.
      contains-sort x (without_repeats [] ps)
      ∙ contains-without_repeats x [] ps
      ∙ (unfold contains_path in refl),
)
