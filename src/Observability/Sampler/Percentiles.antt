-- ===== src/Observability/Sampler/Percentiles.antt =====
-- The percentiles of a snapshot.
use roodox_sever_win.Base.{
  ℕ, zero, suc, ◌-◌, ◌≤◌, ◌<◌, ◌≡◌, refl, sym, ap, ◌∙◌, inl, inr, Bool-cases, List, [], ◌∷◌, length,
  ltb, arith,
}
use mathlib.Core.Path.{subst}
use roodox_sever_win.Observability.Sampler.{
  DurationSampler, insert_sorted, sort_values, value_at, rank, percentile, snapshot,
}

-- A value of the list.
pub data Member (x : ℕ) : List ℕ → Type 0 where
  here : {xs : List ℕ} → Member x (x ∷ xs)
  there : {y : ℕ} {xs : List ℕ} → Member x xs → Member x (y ∷ xs)

abbrev AllFrom : ℕ → List ℕ → Type 0
AllFrom x [] = Unit
AllFrom x (y ∷ ys) = (x ≤ y) × AllFrom x ys

abbrev Ascends : List ℕ → Type 0
Ascends [] = Unit
Ascends (x ∷ xs) = AllFrom x xs × Ascends xs

AllFrom-le : (x y : ℕ) (ys : List ℕ) → x ≤ y → AllFrom y ys → AllFrom x ys
AllFrom-le x y [] h a = tt
AllFrom-le x y (z ∷ zs) h a = (omega arith, AllFrom-le x y zs h a.1)

insert-AllFrom : (y x : ℕ) (xs : List ℕ) → y ≤ x → AllFrom y xs → AllFrom y (insert_sorted x xs)
unfolding insert_sorted
insert-AllFrom y x [] h a = (h, tt)
insert-AllFrom y x (z ∷ zs) h a = elim (Bool-cases (ltb x z)) [
  | inl e ↦ rw e (h, a)
  | inr e ↦ rw e (a.0, insert-AllFrom y x zs h a.1)
]

insert-Ascends : (x : ℕ) (xs : List ℕ) → Ascends xs → Ascends (insert_sorted x xs)
unfolding insert_sorted
insert-Ascends x [] a = (tt, tt)
insert-Ascends x (y ∷ ys) a = elim (Bool-cases (ltb x y)) [
  | inl e ↦ (let le : x ≤ y = ground arith in rw e ((le, AllFrom-le x y ys le a.0), a))
  | inr e ↦
      (let le : y ≤ x = ground arith in
        rw e (insert-AllFrom y x ys le a.0, insert-Ascends x ys a.1))
]

sort-Ascends : (xs : List ℕ) → Ascends (sort_values xs)
unfolding sort_values
sort-Ascends [] = tt
sort-Ascends (x ∷ xs) = insert-Ascends x (sort_values xs) (sort-Ascends xs)

length-insert : (x : ℕ) (xs : List ℕ) → length (insert_sorted x xs) ≡ suc (length xs)
unfolding insert_sorted
length-insert x [] = refl
length-insert x (y ∷ ys) = elim (Bool-cases (ltb x y)) [
  | inl e ↦ rw e refl
  | inr e ↦ rw e (ap suc (length-insert x ys))
]

length-sort : (xs : List ℕ) → length (sort_values xs) ≡ length xs
unfolding sort_values
length-sort [] = refl
length-sort (x ∷ xs) = length-insert x (sort_values xs) ∙ ap suc (length-sort xs)

swapped : (z x y : ℕ) (ys : List ℕ) → Member z (x ∷ ys) → Member z (x ∷ y ∷ ys)
swapped z _ y ys here = here
swapped z x y ys (there k) = there (there k)

past :
    (z x y : ℕ) (ys zs : List ℕ)
    → (Member z zs → Member z (x ∷ ys))
    → Member z (y ∷ zs)
    → Member z (x ∷ y ∷ ys)
past z x _ ys zs f here = there here
past z x y ys zs f (there k) = swapped z x y ys (f k)

Member-insert : (z x : ℕ) (xs : List ℕ) → Member z (insert_sorted x xs) → Member z (x ∷ xs)
unfolding insert_sorted
Member-insert z x [] m = m
Member-insert z x (y ∷ ys) m = elim (Bool-cases (ltb x y)) [
  | inl e ↦ rw e at m
  | inr e ↦ past z x y ys (insert_sorted x ys) (Member-insert z x ys) (rw e at m)
]

cons-Member :
    (z x : ℕ) (xs ys : List ℕ) → (Member z ys → Member z xs) → Member z (x ∷ ys) → Member z (x ∷ xs)
cons-Member z _ xs ys f here = here
cons-Member z x xs ys f (there k) = there (f k)

Member-sort : (z : ℕ) (xs : List ℕ) → Member z (sort_values xs) → Member z xs
unfolding sort_values
Member-sort z [] m = m
Member-sort z (x ∷ xs) m =
    cons-Member z x xs (sort_values xs) (Member-sort z xs) (Member-insert z x (sort_values xs) m)

value_at-Member : (i : ℕ) (xs : List ℕ) → i < length xs → Member (value_at i xs) xs
unfolding value_at
value_at-Member i [] h = absurd (omega arith)
value_at-Member zero (x ∷ xs) h = here
value_at-Member (suc i) (x ∷ xs) h = there (value_at-Member i xs (omega arith))

AllFrom-value_at : (x i : ℕ) (xs : List ℕ) → i < length xs → AllFrom x xs → x ≤ value_at i xs
unfolding value_at
AllFrom-value_at x i [] h a = absurd (omega arith)
AllFrom-value_at x zero (y ∷ ys) h a = a.0
AllFrom-value_at x (suc i) (y ∷ ys) h a = AllFrom-value_at x i ys (omega arith) a.1

value_at-le :
    (i j : ℕ) (xs : List ℕ) → i ≤ j → j < length xs → Ascends xs → value_at i xs ≤ value_at j xs
unfolding value_at
value_at-le i j [] h k a = absurd (omega arith)
value_at-le zero zero (x ∷ xs) h k a = omega arith
value_at-le (suc i) zero (x ∷ xs) h k a = absurd (omega arith)
value_at-le zero (suc j) (x ∷ xs) h k a = AllFrom-value_at x j xs (omega arith) a.0
value_at-le (suc i) (suc j) (x ∷ xs) h k a = value_at-le i j xs (omega arith) (omega arith) a.1

-- The percentiles are samples, in order.
pub record AreOrdered (s : DurationSampler) : Type 0 where
  pub p50 : Member (snapshot s).p50_ms s.values
  pub p95 : Member (snapshot s).p95_ms s.values
  pub p99 : Member (snapshot s).p99_ms s.values
  pub p50_le : (snapshot s).p50_ms ≤ (snapshot s).p95_ms
  pub p95_le : (snapshot s).p95_ms ≤ (snapshot s).p99_ms

rank_50 : (n : ℕ) → 0 < n → (rank n 50 - 1 < n) × (rank n 50 - 1 ≤ rank n 95 - 1)
rank_50 n h = (ground arith, ground arith)

rank_95 : (n : ℕ) → 0 < n → (rank n 95 - 1 < n) × (rank n 95 - 1 ≤ rank n 99 - 1)
rank_95 n h = (ground arith, ground arith)

rank_99 : (n : ℕ) → 0 < n → rank n 99 - 1 < n
rank_99 n h = ground arith

percentile_at :
    (values : List ℕ) (p : ℕ)
    → 0 < length values
    → 0 < p
    → p < 100
    → percentile values p ≡ value_at (rank (length values) p - 1) values
unfolding percentile
percentile_at values p h a b = ground arith

percentile-Member :
    (xs : List ℕ) (p : ℕ)
    → 0 < length xs
    → 0 < p
    → p < 100
    → rank (length (sort_values xs)) p - 1 < length (sort_values xs)
    → Member (percentile (sort_values xs) p) xs
percentile-Member xs p h a b k = Member-sort _ xs (
    subst (λ v. Member v (sort_values xs))
      (sym (percentile_at (sort_values xs) p (omega (arith, length-sort xs)) a b))
      (value_at-Member _ (sort_values xs) k))

percentile-le :
    (xs : List ℕ) (p q : ℕ)
    → 0 < length xs
    → 0 < p
    → p < 100
    → 0 < q
    → q < 100
    → rank (length (sort_values xs)) p - 1 ≤ rank (length (sort_values xs)) q - 1
    → rank (length (sort_values xs)) q - 1 < length (sort_values xs)
    → percentile (sort_values xs) p ≤ percentile (sort_values xs) q
percentile-le xs p q h a b c d le k =
    let n : 0 < length (sort_values xs) = omega (arith, length-sort xs) in
    rw (percentile_at (sort_values xs) p n a b, percentile_at (sort_values xs) q n c d)
      (value_at-le _ _ (sort_values xs) le k (sort-Ascends xs))

snapshot_50 :
    (s : DurationSampler)
    → 0 < length s.values
    → (snapshot s).p50_ms ≡ percentile (sort_values s.values) 50
unfolding snapshot
snapshot_50 s h = ground arith

snapshot_95 :
    (s : DurationSampler)
    → 0 < length s.values
    → (snapshot s).p95_ms ≡ percentile (sort_values s.values) 95
unfolding snapshot
snapshot_95 s h = ground arith

snapshot_99 :
    (s : DurationSampler)
    → 0 < length s.values
    → (snapshot s).p99_ms ≡ percentile (sort_values s.values) 99
unfolding snapshot
snapshot_99 s h = ground arith

-- The percentiles in a snapshot of a sampler that has values are among these values, and the
-- 50th is at most the 95th, and the 95th at most the 99th.
pub snapshot-AreOrdered : (s : DurationSampler) → 0 < length s.values → AreOrdered s
snapshot-AreOrdered s h =
    let n : 0 < length (sort_values s.values) = omega (arith, length-sort s.values) in
    let (a, b) = rank_50 (length (sort_values s.values)) n in
    let (c, d) = rank_95 (length (sort_values s.values)) n in
    let e = rank_99 (length (sort_values s.values)) n in
    record {
      p50 = rw (snapshot_50 s h) (percentile-Member s.values 50 h (omega arith) (omega arith) a);
      p95 = rw (snapshot_95 s h) (percentile-Member s.values 95 h (omega arith) (omega arith) c);
      p99 = rw (snapshot_99 s h) (percentile-Member s.values 99 h (omega arith) (omega arith) e);
      p50_le =
          rw (snapshot_50 s h, snapshot_95 s h)
            (percentile-le s.values 50 95 h (omega arith) (omega arith) (omega arith) (omega arith)
              b c);
      p95_le =
          rw (snapshot_95 s h, snapshot_99 s h)
            (percentile-le s.values 95 99 h (omega arith) (omega arith) (omega arith) (omega arith)
              d e);
    }
