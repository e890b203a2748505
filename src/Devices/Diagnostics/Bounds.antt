-- ===== src/Devices/Diagnostics/Bounds.antt =====
-- How many diagnostics of a device the table holds.
use roodox_sever_win.Base.{
  ℕ, zero, suc, ◌+◌, ◌≤◌, ◌≡◌, refl, sym, inl, inr, Bytes, bytes_eq, bytes_eq_iff, bytes_less, Bool,
  true, false, List, [], ◌∷◌, map, keep_if, take, length, Bool-cases, arith, ◌&&◌, ◌||◌, not,
}
use roodox_sever_win.Devices.Tables.{DeviceDiagnosticRecord}
use roodox_sever_win.Devices.Lists.{in_list, order_by}
use roodox_sever_win.Devices.Diagnostics.{
  is_of, stays, newest_diagnostics, delete_old_diagnostics, diagnostic_exists, diagnostic_before,
}

abbrev pub count {ℓ} : {A : Type ℓ} → (A → Bool) → List A → ℕ
count p xs = length (keep_if p xs)

module _ {A : Type 0} where
  count_le :
      (p q : A → Bool) (xs : List A) → ((x : A) → p x ≡ true → q x ≡ true) → count p xs ≤ count q xs
  count_le p q [] h = omega arith
  count_le p q (x ∷ xs) h = ground (arith, h x, count_le p q xs h)

  count-keep_if :
      (p q : A → Bool) (xs : List A) → count q (keep_if p xs) ≡ count (λ x. p x && q x) xs
  count-keep_if p q [] = refl
  count-keep_if p q (x ∷ xs) = ground (arith, count-keep_if p q xs)

  count_or : (p q : A → Bool) (xs : List A) → count (λ x. p x || q x) xs ≤ count p xs + count q xs
  count_or p q [] = omega arith
  count_or p q (x ∷ xs) = ground (arith, count_or p q xs)

  length-map-take : {B : Type 0} (f : A → B) (n : ℕ) (xs : List A) → length (map f (take n xs)) ≤ n
  length-map-take f zero xs = omega arith
  length-map-take f (suc n) [] = omega arith
  length-map-take f (suc n) (x ∷ xs) = omega (arith, length-map-take f n xs)

abbrev has_id : Bytes → DeviceDiagnosticRecord → Bool
unfolding bytes_eq
has_id id x = bytes_eq id x.diagnostics_id

-- The primary key.
abbrev pub HasOneRow : List DeviceDiagnosticRecord → Type 0
unfolding bytes_eq
HasOneRow xs = (id : Bytes) → count (has_id id) xs ≤ 1

count_none : (xs : List DeviceDiagnosticRecord) → count (λ x. false) xs ≡ 0
count_none [] = refl
count_none (x ∷ xs) = count_none xs

count-in_list :
    (ids : List Bytes) (xs : List DeviceDiagnosticRecord)
    → HasOneRow xs
    → count (λ x. in_list x.diagnostics_id ids) xs ≤ length ids
unfolding bytes_eq
count-in_list [] xs h = omega (arith, count_none xs)
count-in_list (id ∷ ids) xs h = omega (
  arith,
  count_or (has_id id) (λ x. in_list x.diagnostics_id ids) xs,
  h id,
  count-in_list ids xs h,
)

absent_count :
    (id : Bytes) (xs : List DeviceDiagnosticRecord)
    → diagnostic_exists id xs ≡ false
    → count (has_id id) xs ≡ 0
unfolding diagnostic_exists
absent_count id [] h = refl
absent_count id (x ∷ xs) h =
    ground (
      arith,
      absent_count id xs,
      bytes_eq_iff x.diagnostics_id id,
      bytes_eq_iff id x.diagnostics_id,
    )

kept-HasOneRow :
    (p : DeviceDiagnosticRecord → Bool) (xs : List DeviceDiagnosticRecord)
    → HasOneRow xs
    → HasOneRow (keep_if p xs)
unfolding bytes_eq
kept-HasOneRow p xs h id = omega (
  arith,
  count-keep_if p (has_id id) xs,
  count_le (λ x. p x && has_id id x) (has_id id) xs λ x g. ground arith,
  h id,
)

insert-HasOneRow :
    (n : DeviceDiagnosticRecord) (xs : List DeviceDiagnosticRecord)
    → diagnostic_exists n.diagnostics_id xs ≡ false
    → HasOneRow xs
    → HasOneRow (n ∷ xs)
unfolding bytes_eq
insert-HasOneRow n xs free h id = elim (Bool-cases (bytes_eq id n.diagnostics_id)) [
  | inl e ↦
      let none_yet : count (has_id id) xs ≡ 0 =
        rw ((bytes_eq_iff id n.diagnostics_id).0 e) (absent_count n.diagnostics_id xs free) in
      ground (arith, none_yet)
  | inr e ↦ ground (arith, h id)
]

-- The deletion leaves at most `n` rows of the device.
count-delete_old :
    (dev : Bytes) (n : ℕ) (xs : List DeviceDiagnosticRecord)
    → HasOneRow xs
    → count (is_of dev) (delete_old_diagnostics dev n xs) ≤ n
unfolding delete_old_diagnostics newest_diagnostics bytes_eq bytes_less
count-delete_old dev n xs h =
    let ids = map (λ x. x.diagnostics_id) (newest_diagnostics dev n xs) in
    omega (
      arith,
      count-keep_if (stays dev ids) (is_of dev) xs,
      count_le (λ x. stays dev ids x && is_of dev x) (λ x. in_list x.diagnostics_id ids) xs
          (λ x g. left_of_dev (is_of dev x) (in_list x.diagnostics_id ids) g),
      count-in_list ids xs h,
      length-map-take (λ x. x.diagnostics_id) n
          (order_by diagnostic_before (keep_if (is_of dev) xs)),
    )
  where
    left_of_dev : (a b : Bool) → ((not a || b) && a) ≡ true → b ≡ true
    left_of_dev a b g = ground arith

-- A bound on the rows of every device.
abbrev pub IsBounded : ℕ → List DeviceDiagnosticRecord → Type 0
unfolding bytes_eq
IsBounded n xs = (dev : Bytes) → count (is_of dev) xs ≤ n

pub store-IsBounded :
    (n : ℕ) (x : DeviceDiagnosticRecord) (xs : List DeviceDiagnosticRecord)
    → diagnostic_exists x.diagnostics_id xs ≡ false
    → HasOneRow xs × IsBounded n xs
    → let ys = delete_old_diagnostics x.device_id n (x ∷ xs) in HasOneRow ys × IsBounded n ys
unfolding delete_old_diagnostics bytes_eq
store-IsBounded n x xs free h =
    let one = insert-HasOneRow x xs free h.0 in
    let ids = map (λ y. y.diagnostics_id) (newest_diagnostics x.device_id n (x ∷ xs)) in
    (
      kept-HasOneRow (stays x.device_id ids) (x ∷ xs) one,
      λ dev. elim (Bool-cases (bytes_eq x.device_id dev)) [
        | inl e ↦
            rw (sym ((bytes_eq_iff x.device_id dev).0 e))
              (count-delete_old x.device_id n (x ∷ xs) one)
        | inr e ↦ omega (
          arith,
          count-keep_if (stays x.device_id ids) (is_of dev) (x ∷ xs),
          count_le (λ y. stays x.device_id ids y && is_of dev y) (is_of dev) (x ∷ xs)
              (λ y g. ground arith),
          other_count dev e,
          h.1 dev,
        )
      ],
    )
  where
    other_count :
        (dev : Bytes)
        → bytes_eq x.device_id dev ≡ false
        → count (is_of dev) (x ∷ xs) ≡ count (is_of dev) xs
    other_count dev e = rw e refl
