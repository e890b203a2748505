-- ===== src/Cleanup/Janitors/Policies.antt =====
-- What the policy removes, when every removal succeeds.
use roodox_sever_win.Base.{
  ℕ, zero, suc, ◌+◌, ◌-◌, ◌≤◌, ◌<◌, ◌≡◌, refl, sym, ap, ◌∙◌, inl, inr, Bool, true, false,
  Bool-cases, List, [], ◌∷◌, ℤ, pos_part, non_positive, leb, drop, arith,
}
use mathlib.Core.Path.{subst}
use roodox_sever_win.Cleanup.Janitors.{
  Item, Outcome, sort_items, is_expired, expire, count_removed, total_bytes, limit, limit_by,
  apply_policy,
}
use roodox_sever_win.Cleanup.Janitors.Ages.{Ages, AllFresh, all_fresh, sort-Ages}

abbrev pub always : Item → Bool
always a = true

expire_fresh :
    (retention : ℤ) (now : ℕ) (xs : List Item)
    → AllFresh retention now xs
    → expire retention now always xs ≡ record { kept = xs; count = 0; bytes = 0 }
unfolding expire
expire_fresh retention now [] f = refl
expire_fresh retention now (a ∷ xs) f = rw (f.0, expire_fresh retention now xs f.1) refl

-- The first `n` items are removed, and no fewer would do.
record RemovesLeast (P : List Item → Type 0) (n : ℕ) (xs : List Item) (o : Outcome) : Type 0 where
  kept : o.kept ≡ drop n xs
  count : o.count ≡ n
  bytes : o.bytes + total_bytes o.kept ≡ total_bytes xs
  holds : P o.kept
  least : (m : ℕ) → P (drop m xs) → n ≤ m

removes_none :
    (P : List Item → Type 0) (xs : List Item)
    → P xs
    → RemovesLeast P 0 xs (record { kept = xs; count = 0; bytes = 0 })
removes_none P xs h = record {
  kept = refl;
  count = refl;
  bytes = omega arith;
  holds = h;
  least = λ m k. omega arith;
}

removes_one :
    (P : List Item → Type 0) (n : ℕ) (x : Item) (xs : List Item) (o : Outcome)
    → (P (x ∷ xs) → 0 < 0)
    → RemovesLeast P n xs o
    → RemovesLeast P (suc n) (x ∷ xs) (count_removed true x o)
unfolding total_bytes
removes_one P n x xs o bad r = record {
  kept = r.kept;
  count = ap suc r.count;
  bytes = omega (arith, r.bytes);
  holds = r.holds;
  least = least;
}
  where
    least : (m : ℕ) → P (drop m (x ∷ xs)) → suc n ≤ m
    least zero k = absurd (omega (arith, bad k))
    least (suc m) k = omega (arith, r.least m k)

expire_removes :
    (retention : ℤ) (now : ℕ) (xs : List Item)
    → Ages xs
    → (n : ℕ) × RemovesLeast (AllFresh retention now) n xs (expire retention now always xs)
unfolding expire
expire_removes retention now [] h = (0, removes_none (AllFresh retention now) [] tt)
expire_removes retention now (x ∷ xs) h = elim (Bool-cases (is_expired retention now x)) [
  | inl e ↦
      (let (n, r) = expire_removes retention now xs h.1 in
        (suc n, rw e (removes_one (AllFresh retention now) n x xs _ (λ k. absurd (cc (e, k.0))) r)))
  | inr e ↦
      (let fresh = all_fresh retention now x xs e h.0 in
        (
          0,
          rw (e, expire_fresh retention now xs fresh)
              (removes_none (AllFresh retention now) (x ∷ xs) (e, fresh)),
        ))
]

limit_fits :
    (total max : ℕ) (xs : List Item)
    → leb total max ≡ true
    → limit total max always xs ≡ record { kept = xs; count = 0; bytes = 0 }
unfolding limit
limit_fits total max [] h = refl
limit_fits total max (x ∷ xs) h = rw (h, limit_fits total max xs h) refl

abbrev Below : ℕ → List Item → Type 0
Below max xs = total_bytes xs ≤ max

limit_removes :
    (max total : ℕ) (xs : List Item)
    → total ≡ total_bytes xs
    → (n : ℕ) × RemovesLeast (Below max) n xs (limit total max always xs)
unfolding limit total_bytes
limit_removes max total [] e = (0, removes_none (Below max) [] (omega arith))
limit_removes max total (x ∷ xs) e = elim (Bool-cases (leb total max)) [
  | inl f ↦
      (0, rw (f, limit_fits total max xs f) (removes_none (Below max) (x ∷ xs) (ground arith)))
  | inr f ↦
      (let (n, r) = limit_removes max (total - x.size) xs (omega arith) in
        (suc n, rw f (removes_one (Below max) n x xs _ (λ k. absurd (ground (arith, k))) r)))
]

-- No item has expired, and the sizes stay within the limit, where these are set.
pub record Fits (retention max_bytes : ℤ) (now : ℕ) (xs : List Item) : Type 0 where
  pub fresh : AllFresh retention now xs
  pub below : non_positive max_bytes ≡ false → total_bytes xs ≤ pos_part max_bytes

abbrev BelowIf : ℤ → List Item → Type 0
BelowIf max_bytes xs = non_positive max_bytes ≡ false → total_bytes xs ≤ pos_part max_bytes

limit_by_removes :
    (max_bytes : ℤ) (xs : List Item)
    → (n : ℕ) × RemovesLeast (BelowIf max_bytes) n xs (limit_by max_bytes always xs)
unfolding limit_by
limit_by_removes max_bytes xs = elim (Bool-cases (non_positive max_bytes)) [
  | inl e ↦ (0, rw e (removes_none (BelowIf max_bytes) xs (λ f. absurd (cc (e, f)))))
  | inr e ↦
      (let (n, r) = limit_removes (pos_part max_bytes) (total_bytes xs) xs refl in
        (
          n,
          rw e (record {
            kept = r.kept;
            count = r.count;
            bytes = r.bytes;
            holds = λ f. r.holds;
            least = λ m k. r.least m (k e);
          }),
        ))
]

drop_nil : (n : ℕ) → drop {A = Item} n [] ≡ []
drop_nil zero = refl
drop_nil (suc n) = refl

drop-drop : (a b : ℕ) (xs : List Item) → drop b (drop a xs) ≡ drop (a + b) xs
drop-drop zero b xs = (let e : b ≡ 0 + b = omega arith in ap (λ k. drop k xs) e)
drop-drop (suc a) b [] = drop_nil b ∙ sym (drop_nil (suc a + b))
drop-drop (suc a) b (x ∷ xs) =
    (let e : suc (a + b) ≡ suc a + b = omega arith in
      drop-drop a b xs ∙ ap (λ k. drop k (x ∷ xs)) e)

AllFresh-drop :
    (retention : ℤ) (now n : ℕ) (xs : List Item)
    → AllFresh retention now xs
    → AllFresh retention now (drop n xs)
AllFresh-drop retention now zero xs h = h
AllFresh-drop retention now (suc n) [] h = tt
AllFresh-drop retention now (suc n) (x ∷ xs) h = AllFresh-drop retention now n xs h.1

-- The policy, as the least number of the oldest items that must go.
pub record RemovesOldest (retention max_bytes : ℤ) (now : ℕ) (items : List Item) (o : Outcome)
    : Type 0 where
  pub kept : o.kept ≡ drop o.count (sort_items items)
  pub bytes : o.bytes + total_bytes o.kept ≡ total_bytes (sort_items items)
  pub fits : Fits retention max_bytes now o.kept
  pub least : (m : ℕ) → Fits retention max_bytes now (drop m (sort_items items)) → o.count ≤ m

-- The two loops, one after the other.
two_loops :
    (retention max_bytes : ℤ) (now a b : ℕ) (xs : List Item) (o p : Outcome)
    → RemovesLeast (AllFresh retention now) a xs o
    → RemovesLeast (BelowIf max_bytes) b o.kept p
    → (p.kept ≡ drop (o.count + p.count) xs)
      × ((o.bytes + p.bytes) + total_bytes p.kept ≡ total_bytes xs)
      × Fits retention max_bytes now p.kept
      × ((m : ℕ) → Fits retention max_bytes now (drop m xs) → o.count + p.count ≤ m)
two_loops retention max_bytes now a b xs o p r q = (
  q.kept
      ∙ ap (drop b) r.kept
      ∙ drop-drop a b xs
      ∙ ap (λ k. drop k xs) (omega (arith, r.count, q.count)),
  omega (arith, r.bytes, q.bytes),
  record {
    fresh =
        subst (AllFresh retention now) (sym q.kept) (AllFresh-drop retention now b o.kept r.holds);
    below = q.holds;
  },
  λ m f. least m f (r.least m f.fresh),
)
  where
    least : (m : ℕ) → Fits retention max_bytes now (drop m xs) → a ≤ m → o.count + p.count ≤ m
    least m f le =
        let e : a + (m - a) ≡ m = omega arith in
        let same : drop (m - a) o.kept ≡ drop m xs =
          ap (drop (m - a)) r.kept ∙ drop-drop a (m - a) xs ∙ ap (λ k. drop k xs) e in
        omega
          (arith, r.count, q.count, q.least (m - a) (subst (BelowIf max_bytes) (sym same) f.below))

-- The cleanup policy when every removal succeeds: the items that are removed are the first ones
-- in the order of age, as few as will do for no item to have expired and the sizes to stay
-- within the limit, where these are set; the removed and the kept bytes add up.
pub apply_policy-RemovesOldest :
    (retention max_bytes : ℤ) (now : ℕ) (items : List Item)
    → RemovesOldest retention max_bytes now items
        (apply_policy retention max_bytes now always items)
unfolding apply_policy
apply_policy-RemovesOldest retention max_bytes now items =
    let (a, r) = expire_removes retention now (sort_items items) (sort-Ages items) in
    let (b, q) = limit_by_removes max_bytes (expire retention now always (sort_items items)).kept in
    let (w, x, y, z) = two_loops retention max_bytes now a b (sort_items items) _ _ r q in
    record { kept = w; bytes = x; fits = y; least = z }
