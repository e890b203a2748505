-- ===== src/Observability/Sampler/Ring.antt =====
-- What the ring of a sampler stands for.
use roodox_sever_win.Base.{
  ℕ, zero, suc, ◌+◌, ◌-◌, ◌%◌, ◌≤◌, ◌<◌, ◌≡◌, refl, sym, ap, ◌∙◌, inl, inr, ◌⊎◌, Bool-cases, List,
  [], ◌∷◌, ◌++◌, length, length-append, drop, length-drop, ℤ, pos, ltb, arith, min,
}
use mathlib.Core.Path.{subst}
use native.Mathlib.Nat.{mod_self, mod-eq_of_lt}
use roodox_sever_win.Observability.Sampler.{
  DurationSampler, empty_sampler, milliseconds, set_at, add,
}

-- The samples of a list of durations.
abbrev pub samples : List ℤ → List ℕ
samples [] = []
samples (d ∷ ds) = milliseconds d ∷ samples ds

unfoldable pub adds : DurationSampler → List ℤ → DurationSampler
adds s [] = s
adds s (d ∷ ds) = adds (add s d) ds

-- The last `n` elements.
abbrev pub last : ℕ → List ℕ → List ℕ
last n xs = drop (length xs - n) xs

length_cases : (xs : List ℕ) → (xs ≡ []) ⊎ (0 < length xs)
length_cases [] = inl refl
length_cases (x ∷ xs) = inr (omega arith)

lt_or_ge : (a b : ℕ) → (a < b) ⊎ (b ≤ a)
lt_or_ge a b = elim (Bool-cases (ltb a b)) [
  | inl e ↦ inl (ground arith)
  | inr e ↦ inr (ground arith)
]

-- What the ring stands for: the values from `next` on are older than those before it.
pub data Holds (n : ℕ) (history : List ℕ) : DurationSampler → Type 0 where
  holds :
      (newer older : List ℕ)
      → length newer < suc n
      → (length newer + length older < suc n → length newer ≡ 0)
      → length newer + length older ≤ suc n
      → older ++ newer ≡ last (suc n) history
      → Holds n history (record {
        values = newer ++ older;
        limit = pos (suc n);
        next = length newer;
        count = length history;
      })

append_nil : (xs : List ℕ) → xs ++ [] ≡ xs
append_nil [] = refl
append_nil (x ∷ xs) = ap (λ t. x ∷ t) (append_nil xs)

append_assoc : (xs ys zs : List ℕ) → (xs ++ ys) ++ zs ≡ xs ++ (ys ++ zs)
append_assoc [] ys zs = refl
append_assoc (x ∷ xs) ys zs = ap (λ t. x ∷ t) (append_assoc xs ys zs)

drop_all : (n : ℕ) (xs : List ℕ) → length xs ≤ n → drop n xs ≡ []
drop_all zero [] h = refl
drop_all zero (x ∷ xs) h = ground arith
drop_all (suc n) [] h = refl
drop_all (suc n) (x ∷ xs) h = drop_all n xs (omega arith)

drop-append : (n : ℕ) (xs ys : List ℕ) → n ≤ length xs → drop n (xs ++ ys) ≡ drop n xs ++ ys
drop-append zero xs ys h = refl
drop-append (suc n) [] ys h = ground arith
drop-append (suc n) (x ∷ xs) ys h = drop-append n xs ys (omega arith)

drop-suc : (n : ℕ) (xs : List ℕ) → drop (suc n) xs ≡ drop 1 (drop n xs)
drop-suc zero xs = refl
drop-suc (suc n) [] = refl
drop-suc (suc n) (x ∷ xs) = drop-suc n xs

-- One more sample while there is room.
last_grows :
    (n : ℕ) (h : List ℕ) (x : ℕ) → length h < n → last n (h ++ (x ∷ [])) ≡ last n h ++ (x ∷ [])
last_grows n h x k =
    let a : length (h ++ (x ∷ [])) - n ≡ 0 = omega (arith, length-append h (x ∷ [])) in
    let b : length h - n ≡ 0 = omega arith in rw (a, b) refl

-- One more sample in place of the oldest.
last_turns :
    (n : ℕ) (h : List ℕ) (x : ℕ)
    → n ≤ length h
    → 0 < n
    → last n (h ++ (x ∷ [])) ≡ drop 1 (last n h) ++ (x ∷ [])
last_turns n h x k p =
    let a : length (h ++ (x ∷ [])) - n ≡ suc (length h - n) =
      omega (arith, length-append h (x ∷ [])) in
    rw a (
      drop-append (suc (length h - n)) h (x ∷ []) (omega arith)
      ∙ ap (λ t. t ++ (x ∷ [])) (drop-suc (length h - n) h))

set_at-append :
    (newer : List ℕ) (x y : ℕ) (older : List ℕ)
    → set_at (length newer) x (newer ++ (y ∷ older)) ≡ newer ++ (x ∷ older)
unfolding set_at
set_at-append [] x y older = refl
set_at-append (z ∷ newer) x y older = ap (λ t. z ∷ t) (set_at-append newer x y older)

Holds-of :
    (n : ℕ) (history newer older vs : List ℕ) (k c : ℕ)
    → vs ≡ newer ++ older
    → k ≡ length newer
    → c ≡ length history
    → length newer < suc n
    → (length newer + length older < suc n → length newer ≡ 0)
    → length newer + length older ≤ suc n
    → older ++ newer ≡ last (suc n) history
    → Holds n history (record { values = vs; limit = pos (suc n); next = k; count = c })
Holds-of n history newer older vs k c a b e f g h i = rw (a, b, e) (holds newer older f g h i)

add_room :
    (n : ℕ) (vs : List ℕ) (k c : ℕ) (d : ℤ)
    → length vs < suc n
    → add (record { values = vs; limit = pos (suc n); next = k; count = c }) d ≡ record {
      values = vs ++ (milliseconds d ∷ []);
      limit = pos (suc n);
      next = k;
      count = suc c;
    }
unfolding add
add_room n vs k c d h = ground arith

add_full :
    (n : ℕ) (vs : List ℕ) (k c : ℕ) (d : ℤ)
    → suc n ≤ length vs
    → add (record { values = vs; limit = pos (suc n); next = k; count = c }) d ≡ record {
      values = set_at k (milliseconds d) vs;
      limit = pos (suc n);
      next = suc k % suc n;
      count = suc c;
    }
unfolding add
add_full n vs k c d h = ground arith

length-last : (n : ℕ) (xs : List ℕ) → length (last n xs) ≡ min (length xs) n
length-last n xs = omega (arith, length-drop (length xs - n) xs)

length_nil : (xs : List ℕ) → length xs ≡ 0 → xs ≡ []
length_nil [] h = refl
length_nil (x ∷ xs) h = ground arith

room_case :
    (n : ℕ) (h newer older : List ℕ) (d : ℤ)
    → length newer ≡ 0
    → length newer + length older < suc n
    → older ++ newer ≡ last (suc n) h
    → Holds n (h ++ (milliseconds d ∷ [])) (record {
      values = (newer ++ older) ++ (milliseconds d ∷ []);
      limit = pos (suc n);
      next = length newer;
      count = suc (length h);
    })
room_case n h newer older d z room e =
    let x = milliseconds d ∷ [] in
    let nil = length_nil newer z in
    let len : length older ≡ min (length h) (suc n) =
      ap length (sym (append_nil older) ∙ ap (λ t. older ++ t) (sym nil) ∙ e)
      ∙ length-last (suc n) h in
    Holds-of n (h ++ x) [] (older ++ x) ((newer ++ older) ++ x) (length newer) (suc (length h))
      (ap (λ t. (t ++ older) ++ x) nil) z (omega (arith, length-append h x)) (omega arith)
      (λ _. refl) (omega (arith, length-append older x))
      (append_nil (older ++ x)
        ∙ ap (λ t. t ++ x) (sym (append_nil older) ∙ ap (λ t. older ++ t) (sym nil) ∙ e)
        ∙ sym (last_grows (suc n) h (milliseconds d) (omega arith)))

-- The ring turns by one.
turn_case :
    (n : ℕ) (h newer older : List ℕ) (y : ℕ) (d : ℤ)
    → length newer + suc (length older) ≡ suc n
    → (y ∷ older) ++ newer ≡ last (suc n) h
    → Holds n (h ++ (milliseconds d ∷ [])) (record {
      values = set_at (length newer) (milliseconds d) (newer ++ (y ∷ older));
      limit = pos (suc n);
      next = suc (length newer) % suc n;
      count = suc (length h);
    })
turn_case n h newer older y d full e =
    let x = milliseconds d ∷ [] in
    let len : suc (length older + length newer) ≡ min (length h) (suc n) =
      sym (ap suc (length-append older newer)) ∙ ap length e ∙ length-last (suc n) h in
    let new : older ++ (newer ++ x) ≡ last (suc n) (h ++ x) =
      sym (append_assoc older newer x)
      ∙ ap (λ t. drop 1 t ++ x) e
      ∙ sym (last_turns (suc n) h (milliseconds d) (omega arith) (omega arith)) in
    elim (length_cases older) [
      | inl z ↦
          Holds-of n (h ++ x) [] (newer ++ x) _ _ _
            (set_at-append newer (milliseconds d) y older
              ∙ ap (λ t. newer ++ (milliseconds d ∷ t)) z)
            (ap (λ t. t % suc n) (omega (arith, ap length z)) ∙ mod_self (suc n))
            (omega (arith, length-append h x)) (omega arith) (λ _. refl)
            (omega (arith, length-append newer x, ap length z))
            (append_nil (newer ++ x) ∙ ap (λ t. t ++ (newer ++ x)) (sym z) ∙ new)
      | inr p ↦
          Holds-of n (h ++ x) (newer ++ x) older _ _ _
            (set_at-append newer (milliseconds d) y older ∙ sym (append_assoc newer x older))
            (mod-eq_of_lt (omega arith) ∙ omega (arith, length-append newer x))
            (omega (arith, length-append h x)) (omega (arith, length-append newer x))
            (λ q. absurd (omega (arith, length-append newer x)))
            (omega (arith, length-append newer x)) new
    ]

full_case :
    (n : ℕ) (h newer older : List ℕ) (d : ℤ)
    → length newer < suc n
    → length newer + length older ≡ suc n
    → older ++ newer ≡ last (suc n) h
    → Holds n (h ++ (milliseconds d ∷ [])) (record {
      values = set_at (length newer) (milliseconds d) (newer ++ older);
      limit = pos (suc n);
      next = suc (length newer) % suc n;
      count = suc (length h);
    })
full_case n h newer [] d k full e = absurd (omega arith)
full_case n h newer (y ∷ older) d k full e = turn_case n h newer older y d full e

add-Holds :
    (n : ℕ) (h : List ℕ) (s : DurationSampler) (d : ℤ)
    → Holds n h s
    → Holds n (h ++ (milliseconds d ∷ [])) (add s d)
add-Holds n h _ d (holds newer older below room fits e) =
    elim (lt_or_ge (length newer + length older) (suc n)) [
      | inl lt ↦
          subst (Holds n (h ++ (milliseconds d ∷ [])))
            (sym (
              add_room n (newer ++ older) (length newer) (length h) d
                (omega (arith, length-append newer older))))
            (room_case n h newer older d (room lt) lt e)
      | inr ge ↦
          subst (Holds n (h ++ (milliseconds d ∷ [])))
            (sym (
              add_full n (newer ++ older) (length newer) (length h) d
                (omega (arith, length-append newer older))))
            (full_case n h newer older d below (omega arith) e)
    ]

adds-Holds :
    (n : ℕ) (h : List ℕ) (s : DurationSampler) (ds : List ℤ)
    → Holds n h s
    → Holds n (h ++ samples ds) (adds s ds)
unfolding adds
adds-Holds n h s [] a = subst (λ t. Holds n t s) (sym (append_nil h)) a
adds-Holds n h s (d ∷ ds) a =
    subst (λ t. Holds n t (adds (add s d) ds)) (append_assoc h (milliseconds d ∷ []) (samples ds))
      (adds-Holds n (h ++ (milliseconds d ∷ [])) (add s d) ds (add-Holds n h s d a))

-- The ring of a sampler with a positive limit stands for the list of all durations that were
-- added: read from its next index on and around, it has the last of them, as many as the limit,
-- in order, and its count is the length of the list.
pub adds-Holds_lem :
    (n : ℕ) (ds : List ℤ) → Holds n (samples ds) (adds (empty_sampler (pos (suc n))) ds)
adds-Holds_lem n ds = adds-Holds n [] (empty_sampler (pos (suc n))) ds (
    holds [] [] (omega arith) (λ _. refl) (omega arith)
      (sym (drop_all (0 - suc n) [] (omega arith))))
