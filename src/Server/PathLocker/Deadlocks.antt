-- ===== src/Server/PathLocker/Deadlocks.antt =====
-- The progress of calls that lock their paths in the order of LockMany.
use roodox_sever_win.Base.{
  ℕ, ◌≡◌, refl, sym, ◌⊎◌, inl, inr, true, false, Bool-cases, List, [], ◌∷◌, Bytes, bytes_eq,
  bytes_eq_iff, bytes_less,
}
use mathlib.Core.Path.{subst}
use roodox_sever_win.Server.PathLocker.{
  contains_path, Process, starts, is_free, locks, unlocks, Step, here, there, Reaches,
}
use roodox_sever_win.Server.PathLocker.Orders.{less_irrefl, less_trans}
use roodox_sever_win.Server.PathLocker.Ordered.{
  AllBelow, AllOrdered, Decreases, Reaches-AllOrdered, starts-AllOrdered,
}

-- Every call has returned.
abbrev pub IsDone : List Process → Type 0
IsDone [] = Unit
IsDone (x ∷ xs) = ((x.held ≡ []) × (x.wanted ≡ [])) × IsDone xs

-- No held path of the list is greater.
abbrev NoneAbove : Bytes → List Bytes → Type 0
NoneAbove p [] = Unit
NoneAbove p (q ∷ qs) = (bytes_less p q ≡ false) × NoneAbove p qs

abbrev AllNoneAbove : Bytes → List Process → Type 0
AllNoneAbove p [] = Unit
AllNoneAbove p (x ∷ xs) = NoneAbove p x.held × AllNoneAbove p xs

-- Some process holds the path as its greatest.
data Tops (h : Bytes) : List Process → Type 0 where
  at_front :
      (held wanted : List Bytes) (xs : List Process)
      → Tops h (record { held = h ∷ held; wanted = wanted } ∷ xs)
  later : (x : Process) (xs : List Process) → Tops h xs → Tops h (x ∷ xs)

abbrev HoldNothing : List Process → Type 0
HoldNothing [] = Unit
HoldNothing (x ∷ xs) = (x.held ≡ []) × HoldNothing xs

NoneAbove-below :
    (p q : Bytes) (qs : List Bytes) → bytes_less p q ≡ false → AllBelow q qs → NoneAbove p qs
NoneAbove-below p q [] h a = tt
NoneAbove-below p q (r ∷ rs) h a = (
  elim (Bool-cases (bytes_less p r)) [
    | inl e ↦ absurd (cc (less_trans p r q e a.0, h))
    | inr e ↦ e
  ],
  NoneAbove-below p q rs h a.1,
)

NoneAbove-less :
    (p q : Bytes) (qs : List Bytes) → bytes_less q p ≡ true → NoneAbove q qs → NoneAbove p qs
NoneAbove-less p q [] h a = tt
NoneAbove-less p q (r ∷ rs) h a = (
  elim (Bool-cases (bytes_less p r)) [
    | inl e ↦ absurd (cc (less_trans q p r h e, a.0))
    | inr e ↦ e
  ],
  NoneAbove-less p q rs h a.1,
)

AllNoneAbove-less :
    (p q : Bytes) (xs : List Process)
    → bytes_less q p ≡ true
    → AllNoneAbove q xs
    → AllNoneAbove p xs
AllNoneAbove-less p q [] h a = tt
AllNoneAbove-less p q (x ∷ xs) h a =
    (NoneAbove-less p q x.held h a.0, AllNoneAbove-less p q xs h a.1)

AllNoneAbove-nothing : (p : Bytes) (xs : List Process) → HoldNothing xs → AllNoneAbove p xs
AllNoneAbove-nothing p [] n = tt
AllNoneAbove-nothing p (x ∷ xs) n =
    (subst (NoneAbove p) (sym n.0) tt, AllNoneAbove-nothing p xs n.1)

-- Nothing is held, or there is a greatest held path.
greatest :
    (xs : List Process)
    → AllOrdered xs
    → HoldNothing xs ⊎ ((h : Bytes) × Tops h xs × AllNoneAbove h xs)
greatest [] o = inl tt
greatest (x ∷ xs) o = front x.held x.wanted xs o.0.held (greatest xs o.1)
  where
    front :
        (held wanted : List Bytes) (xs : List Process)
        → Decreases held
        → HoldNothing xs ⊎ ((h : Bytes) × Tops h xs × AllNoneAbove h xs)
        → HoldNothing (record { held = held; wanted = wanted } ∷ xs)
          ⊎ ((h : Bytes) × Tops h (record { held = held; wanted = wanted } ∷ xs)
              × AllNoneAbove h (record { held = held; wanted = wanted } ∷ xs))
    front [] wanted xs d (inl n) = inl (refl, n)
    front [] wanted xs d (inr (h, t, a)) = inr (h, later _ xs t, (tt, a))
    front (p ∷ ps) wanted xs d (inl n) = inr (
      p,
      at_front ps wanted xs,
      ((less_irrefl p, NoneAbove-below p p ps (less_irrefl p) d.0), AllNoneAbove-nothing p xs n),
    )
    front (p ∷ ps) wanted xs d (inr (h, t, a)) = elim (Bool-cases (bytes_less h p)) [
      | inl e ↦ inr (
        p,
        at_front ps wanted xs,
        ((less_irrefl p, NoneAbove-below p p ps (less_irrefl p) d.0), AllNoneAbove-less p h xs e a),
      )
      | inr e ↦ inr (h, later _ xs t, ((e, NoneAbove-below h p ps e d.0), a))
    ]

not_contained :
    (w h : Bytes) (qs : List Bytes)
    → bytes_less h w ≡ true
    → NoneAbove h qs
    → contains_path w qs ≡ false
unfolding contains_path
not_contained w h [] l a = refl
not_contained w h (q ∷ qs) l a = elim (Bool-cases (bytes_eq w q)) [
  | inl e ↦ absurd (cc ((bytes_eq_iff w q).0 e, l, a.0))
  | inr e ↦ rw e (not_contained w h qs l a.1)
]

free_above :
    (w h : Bytes) (xs : List Process)
    → bytes_less h w ≡ true
    → AllNoneAbove h xs
    → is_free w xs ≡ true
unfolding is_free
free_above w h [] l a = refl
free_above w h (x ∷ xs) l a = rw (not_contained w h x.held l a.0) (free_above w h xs l a.1)

free_nothing : (w : Bytes) (xs : List Process) → HoldNothing xs → is_free w xs ≡ true
unfolding is_free contains_path
free_nothing w [] n = refl
free_nothing w (x ∷ xs) n = rw n.0 (free_nothing w xs n.1)

-- The process with the greatest path moves.
top_moves :
    (all : List Process) (h : Bytes) (xs : List Process)
    → AllNoneAbove h all
    → AllOrdered xs
    → Tops h xs
    → (ys : List Process) × Step all xs ys
top_moves all h _ a o (at_front held [] xs) = (_, here _ _ xs (unlocks h held))
top_moves all h _ a o (at_front held (w ∷ ws) xs) =
    (_, here _ _ xs (locks (h ∷ held) w ws (free_above w h all o.0.above.0.0 a)))
top_moves all h _ a o (later x xs t) =
    let (ys, s) = top_moves all h xs a o.1 t in (_, there x xs ys s)

-- With nothing held, any call that wants a path moves.
first_moves :
    (all xs : List Process)
    → HoldNothing all
    → HoldNothing xs
    → IsDone xs ⊎ ((ys : List Process) × Step all xs ys)
first_moves all [] n m = inl tt
first_moves all (x ∷ xs) n m = front x.held x.wanted xs m.0 (first_moves all xs n m.1)
  where
    front :
        (held wanted : List Bytes) (xs : List Process)
        → held ≡ []
        → IsDone xs ⊎ ((ys : List Process) × Step all xs ys)
        → IsDone (record { held = held; wanted = wanted } ∷ xs)
          ⊎ ((ys : List Process) × Step all (record { held = held; wanted = wanted } ∷ xs) ys)
    front held [] xs e (inl d) = inl ((e, refl), d)
    front held [] xs e (inr (ys, s)) = inr (_, there _ xs ys s)
    front held (w ∷ ws) xs e r = inr (_, here _ _ xs (locks held w ws (free_nothing w all n)))

-- Some call can take a step, or each has returned.
pub progress :
    (xs : List Process) → AllOrdered xs → IsDone xs ⊎ ((ys : List Process) × Step xs xs ys)
progress xs o = elim (greatest xs o) [
  | inl n ↦ first_moves xs xs n n
  | inr (h, t, a) ↦ inr (top_moves xs h xs a o t)
]

-- No deadlock: whatever calls start together, each with the paths that it gives to Lock or
-- LockMany, and however their steps interleave, in every state that they reach each call has
-- returned or some call can take a step, a lock of a free path or an unlock.
pub no_deadlock :
    (pss : List (List Bytes)) (n : ℕ) (xs : List Process)
    → Reaches (starts pss) n xs
    → IsDone xs ⊎ ((ys : List Process) × Step xs xs ys)
no_deadlock pss n xs r =
    progress xs (Reaches-AllOrdered (starts pss) xs n (starts-AllOrdered pss) r)
