-- ===== src/Server/PathLocker/Endings.antt =====
-- Every run of calls that lock their paths in the order of LockMany comes to an end.
use roodox_sever_win.Base.{
  ℕ, zero, suc, ◌+◌, ◌-◌, ◌≤◌, ◌≡◌, refl, inl, inr, List, [], ◌∷◌, Bytes, length, arith,
}
use roodox_sever_win.Server.PathLocker.{
  Process, starts, Move, locks, unlocks, Step, here, there, Reaches, start, step,
}
use roodox_sever_win.Server.PathLocker.Ordered.{
  AllOrdered, Step-AllOrdered, Reaches-AllOrdered, starts-AllOrdered,
}
use roodox_sever_win.Server.PathLocker.Deadlocks.{IsDone, progress}

-- The steps that a process has left.
abbrev left : Process → ℕ
left x = length x.held + (length x.wanted + length x.wanted)

unfoldable pub total_left : List Process → ℕ
total_left [] = 0
total_left (x ∷ xs) = left x + total_left xs

one_less : (all xs ys : List Process) → Step all xs ys → total_left xs ≡ suc (total_left ys)
unfolding total_left
one_less all _ _ (here x y xs m) = omega (arith, move_uses all x y m)
  where
    move_uses : (all : List Process) (x y : Process) → Move all x y → left x ≡ suc (left y)
    move_uses all _ _ (locks held w ws free) = omega arith
    move_uses all _ _ (unlocks h held) = omega arith
one_less all _ _ (there x xs ys s) = omega (arith, one_less all xs ys s)

steps_left :
    (first xs : List Process) (n : ℕ) → Reaches first n xs → n + total_left xs ≡ total_left first
steps_left first _ _ start = omega arith
steps_left first _ _ (step n xs ys r s) =
    omega (arith, steps_left first xs n r, one_less xs xs ys s)

IsDone-at_none : (xs : List Process) → total_left xs ≡ 0 → IsDone xs
unfolding total_left
IsDone-at_none [] h = tt
IsDone-at_none (x ∷ xs) h = (
  (length_none x.held (omega arith), length_none x.wanted (omega arith)),
  IsDone-at_none xs (omega arith),
)
  where
    length_none : (ps : List Bytes) → length ps ≡ 0 → ps ≡ []
    length_none [] e = refl
    length_none (p ∷ ps) e = absurd (omega arith)

none_left : (xs : List Process) → IsDone xs → total_left xs ≡ 0
unfolding total_left
none_left [] d = refl
none_left (x ∷ xs) d = rw (d.0.0, d.0.1) (omega (arith, none_left xs d.1))

-- A run with one more step at its start.
from_step :
    (xs ys zs : List Process) (n : ℕ) → Step xs xs ys → Reaches ys n zs → Reaches xs (suc n) zs
from_step xs _ _ _ s start = step 0 xs _ start s
from_step xs ys _ _ s (step n zs ws r t) = step (suc n) zs ws (from_step xs ys zs n s r) t

complete :
    (k : ℕ) (xs : List Process)
    → AllOrdered xs
    → total_left xs ≡ k
    → (ys : List Process) × Reaches xs k ys × IsDone ys
complete zero xs o e = (xs, start, IsDone-at_none xs e)
complete (suc k) xs o e = elim (progress xs o) [
  | inl d ↦ absurd (omega (arith, none_left xs d))
  | inr (ys, s) ↦
      (let (zs, r, d) =
          complete k ys (Step-AllOrdered xs xs ys s o) (omega (arith, one_less xs xs ys s)) in
        (zs, from_step xs ys zs k s r, d))
]

-- Whatever calls start together, each with the paths that it gives to Lock or LockMany, and
-- however their steps interleave: a run has at most the steps that they need to lock and unlock
-- each of their paths once, and from every state that it reaches the steps that are left of
-- these can be taken, after which each call has returned.
pub runs_end :
    (pss : List (List Bytes)) (n : ℕ) (xs : List Process)
    → Reaches (starts pss) n xs
    → (n ≤ total_left (starts pss))
      × ((ys : List Process) × Reaches xs (total_left (starts pss) - n) ys × IsDone ys)
runs_end pss n xs r =
    let sum = steps_left (starts pss) xs n r in
    (
      omega (arith, sum),
      complete (total_left (starts pss) - n) xs
          (Reaches-AllOrdered (starts pss) xs n (starts-AllOrdered pss) r) (omega (arith, sum)),
    )
