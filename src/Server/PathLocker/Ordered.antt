-- ===== src/Server/PathLocker/Ordered.antt =====
-- The order of what each process holds and wants, through the steps.
use roodox_sever_win.Base.{ℕ, ◌≡◌, true, List, [], ◌∷◌, Bytes, bytes_less}
use roodox_sever_win.Server.PathLocker.{
  Process, starts, Move, locks, unlocks, Step, here, there, Reaches, start, step,
}
use roodox_sever_win.Server.PathLocker.Orders.{AllAbove, Increases, lock_order_lem}

-- The path is greater than each of the list.
abbrev pub AllBelow : Bytes → List Bytes → Type 0
AllBelow p [] = Unit
AllBelow p (q ∷ qs) = (bytes_less q p ≡ true) × AllBelow p qs

-- The mutexes are held in order, the greatest first.
abbrev pub Decreases : List Bytes → Type 0
Decreases [] = Unit
Decreases (p ∷ ps) = AllBelow p ps × Decreases ps

-- What is wanted lies above what is held.
abbrev pub Above : List Bytes → List Bytes → Type 0
Above [] ws = Unit
Above (h ∷ hs) ws = AllAbove h ws × Above hs ws

pub record IsOrdered (x : Process) : Type 0 where
  pub held : Decreases x.held
  pub wanted : Increases x.wanted
  pub above : Above x.held x.wanted

abbrev pub AllOrdered : List Process → Type 0
AllOrdered [] = Unit
AllOrdered (x ∷ xs) = IsOrdered x × AllOrdered xs

Above-tail : (hs : List Bytes) (w : Bytes) (ws : List Bytes) → Above hs (w ∷ ws) → Above hs ws
Above-tail [] w ws a = tt
Above-tail (h ∷ hs) w ws a = (a.0.1, Above-tail hs w ws a.1)

Above-next : (hs : List Bytes) (w : Bytes) (ws : List Bytes) → Above hs (w ∷ ws) → AllBelow w hs
Above-next [] w ws a = tt
Above-next (h ∷ hs) w ws a = (a.0.0, Above-next hs w ws a.1)

Above-none : (hs : List Bytes) → Above hs []
Above-none [] = tt
Above-none (h ∷ hs) = (tt, Above-none hs)

Move-IsOrdered : (all : List Process) (x y : Process) → Move all x y → IsOrdered x → IsOrdered y
Move-IsOrdered all _ _ (locks held w ws free) o = record {
  held = (Above-next held w ws o.above, o.held);
  wanted = o.wanted.1;
  above = (o.wanted.0, Above-tail held w ws o.above);
}
Move-IsOrdered all _ _ (unlocks h held) o = record {
  held = o.held.1;
  wanted = tt;
  above = Above-none held;
}

pub Step-AllOrdered : (all xs ys : List Process) → Step all xs ys → AllOrdered xs → AllOrdered ys
Step-AllOrdered all _ _ (here x y xs m) o = (Move-IsOrdered all x y m o.0, o.1)
Step-AllOrdered all _ _ (there x xs ys s) o = (o.0, Step-AllOrdered all xs ys s o.1)

pub starts-AllOrdered : (pss : List (List Bytes)) → AllOrdered (starts pss)
starts-AllOrdered [] = tt
starts-AllOrdered (ps ∷ pss) =
    (record { held = tt; wanted = (lock_order_lem ps).0; above = tt }, starts-AllOrdered pss)

pub Reaches-AllOrdered :
    (first xs : List Process) (n : ℕ) → AllOrdered first → Reaches first n xs → AllOrdered xs
Reaches-AllOrdered first _ _ o start = o
Reaches-AllOrdered first _ _ o (step n xs ys r s) =
    Step-AllOrdered xs xs ys s (Reaches-AllOrdered first xs n o r)
