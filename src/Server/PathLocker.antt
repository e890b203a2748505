-- ===== src/Server/PathLocker.antt =====
-- PathLocker of internal/server/path_locker.go: a mutex for each path, and calls that lock one path
-- or several. A call is a process: it locks its paths one by one, and unlocks them, the last one
-- first, when its handler is done.
pub mod Orders
pub mod Ordered
pub mod Deadlocks
pub mod Endings
mod Tests
use roodox_sever_win.Base.{
  ℕ, suc, ◌≡◌, Bool, true, false, List, [], ◌∷◌, Bytes, bytes_eq, bytes_less, if◌then◌else◌,
}

unfoldable pub contains_path : Bytes → List Bytes → Bool
contains_path p [] = false
contains_path p (q ∷ qs) = let rest = contains_path p qs in if bytes_eq p q then true else rest

-- The paths that are not in `seen`, each once.
unfoldable pub without_repeats : List Bytes → List Bytes → List Bytes
unfolding contains_path
without_repeats seen [] = []
without_repeats seen (p ∷ ps) =
    let skip = without_repeats seen ps in
    let keep = p ∷ without_repeats (p ∷ seen) ps in if contains_path p seen then skip else keep

-- sort.Strings
unfoldable pub insert_path : Bytes → List Bytes → List Bytes
insert_path p [] = p ∷ []
insert_path p (q ∷ qs) =
    let rest = insert_path p qs in if bytes_less p q then p ∷ q ∷ qs else q ∷ rest

unfoldable pub sort_paths : List Bytes → List Bytes
unfolding insert_path
sort_paths [] = []
sort_paths (p ∷ ps) = insert_path p (sort_paths ps)

-- The order in which LockMany locks its paths; Lock has one path.
unfoldable pub lock_order : List Bytes → List Bytes
unfolding without_repeats sort_paths
lock_order ps = sort_paths (without_repeats [] ps)

-- A call, with the mutexes that it holds, the last one first, and those that it has to lock yet.
pub record Process : Type 0 where
  pub held : List Bytes
  pub wanted : List Bytes

-- LockMany(paths...), before it has locked anything.
abbrev pub lock_many : List Bytes → Process
lock_many ps = record { held = []; wanted = lock_order ps }

abbrev pub starts : List (List Bytes) → List Process
starts [] = []
starts (ps ∷ pss) = lock_many ps ∷ starts pss

-- No process holds the mutex of the path.
unfoldable pub is_free : Bytes → List Process → Bool
unfolding contains_path
is_free p [] = true
is_free p (x ∷ xs) = let rest = is_free p xs in if contains_path p x.held then false else rest

-- A process locks its next path, when the mutex is free, or unlocks the path that it locked last.
pub data Move (all : List Process) : Process → Process → Type 0 where
  locks :
      (held : List Bytes) (w : Bytes) (ws : List Bytes)
      → is_free w all ≡ true
      → Move all (record { held = held; wanted = w ∷ ws }) (record { held = w ∷ held; wanted = ws })
  unlocks :
      (h : Bytes) (held : List Bytes)
      → Move all (record { held = h ∷ held; wanted = [] }) (record { held = held; wanted = [] })

-- One of the processes moves.
pub data Step (all : List Process) : List Process → List Process → Type 0 where
  here : (x y : Process) (xs : List Process) → Move all x y → Step all (x ∷ xs) (y ∷ xs)
  there : (x : Process) (xs ys : List Process) → Step all xs ys → Step all (x ∷ xs) (x ∷ ys)

-- The systems that are reached in a number of steps.
pub data Reaches (first : List Process) : ℕ → List Process → Type 0 where
  start : Reaches first 0 first
  step :
      (n : ℕ) (xs ys : List Process) → Reaches first n xs → Step xs xs ys → Reaches first (suc n) ys
