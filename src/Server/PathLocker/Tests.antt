-- ===== src/Server/PathLocker/Tests.antt =====
-- Two renames between two paths, in opposite directions.
use roodox_sever_win.Base.{
  ◌≤◌, ◌-◌, ◌≡◌, refl, ◌⊎◌, List, [], ◌∷◌, true, Bytes, codes, bytes_less, bytes_eq,
}
use roodox_sever_win.Server.PathLocker.{
  contains_path, Process, lock_order, starts, is_free, locks, Step, here, Reaches, start, step,
  sort_paths, without_repeats, insert_path,
}
use roodox_sever_win.Server.PathLocker.Deadlocks.{IsDone, no_deadlock}
use roodox_sever_win.Server.PathLocker.Endings.{total_left, runs_end}

abbrev renames : List (List Bytes)
renames = (codes "b" ∷ codes "a" ∷ []) ∷ (codes "a" ∷ codes "b" ∷ []) ∷ []

abbrev waiting : Process
waiting = record { held = []; wanted = codes "a" ∷ codes "b" ∷ [] }

abbrev holding : Process
holding = record { held = codes "a" ∷ []; wanted = codes "b" ∷ [] }

all_wait : starts renames ≡ waiting ∷ waiting ∷ []
unfolding lock_order sort_paths without_repeats insert_path contains_path bytes_less bytes_eq
all_wait = refl

a_is_free : is_free (codes "a") (waiting ∷ waiting ∷ []) ≡ true
unfolding is_free contains_path
a_is_free = refl

first_locks : Step (starts renames) (starts renames) (holding ∷ waiting ∷ [])
first_locks =
    rw all_wait
      (here waiting holding (waiting ∷ []) (locks [] (codes "a") (codes "b" ∷ []) a_is_free))

reached : Reaches (starts renames) 1 (holding ∷ waiting ∷ [])
reached = step 0 (starts renames) (holding ∷ waiting ∷ []) start first_locks

no_deadlock_example :
    IsDone (holding ∷ waiting ∷ [])
    ⊎ ((ys : List Process) × Step (holding ∷ waiting ∷ []) (holding ∷ waiting ∷ []) ys)
no_deadlock_example = no_deadlock renames 1 (holding ∷ waiting ∷ []) reached

runs_end_example :
    (1 ≤ total_left (starts renames))
    × ((ys : List Process) × Reaches (holding ∷ waiting ∷ []) (total_left (starts renames) - 1) ys
        × IsDone ys)
runs_end_example = runs_end renames 1 (holding ∷ waiting ∷ []) reached
