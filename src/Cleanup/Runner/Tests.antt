-- ===== src/Cleanup/Runner/Tests.antt =====
-- A runner with an interval of 60, whose first run is at 1000 and wants the next one at 1200.
use roodox_sever_win.Base.{ℕ, ◌+◌, ◌≡◌, refl, ◌⊎◌, inr, [], ◌∷◌, true, some, pos, arith}
use roodox_sever_win.Cleanup.Runner.{
  Runner, trigger, on_trigger, new_runner, run_now, schedule_at, stop_timer, allowed_at, triggers,
  takes, Waits, start, more, Runs, first_run, waited, ran,
}
use roodox_sever_win.Cleanup.Runner.Triggers.{IsDueBy, trigger_is_served}
use roodox_sever_win.Cleanup.Runner.Throttles.{IsPatient, AreApart, runner_throttles}

abbrev wants : ℕ → ℕ
wants now = now + 200

abbrev runner : Runner
runner = record {
  interval = pos 60;
  run = some wants;
  pending = true;
  last_run = 1_000;
  scheduled_at = 1_200;
}

-- A second trigger while the timer one_run.
waited_once : Waits (on_trigger 1_010 runner).1 (trigger (on_trigger 1_010 runner).1)
waited_once = more _ _ start (triggers (on_trigger 1_010 runner).1)

trigger_is_served_example :
    ((on_trigger 1_010 runner).0 ≡ true)
    ⊎ IsDueBy (allowed_at runner) (trigger (on_trigger 1_010 runner).1)
trigger_is_served_example =
    trigger_is_served 1_010 runner (trigger (on_trigger 1_010 runner).1) waited_once

wants-IsPatient : IsPatient 60 wants
wants-IsPatient now = inr (omega arith)

abbrev first : Runner
first = new_runner (pos 60) (some wants) 1_000

one_run : Runs first (first.last_run ∷ []) (trigger first)
one_run = waited _ first (trigger first) first_run (triggers first)

-- The trigger is taken late enough to run.
two_late :
    Runs first
      ((on_trigger 1_070 (trigger first)).1.last_run ∷ first.last_run ∷ [])
      (on_trigger 1_070 (trigger first)).1
unfolding new_runner trigger on_trigger run_now schedule_at stop_timer
two_late = ran _ (trigger first) _ one_run (takes (trigger first) 1_070 refl)

runner_throttles_example :
    AreApart 60 ((on_trigger 1_070 (trigger first)).1.last_run ∷ first.last_run ∷ [])
runner_throttles_example =
    runner_throttles 60 wants 1_000 (on_trigger 1_070 (trigger first)).1
      ((on_trigger 1_070 (trigger first)).1.last_run ∷ first.last_run ∷ []) wants-IsPatient
      (omega arith) (omega arith) two_late
