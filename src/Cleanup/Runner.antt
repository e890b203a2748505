-- ===== src/Cleanup/Runner.antt =====
-- The loop of internal/cleanup/runner.go. Its goroutine takes one event at a time: a trigger, of
-- which the channel holds one at most, or the timer. A time of 0 is the zero time, and the timer is
-- set when `scheduled_at` is not the zero time. `run` answers when it wants to run next.
pub mod Triggers
pub mod Throttles
mod Tests
use roodox_sever_win.Base.{
  ℕ, ◌+◌, ◌≤◌, ◌≢◌, ◌≡◌, Bool, true, false, not, ◌&&◌, Option, none, some, List, [], ◌∷◌, ℤ,
  pos_part, non_positive, ltb, if◌then◌else◌, ◌==◌,
}

pub record Runner : Type 0 where
  pub interval : ℤ
  pub run : Option (ℕ → ℕ)
  pub pending : Bool
  pub last_run : ℕ
  pub scheduled_at : ℕ

-- Trigger: a full channel drops it.
unfoldable pub trigger : Runner → Runner
trigger r = record r { pending = true }

unfoldable pub stop_timer : Runner → Runner
stop_timer r = record r { scheduled_at = 0 }

-- scheduleAt leaves a timer that is no later.
unfoldable pub schedule_at : ℕ → Runner → Runner
unfolding stop_timer
schedule_at t r =
    if t == 0
    then stop_timer r
    else if not (r.scheduled_at == 0) && not (ltb t r.scheduled_at)
    then r
    else record r { scheduled_at = t }

-- What follows a run that wants the next one at `next`.
abbrev pub after_run : ℕ → ℕ → Runner → Runner
after_run now next r = if next == 0 then r else schedule_at (if ltb next now then now else next) r

-- runNow
abbrev pub run_with : ℕ → Option (ℕ → ℕ) → Runner → Runner
run_with now none r = record r { last_run = now; scheduled_at = 0 }
run_with now (some f) r = after_run now (f now) (record r { last_run = now; scheduled_at = 0 })

unfoldable pub run_now : ℕ → Runner → Runner
unfolding schedule_at
run_now now r = run_with now r.run r

-- The time before which triggers wait.
abbrev pub allowed_at : Runner → ℕ
allowed_at r = r.last_run + pos_part r.interval

abbrev pub is_early : Runner → ℕ → Bool
is_early r now = not (non_positive r.interval) && (not (r.last_run == 0) && ltb now (allowed_at r))

-- The trigger's case of the loop: whether it runs, and the state after.
unfoldable pub on_trigger : ℕ → Runner → Bool × Runner
unfolding run_now
on_trigger now r =
    let taken = record r { pending = false } in
    if is_early r now then (false, schedule_at (allowed_at r) taken) else (true, run_now now taken)

-- The timer's case.
unfoldable pub on_timer : ℕ → Runner → Bool × Runner
unfolding run_now
on_timer now r = (true, run_now now r)

abbrev pub unstarted : ℤ → Option (ℕ → ℕ) → Runner
unstarted interval run = record {
  interval = interval;
  run = run;
  pending = false;
  last_run = 0;
  scheduled_at = 0;
}

-- NewRunner, once its goroutine has made the first run.
unfoldable pub new_runner : ℤ → Option (ℕ → ℕ) → ℕ → Runner
unfolding run_now
new_runner interval run now = run_now now (unstarted interval run)

-- What happens to a runner: a call of Trigger, or its loop at work. The timer fires when its time
-- has come.
pub data Happens : Runner → Bool × Runner → Type 0 where
  triggers : (r : Runner) → Happens r (false, trigger r)
  takes : (r : Runner) (now : ℕ) → r.pending ≡ true → Happens r (on_trigger now r)
  fires :
      (r : Runner) (now : ℕ)
      → r.scheduled_at ≢ 0
      → r.scheduled_at ≤ now
      → Happens r (on_timer now r)

-- A sequence of such events in which no run is made.
pub data Waits (first : Runner) : Runner → Type 0 where
  start : Waits first first
  more : (r s : Runner) → Waits first r → Happens r (false, s) → Waits first s

-- A sequence of events after the first run, with the times of the runs, the last one first.
pub data Runs (first : Runner) : List ℕ → Runner → Type 0 where
  first_run : Runs first (first.last_run ∷ []) first
  waited : (ts : List ℕ) (r s : Runner) → Runs first ts r → Happens r (false, s) → Runs first ts s
  ran :
      (ts : List ℕ) (r s : Runner)
      → Runs first ts r
      → Happens r (true, s)
      → Runs first (s.last_run ∷ ts) s
