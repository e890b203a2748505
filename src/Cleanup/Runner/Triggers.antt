-- ===== src/Cleanup/Runner/Triggers.antt =====
-- What a trigger leads to.
use roodox_sever_win.Base.{
  ℕ, ◌≤◌, ◌<◌, ◌≡◌, refl, sym, ap, ◌⊎◌, inl, inr, Bool, true, false, Bool-cases, arith,
}
use mathlib.Core.Path.{subst}
use roodox_sever_win.Cleanup.Runner.{
  Runner, trigger, schedule_at, run_now, allowed_at, is_early, on_trigger, on_timer, stop_timer,
  Happens, triggers, takes, fires, Waits, start, more,
}

-- The timer is set, no later than `t`.
abbrev pub IsDueBy : ℕ → Runner → Type 0
IsDueBy t r = (0 < r.scheduled_at) × (r.scheduled_at ≤ t)

schedule_at-IsDueBy : (t : ℕ) (r : Runner) → 0 < t → IsDueBy t (schedule_at t r)
unfolding schedule_at
schedule_at-IsDueBy t r h = ground arith

schedule_at-stays : (t u : ℕ) (r : Runner) → 0 < u → IsDueBy t r → IsDueBy t (schedule_at u r)
unfolding schedule_at
schedule_at-stays t u r h d = ground arith

schedule_at-last_run : (t : ℕ) (r : Runner) → (schedule_at t r).last_run ≡ r.last_run
unfolding schedule_at stop_timer
schedule_at-last_run t r = ground arith

pub taken-early :
    (now : ℕ) (r : Runner)
    → is_early r now ≡ true
    → on_trigger now r ≡ (false, schedule_at (allowed_at r) (record r { pending = false }))
unfolding on_trigger
taken-early now r e = rw e refl

pub taken-runs :
    (now : ℕ) (r : Runner)
    → is_early r now ≡ false
    → on_trigger now r ≡ (true, run_now now (record r { pending = false }))
unfolding on_trigger
taken-runs now r e = rw e refl

allowed_positive : (now : ℕ) (r : Runner) → is_early r now ≡ true → 0 < allowed_at r
allowed_positive now r e = ground arith

Happens-IsDueBy :
    (t : ℕ) (r : Runner) (e : Bool × Runner)
    → Happens r e
    → e.0 ≡ false
    → IsDueBy t r
    → IsDueBy t e.1
unfolding trigger on_timer
Happens-IsDueBy t _ _ (triggers r) h d = d
Happens-IsDueBy t _ _ (fires r now a b) h d = absurd (cc h)
Happens-IsDueBy t _ _ (takes r now p) h d = elim (Bool-cases (is_early r now)) [
  | inl e ↦
      subst (λ x. IsDueBy t x.1) (sym (taken-early now r e))
        (schedule_at-stays t (allowed_at r) (record r { pending = false })
          (allowed_positive now r e) d)
  | inr e ↦ absurd (cc (taken-runs now r e, h))
]

Waits-IsDueBy : (t : ℕ) (r s : Runner) → Waits r s → IsDueBy t r → IsDueBy t s
Waits-IsDueBy t r _ start d = d
Waits-IsDueBy t r _ (more u s w h) d =
    Happens-IsDueBy t u (false, s) h refl (Waits-IsDueBy t r u w d)

-- No trigger is lost: when the loop takes a trigger it runs at once, or from then on, through
-- any events until a run, the timer is set for a time no later than an interval after the last
-- run.
pub trigger_is_served :
    (now : ℕ) (r s : Runner)
    → Waits (on_trigger now r).1 s
    → ((on_trigger now r).0 ≡ true) ⊎ IsDueBy (allowed_at r) s
trigger_is_served now r s w = elim (Bool-cases (is_early r now)) [
  | inl e ↦ inr (
      Waits-IsDueBy (allowed_at r) (on_trigger now r).1 s w (
        subst (λ x. IsDueBy (allowed_at r) x.1) (sym (taken-early now r e))
          (schedule_at-IsDueBy (allowed_at r) (record r { pending = false })
            (allowed_positive now r e))))
  | inr e ↦ inl (ap (λ x. x.0) (taken-runs now r e))
]
