-- ===== src/Cleanup/Runner/Throttles.antt =====
-- When a runner runs.
use roodox_sever_win.Base.{
  ℕ, ◌+◌, ◌≤◌, ◌<◌, ◌≡◌, refl, sym, ap, ◌∙◌, ◌⊎◌, inl, inr, Bool, true, false, Bool-cases, Option,
  none, some, List, [], ◌∷◌, ℤ, pos, pos_part, non_positive, ltb, if◌then◌else◌, ◌==◌, not, ◌&&◌,
  arith,
}
use mathlib.Core.Path.{subst}
use roodox_sever_win.Cleanup.Runner.{
  Runner, trigger, schedule_at, after_run, run_with, run_now, allowed_at, is_early, on_timer,
  unstarted, new_runner, stop_timer, Happens, triggers, takes, fires, Runs, first_run, waited, ran,
}
use roodox_sever_win.Cleanup.Runner.Triggers.{taken-early, taken-runs}

-- A run wants the next one no earlier than an interval later, or not at all.
abbrev pub IsPatient : ℕ → (ℕ → ℕ) → Type 0
IsPatient i f = (now : ℕ) → (f now ≡ 0) ⊎ (now + i ≤ f now)

record IsThrottled (i : ℕ) (f : ℕ → ℕ) (r : Runner) : Type 0 where
  interval : r.interval ≡ pos i
  run : r.run ≡ some f
  started : 0 < r.last_run
  scheduled : (r.scheduled_at ≡ 0) ⊎ (r.last_run + i ≤ r.scheduled_at)

-- Each time is at least `i` after the one before.
abbrev pub AreApart : ℕ → List ℕ → Type 0
AreApart i [] = Unit
AreApart i (t ∷ []) = Unit
AreApart i (t ∷ u ∷ ts) = (u + i ≤ t) × AreApart i (u ∷ ts)

schedule_at-fields :
    (t : ℕ) (r : Runner)
    → ((schedule_at t r).interval ≡ r.interval)
      × ((schedule_at t r).run ≡ r.run)
      × ((schedule_at t r).last_run ≡ r.last_run)
unfolding schedule_at stop_timer
schedule_at-fields t r = (ground arith, ground arith, ground arith)

schedule_at-IsThrottled :
    (i : ℕ) (f : ℕ → ℕ) (t : ℕ) (r : Runner)
    → IsThrottled i f r
    → r.last_run + i ≤ t
    → IsThrottled i f (schedule_at t r)
schedule_at-IsThrottled i f t r h le =
    let (a, b, c) = schedule_at-fields t r in
    record {
      interval = a ∙ h.interval;
      run = b ∙ h.run;
      started = rw c h.started;
      scheduled = rw c (unfold schedule_at stop_timer in ground (arith, h.scheduled));
    }

-- A runner right after a run at `now`.
abbrev just_ran : ℕ → Runner → Runner
just_ran now r = record r { last_run = now; scheduled_at = 0 }

just_ran-IsThrottled :
    (i : ℕ) (f : ℕ → ℕ) (now : ℕ) (r : Runner)
    → 0 < now
    → r.interval ≡ pos i
    → r.run ≡ some f
    → IsThrottled i f (just_ran now r)
just_ran-IsThrottled i f now r p a b = record {
  interval = a;
  run = b;
  started = p;
  scheduled = inl refl;
}

abbrev RanAt : ℕ → (ℕ → ℕ) → ℕ → Runner → Type 0
RanAt i f now s = IsThrottled i f s × (s.last_run ≡ now)

after_run-RanAt :
    (i : ℕ) (f : ℕ → ℕ) (now next : ℕ) (r : Runner)
    → IsThrottled i f r
    → r.last_run ≡ now
    → (next ≡ 0) ⊎ (now + i ≤ next)
    → RanAt i f now (after_run now next r)
after_run-RanAt i f now next r t e w = elim (Bool-cases (next == 0)) [
  | inl z ↦ rw z (t, e)
  | inr z ↦
      (let (a, b, c) = schedule_at-fields (if ltb next now then now else next) r in
        rw z (schedule_at-IsThrottled i f _ r t (ground (arith, w)), c ∙ e))
]

run_with-RanAt :
    (i : ℕ) (f : ℕ → ℕ) (now : ℕ) (o : Option (ℕ → ℕ)) (r : Runner)
    → IsPatient i f
    → 0 < now
    → r.interval ≡ pos i
    → r.run ≡ some f
    → o ≡ some f
    → RanAt i f now (run_with now o r)
run_with-RanAt i f now none r h p a b e = absurd (cc e)
run_with-RanAt i f now (some g) r h p a b e =
    after_run-RanAt i f now (g now) (just_ran now r) (just_ran-IsThrottled i f now r p a b) refl
      (subst (λ k. (k now ≡ 0) ⊎ (now + i ≤ k now)) (sym (some_inj e)) (h now))
  where
    some_inj : {A : Type 0} {a b : A} → some a ≡ some b → a ≡ b
    some_inj h = cc h

run_now-RanAt :
    (i : ℕ) (f : ℕ → ℕ) (now : ℕ) (r : Runner)
    → IsPatient i f
    → 0 < now
    → r.interval ≡ pos i
    → r.run ≡ some f
    → RanAt i f now (run_now now r)
unfolding run_now
run_now-RanAt i f now r h p a b = run_with-RanAt i f now r.run r h p a b b

-- What an event leaves: a run comes at least `i` after the last one.
abbrev Follows : ℕ → (ℕ → ℕ) → Runner → Bool × Runner → Type 0
Follows i f r e =
    IsThrottled i f e.1
    × (e.0 ≡ false → e.1.last_run ≡ r.last_run)
    × (e.0 ≡ true → r.last_run + i ≤ e.1.last_run)

ran-Follows :
    (i : ℕ) (f : ℕ → ℕ) (now : ℕ) (r s : Runner)
    → RanAt i f now s
    → r.last_run + i ≤ now
    → Follows i f r (true, s)
ran-Follows i f now r s (t, e) le = (t, (λ x. absurd (cc x)), (λ x. omega (arith, e)))

early_or_late :
    (i now : ℕ) (r : Runner)
    → r.interval ≡ pos i
    → 0 < i
    → 0 < r.last_run
    → is_early r now ≡ false
    → r.last_run + i ≤ now
early_or_late i now r a p q e = late r.interval a e
  where
    late :
        (z : ℤ)
        → z ≡ pos i
        → (not (non_positive z) && (not (r.last_run == 0) && ltb now (r.last_run + pos_part z)))
          ≡ false
        → r.last_run + i ≤ now
    late z h k = (let m = rw h at k in ground arith)

Happens-Follows :
    (i : ℕ) (f : ℕ → ℕ) (r : Runner) (e : Bool × Runner)
    → IsPatient i f
    → 0 < i
    → IsThrottled i f r
    → Happens r e
    → Follows i f r e
unfolding trigger on_timer
Happens-Follows i f _ _ h p t (triggers r) = (
  record { interval = t.interval; run = t.run; started = t.started; scheduled = t.scheduled },
  (λ x. refl),
  (λ x. absurd (cc x)),
)
Happens-Follows i f _ _ h p t (fires r now a b) =
    let le : r.last_run + i ≤ now = ground (arith, t.scheduled) in
    ran-Follows i f now r (run_now now r)
      (run_now-RanAt i f now r h (omega (arith, t.started)) t.interval t.run) le
Happens-Follows i f _ _ h p t (takes r now q) = elim (Bool-cases (is_early r now)) [
  | inl e ↦ subst (Follows i f r) (sym (taken-early now r e)) (
    schedule_at-IsThrottled i f (allowed_at r) (record r { pending = false })
        (record {
          interval = t.interval;
          run = t.run;
          started = t.started;
          scheduled = t.scheduled;
        })
        (omega (arith, ap pos_part t.interval)),
    (λ x. (schedule_at-fields (allowed_at r) (record r { pending = false })).2),
    (λ x. absurd (cc x)),
  )
  | inr e ↦
      (let le = early_or_late i now r t.interval p t.started e in
        subst (Follows i f r) (sym (taken-runs now r e)) (
          ran-Follows i f now r (run_now now (record r { pending = false }))
            (run_now-RanAt i f now (record r { pending = false }) h (omega (arith, t.started))
              t.interval t.run)
            le))
]

-- The last run comes first.
abbrev EndsAt : ℕ → List ℕ → Type 0
EndsAt t ts = (us : List ℕ) × (ts ≡ t ∷ us)

AreApart-cons :
    (i t u : ℕ) (ts : List ℕ) → u + i ≤ t → EndsAt u ts → AreApart i ts → AreApart i (t ∷ ts)
AreApart-cons i t u ts le (us, e) a =
    subst (λ k. AreApart i (t ∷ k)) (sym e) (le, subst (AreApart i) e a)

Runs-AreApart :
    (i : ℕ) (f : ℕ → ℕ) (r s : Runner) (ts : List ℕ)
    → IsPatient i f
    → 0 < i
    → IsThrottled i f r
    → Runs r ts s
    → IsThrottled i f s × EndsAt s.last_run ts × AreApart i ts
Runs-AreApart i f r _ _ h p t first_run = (t, ([], refl), tt)
Runs-AreApart i f r _ _ h p t (waited ts u s w e) =
    let (a, b, c) = Runs-AreApart i f r u ts h p t w in
    let (x, same, y) = Happens-Follows i f u (false, s) h p a e in
    (x, subst (λ k. EndsAt k ts) (sym (same refl)) b, c)
Runs-AreApart i f r _ _ h p t (ran ts u s w e) =
    let (a, b, c) = Runs-AreApart i f r u ts h p t w in
    let (x, y, later) = Happens-Follows i f u (true, s) h p a e in
    (x, (ts, refl), AreApart-cons i s.last_run u.last_run ts (later refl) b c)

-- Runs keep their distance: when the interval is positive and each run wants the next one an
-- interval later at the earliest, or not at all, then through any triggers and timers each run
-- comes at least an interval after the one before.
pub runner_throttles :
    (i : ℕ) (f : ℕ → ℕ) (now : ℕ) (s : Runner) (ts : List ℕ)
    → IsPatient i f
    → 0 < i
    → 0 < now
    → Runs (new_runner (pos i) (some f) now) ts s
    → AreApart i ts
unfolding new_runner
runner_throttles i f now s ts h p q w =
    (Runs-AreApart i f (new_runner (pos i) (some f) now) s ts h p
      (run_now-RanAt i f now (unstarted (pos i) (some f)) h q refl refl).0 w).2
