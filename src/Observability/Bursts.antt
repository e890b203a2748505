-- ===== src/Observability/Bursts.antt =====
-- What the counters of a recorder say, after any calls.
use roodox_sever_win.Base.{
  ℕ, suc, ◌+◌, ◌≤◌, ◌≡◌, refl, sym, ap, ◌∙◌, inl, inr, Bool, true, false, Bool-cases, ◌||◌, List,
  [], ◌∷◌, Bytes, bytes_eq, bytes_eq→eq, ℤ, pos_part, ltz, arith, ◌==◌,
}
use roodox_sever_win.Base.Dict.{
  Dict, get, put, remove, bytes_in, Distinct, get_absent, put-Distinct,
}
use roodox_sever_win.Base.Space.{is_blank}
use roodox_sever_win.Base.Time.{elapsed}
use mathlib.Core.Path.{subst}
use roodox_sever_win.Observability.{
  Config, Recorder, SmallWriteWindow, count_at, counted, next_window, with_burst, is_burst,
  small_write, is_skipped, new_recorder, record_rpc, record_build_queue_wait,
  record_build_completion, record_range_write_at,
}

-- The calls that record.
pub data Call : Type 0 where
  rpc : Bytes → ℕ → ℤ → Call
  queue_wait : ℤ → Call
  build : Bool → ℤ → ℤ → Call
  range_write : Bytes → ℤ → Bool → ℕ → Call

unfoldable pub call : Recorder → Call → Recorder
call r (rpc method code d) = record_rpc r method code d
call r (queue_wait d) = record_build_queue_wait r d
call r (build success d n) = record_build_completion r success d n
call r (range_write path n conflicted now) = record_range_write_at r path n conflicted now

unfoldable pub calls : Recorder → List Call → Recorder
calls r [] = r
calls r (c ∷ cs) = calls (call r c) cs

unfoldable pub total : Dict ℕ → ℕ
total [] = 0
total ((p, n) ∷ d) = n + total d

-- The bursts are those of the paths, and no path is counted twice.
pub record AddUp (r : Recorder) : Type 0 where
  pub bursts : r.small_write_bursts ≡ total r.small_write_path_counts
  pub distinct : Distinct r.small_write_path_counts
  pub conflicts : r.range_write_conflict_calls ≤ r.range_write_calls

total-remove :
    (d : Dict ℕ) (p : Bytes) → Distinct d → count_at (get d p) + total (remove d p) ≡ total d
unfolding get remove total
total-remove [] p h = refl
total-remove ((q, n) ∷ d) p h = elim (Bool-cases (bytes_eq q p)) [
  | inl e ↦
      (let absent : bytes_in p d ≡ false =
          subst (λ k. bytes_in k d ≡ false) (bytes_eq→eq q p e) h.0 in
        rw e (omega (arith, total-remove d p h.1, ap count_at (get_absent d p absent))))
  | inr e ↦ rw e (omega (arith, total-remove d p h.1))
]

total-put :
    (d : Dict ℕ) (p : Bytes)
    → Distinct d
    → total (put d p (suc (count_at (get d p)))) ≡ suc (total d)
unfolding put total
total-put d p h = omega (arith, total-remove d p h)

counted-AddUp : (r : Recorder) (n : ℕ) (c : Bool) → AddUp r → AddUp (counted r n c)
counted-AddUp r n true a = record {
  bursts = a.bursts;
  distinct = a.distinct;
  conflicts = omega (arith, a.conflicts);
}
counted-AddUp r n false a = record {
  bursts = a.bursts;
  distinct = a.distinct;
  conflicts = omega (arith, a.conflicts);
}

with_burst-AddUp :
    (r : Recorder) (p : Bytes) (w : SmallWriteWindow) → AddUp r → AddUp (with_burst r p w)
with_burst-AddUp r p w a = record {
  bursts = ap suc a.bursts ∙ sym (total-put r.small_write_path_counts p a.distinct);
  distinct = put-Distinct r.small_write_path_counts p _ a.distinct;
  conflicts = a.conflicts;
}

same-AddUp :
    (r : Recorder) (d : Dict SmallWriteWindow)
    → AddUp r
    → AddUp (record r { small_write_state = d })
same-AddUp r d a = record { bursts = a.bursts; distinct = a.distinct; conflicts = a.conflicts }

small_write-AddUp :
    (r : Recorder) (p : Bytes) (now : ℕ) (w : SmallWriteWindow)
    → AddUp r
    → AddUp (small_write r p now w)
small_write-AddUp r p now w a =
    elim (Bool-cases (w.start == 0 || ltz r.cfg.small_write_window (elapsed now w.last))) [
      | inl e ↦ rw e (same-AddUp r _ a)
      | inr e ↦ elim (Bool-cases (is_burst r.cfg (next_window w now))) [
        | inl k ↦ rw (e, k) (with_burst-AddUp r p (next_window w now) a)
        | inr k ↦ rw (e, k) (same-AddUp r _ a)
      ]
    ]

call-AddUp : (r : Recorder) (c : Call) → AddUp r → AddUp (call r c)
unfolding call record_rpc record_build_queue_wait record_build_completion record_range_write_at
call-AddUp r (rpc method code d) a = elim (Bool-cases (is_blank method)) [
  | inl e ↦ rw e a
  | inr e ↦ rw e (record { bursts = a.bursts; distinct = a.distinct; conflicts = a.conflicts })
]
call-AddUp r (queue_wait d) a = record {
  bursts = a.bursts;
  distinct = a.distinct;
  conflicts = a.conflicts;
}
call-AddUp r (build success d n) a = record {
  bursts = a.bursts;
  distinct = a.distinct;
  conflicts = a.conflicts;
}
call-AddUp r (range_write p n c now) a = elim (Bool-cases (is_skipped r p (pos_part n))) [
  | inl e ↦ rw e (counted-AddUp r (pos_part n) c a)
  | inr e ↦
      rw e (small_write-AddUp (counted r (pos_part n) c) p now _ (counted-AddUp r (pos_part n) c a))
]

calls-AddUp : (r : Recorder) (cs : List Call) → AddUp r → AddUp (calls r cs)
unfolding calls
calls-AddUp r [] a = a
calls-AddUp r (c ∷ cs) a = calls-AddUp (call r c) cs (call-AddUp r c a)

new_recorder-AddUp : (cfg : Config) → AddUp (new_recorder cfg)
unfolding new_recorder total
new_recorder-AddUp cfg = record { bursts = refl; distinct = tt; conflicts = omega arith }

-- After any calls of a new recorder, the number of small write bursts is the sum of the counts
-- of the paths, no path is counted in two places, and at most as many range writes are conflicts
-- as there are range writes.
pub recorder-AddsUp : (cfg : Config) (cs : List Call) → AddUp (calls (new_recorder cfg) cs)
recorder-AddsUp cfg cs = calls-AddUp (new_recorder cfg) cs (new_recorder-AddUp cfg)
