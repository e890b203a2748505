-- ===== src/Db/Tx/Retries.antt =====
-- withWriteTx is atomic, and retries exactly while the database is busy.
use roodox_sever_win.Base.{
  ℕ, zero, suc, ◌+◌, ◌<◌, ◌≡◌, ◌≢◌, refl, ◌⊎◌, inl, inr, false, ◌||◌, not, Option, none, some, ◌==◌,
  arith, Bool-cases, sym,
}
use mathlib.Core.Path.{subst}
use roodox_sever_win.Errors.{
  Result, ok, err, Err, busy, os_not_exist, os_permission, os_exist, os_invalid, other,
}
use roodox_sever_win.Db.Tables.{Tables}
use roodox_sever_win.Db.Tx.{Tx, is_busy, attempt_tx, max_attempts, round, tx_loop, with_write_tx}

-- The result is an error with the tables as they were, or what the statements make of them.
abbrev pub IsAtomic : {A : Type 0} → Tx A → Tables → Result Err A × Tables → Type 0
IsAtomic {A} fn t r =
    ((e : Err) × (r ≡ (err e, t)))
    ⊎ ((a : A) × (t' : Tables) × (fn t ≡ ok (a, t')) × (r ≡ (ok a, t')))

-- How an attempt that is not retried ends.
abbrev pub settled : {A : Type 0} → Result Err (A × Tables) → Tables → Result Err A × Tables
settled (ok (a, t')) t = (ok a, t')
settled (err e) t = (err e, t)

-- The attempt was not refused as busy.
abbrev pub NotBusy : {A : Type 0} → Result Err (A × Tables) → Type 0
NotBusy (ok _) = Unit
NotBusy (err e) = is_busy e ≡ false

round_cases :
    {A : Type 0} (attempt : ℕ) (r : Result Err (A × Tables)) (t : Tables)
    (again : Result Err A × Tables)
    → (round attempt r t again ≡ again)
      ⊎ (((e : Err) × (round attempt r t again ≡ (err e, t)))
          ⊎ ((a : A) × (t' : Tables) × (r ≡ ok (a, t')) × (round attempt r t again ≡ (ok a, t'))))
round_cases attempt (ok (a, t')) t again = inr (inr (a, t', refl, refl))
round_cases attempt (err e) t again =
    elim (Bool-cases (not (is_busy e) || suc attempt == max_attempts)) [
      | inl k ↦ inr (inl (e, rw k))
      | inr k ↦ inl (rw k)
    ]

attempt_ok :
    {A : Type 0} (f : Option Err) (fn : Tx A) (t t' : Tables) (a : A)
    → attempt_tx f fn t ≡ ok (a, t')
    → fn t ≡ ok (a, t')
attempt_ok none fn t t' a r = r
attempt_ok (some e) fn t t' a r = cc

round-IsAtomic :
    {A : Type 0} (fn : Tx A) (t : Tables) (attempt : ℕ) (f : Option Err)
    (again : Result Err A × Tables)
    → IsAtomic fn t again
    → IsAtomic fn t (round attempt (attempt_tx f fn t) t again)
round-IsAtomic fn t attempt f again h = elim (round_cases attempt (attempt_tx f fn t) t again) [
  | inl e ↦ subst (IsAtomic fn t) (sym e) h
  | inr (inl (x, e)) ↦ inl (x, e)
  | inr (inr (a, t', r, e)) ↦ inr (a, t', attempt_ok f fn t t' a r, e)
]

tx_loop-IsAtomic :
    {A : Type 0} (faults : ℕ → Option Err) (fn : Tx A) (t : Tables) (left attempt : ℕ)
    → IsAtomic fn t (tx_loop faults left attempt fn t)
unfolding tx_loop
tx_loop-IsAtomic faults fn t zero attempt = inl (busy, refl)
tx_loop-IsAtomic faults fn t (suc left) attempt =
    round-IsAtomic fn t attempt (faults attempt) (tx_loop faults left (suc attempt) fn t)
      (tx_loop-IsAtomic faults fn t left (suc attempt))

-- Whatever errors the engine reports in each attempt, a write transaction either fails and
-- leaves every table as it was, or succeeds with what its statements return and make of the
-- tables.
pub with_write_tx-IsAtomic :
    {A : Type 0} (faults : ℕ → Option Err) (fn : Tx A) (t : Tables)
    → IsAtomic fn t (with_write_tx faults fn t)
unfolding with_write_tx
with_write_tx-IsAtomic faults fn t = tx_loop-IsAtomic faults fn t max_attempts 0

round-NotBusy :
    {A : Type 0} (attempt : ℕ) (r : Result Err (A × Tables)) (t : Tables)
    (again : Result Err A × Tables)
    → NotBusy r
    → round attempt r t again ≡ settled r t
round-NotBusy attempt (ok (a, t')) t again h = refl
round-NotBusy attempt (err e) t again h = rw h

tx_loop_retries :
    {A : Type 0} (faults : ℕ → Option Err) (fn : Tx A) (t : Tables) (left attempt k : ℕ)
    → left + attempt ≡ max_attempts
    → k < left
    → ((j : ℕ) → j < attempt + k → faults j ≡ some busy)
    → NotBusy (attempt_tx (faults (attempt + k)) fn t)
    → tx_loop faults left attempt fn t ≡ settled (attempt_tx (faults (attempt + k)) fn t) t
unfolding tx_loop is_busy
tx_loop_retries faults fn t zero attempt k e lt b n = elim lt [ ]
tx_loop_retries faults fn t (suc left) attempt zero e lt b n =
    let z : attempt + 0 ≡ attempt = omega arith in rw z (round-NotBusy attempt _ t _ (rw z at n))
tx_loop_retries faults fn t (suc left) attempt (suc k) e lt b n =
    let z : attempt + suc k ≡ suc attempt + k = omega arith in
    let last : (suc attempt == max_attempts) ≡ false = ground arith in
    rw (b attempt (omega arith), last)
      (rw z (
        tx_loop_retries faults fn t left (suc attempt) k (omega arith) (omega arith)
          (λ j h. b j (omega arith)) (rw z at n)))

-- If the first k < 5 attempts are refused as busy and the next one is not, the transaction
-- returns what that attempt returns, and leaves the tables that it leaves.
pub with_write_tx_retries :
    {A : Type 0} (faults : ℕ → Option Err) (fn : Tx A) (t : Tables) (k : ℕ)
    → k < max_attempts
    → ((j : ℕ) → j < k → faults j ≡ some busy)
    → NotBusy (attempt_tx (faults k) fn t)
    → with_write_tx faults fn t ≡ settled (attempt_tx (faults k) fn t) t
with_write_tx_retries {A = A} faults fn t k lt b n =
    let z : 0 + k ≡ k = omega arith in
    unfold with_write_tx in
    from_start (0 + k) z (
      tx_loop_retries faults fn t max_attempts 0 k (omega arith) lt (λ j h. b j (omega arith))
        (rw z n))
  where
    from_start :
        (i : ℕ)
        → i ≡ k
        → tx_loop faults max_attempts 0 fn t ≡ settled (attempt_tx (faults i) fn t) t
        → tx_loop faults max_attempts 0 fn t ≡ settled (attempt_tx (faults k) fn t) t
    from_start i e =
        subst (λ i. tx_loop faults max_attempts 0 fn t ≡ settled (attempt_tx (faults i) fn t) t) e

-- How the loop ends: the first attempt that is not refused as busy decides, if it is one of the
-- first five; else the transaction is refused as busy.
pub data Decides {A : Type 0} (faults : ℕ → Option Err) (fn : Tx A) (t : Tables)
    : Result Err A × Tables → Type 0 where
  decided :
      (k : ℕ)
      → k < 5
      → ((j : ℕ) → j < k → attempt_tx (faults j) fn t ≡ err busy)
      → attempt_tx (faults k) fn t ≢ err busy
      → Decides faults fn t (settled (attempt_tx (faults k) fn t) t)
  gives_up :
      ((j : ℕ) → j < 5 → attempt_tx (faults j) fn t ≡ err busy) → Decides faults fn t (err busy, t)

busy_cases : {A : Type 0} (r : Result Err A) → (r ≡ err busy) ⊎ (r ≢ err busy)
busy_cases (ok a) = inr (λ h. cc h)
busy_cases (err busy) = inl refl
busy_cases (err os_not_exist) = inr (λ h. cc h)
busy_cases (err os_permission) = inr (λ h. cc h)
busy_cases (err os_exist) = inr (λ h. cc h)
busy_cases (err os_invalid) = inr (λ h. cc h)
busy_cases (err other) = inr (λ h. cc h)

unless_busy : {A : Type 0} (r : Result Err (A × Tables)) → r ≢ err busy → NotBusy r
unfolding is_busy
unless_busy (ok a) h = tt
unless_busy (err busy) h = absurd (h refl)
unless_busy (err os_not_exist) h = refl
unless_busy (err os_permission) h = refl
unless_busy (err os_exist) h = refl
unless_busy (err os_invalid) h = refl
unless_busy (err other) h = refl

one_more : (P : ℕ → Type 0) (n : ℕ) → ((j : ℕ) → j < n → P j) → P n → (j : ℕ) → j < suc n → P j
one_more P n h p j lt = elim (Bool-cases (j == n)) [
  | inl e ↦ subst P (ground arith) p
  | inr e ↦ h j (ground arith)
]

tx_loop-Decides :
    {A : Type 0} (faults : ℕ → Option Err) (fn : Tx A) (t : Tables) (left attempt : ℕ)
    → left + attempt ≡ 5
    → ((j : ℕ) → j < attempt → attempt_tx (faults j) fn t ≡ err busy)
    → Decides faults fn t (tx_loop faults left attempt fn t)
unfolding tx_loop is_busy
tx_loop-Decides faults fn t zero attempt e b = gives_up (λ j lt. b j (omega arith))
tx_loop-Decides faults fn t (suc left) attempt e b =
    let before = one_more (λ j. attempt_tx (faults j) fn t ≡ err busy) attempt b in
    elim (busy_cases (attempt_tx (faults attempt) fn t)) [
      | inl h ↦ elim (Bool-cases (suc attempt == max_attempts)) [
        | inl last ↦ rw (h, last) (gives_up (λ j lt. before h j (ground arith)))
        | inr more ↦
            rw (h, more) (tx_loop-Decides faults fn t left (suc attempt) (omega arith) (before h))
      ]
      | inr n ↦
          rw
            (round-NotBusy attempt (attempt_tx (faults attempt) fn t) t
              (tx_loop faults left (suc attempt) fn t) (unless_busy _ n))
            (decided attempt (omega arith) b n)
    ]

-- Whatever errors the engine reports in each attempt, a write transaction ends as the first of
-- its first five attempts that is not refused as busy: with what its statements return and make
-- of the tables, or with its error and the tables as they were. When all five are refused, it
-- fails as busy and changes no table.
pub with_write_tx-Decides :
    {A : Type 0} (faults : ℕ → Option Err) (fn : Tx A) (t : Tables)
    → Decides faults fn t (with_write_tx faults fn t)
unfolding with_write_tx
with_write_tx-Decides faults fn t =
    tx_loop-Decides faults fn t max_attempts 0 refl (λ j lt. elim lt [ ])
