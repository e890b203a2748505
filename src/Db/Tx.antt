-- ===== src/Db/Tx.antt =====
-- Write transactions: withWriteTx of internal/db/version.go.
pub mod Retries
pub mod Outcomes
use roodox_sever_win.Base.{
  ℕ, zero, suc, Bool, true, false, ◌||◌, not, Option, none, some, ◌==◌, if◌then◌else◌,
}
use roodox_sever_win.Errors.{Result, ok, err, Err, busy}
use roodox_sever_win.Db.Tables.{Tables}

-- The statements of one transaction: they see the tables and fail as a whole.
abbrev pub Tx : Type 0 → Type 0
Tx A = Tables → Result Err (A × Tables)

infixl 5 ◌>>=◌ ◌>>◌
abbrev pub ◌>>=◌ : {A B : Type 0} → Tx A → (A → Tx B) → Tx B
◌>>=◌ m f t = elim (m t) [ ok (a, t') ↦ f a t' | err e ↦ err e ]

abbrev pub ◌>>◌ : {B : Type 0} → Tx (Unit {0}) → Tx B → Tx B
m >> k = m >>= λ _. k

-- isSQLiteBusy
unfoldable pub is_busy : Err → Bool
is_busy busy = true
is_busy _ = false

abbrev pub max_attempts : ℕ
max_attempts = 5

-- One attempt. `fault` is the error that the engine reports at Begin, at a statement or at Commit
-- of this attempt, if any: which of them it was is not seen, since the attempt is rolled back.
abbrev pub attempt_tx : {A : Type 0} → Option Err → Tx A → Tx A
attempt_tx none fn t = fn t
attempt_tx (some e) fn t = err e

-- One round of the loop, by the attempt's result; `again` is the rest of the loop.
abbrev pub round :
    {A : Type 0}
    → ℕ
    → Result Err (A × Tables)
    → Tables
    → Result Err A × Tables
    → Result Err A × Tables
round attempt (ok (a, t')) t again = (ok a, t')
round attempt (err e) t again =
    if not (is_busy e) || suc attempt == max_attempts then (err e, t) else again

pub tx_loop : {A : Type 0} → (ℕ → Option Err) → ℕ → ℕ → Tx A → Tables → Result Err A × Tables
tx_loop faults zero attempt fn t = (err busy, t)
tx_loop faults (suc left) attempt fn t =
    let again = tx_loop faults left (suc attempt) fn t in
    round attempt (attempt_tx (faults attempt) fn t) t again

-- `faults k` is the engine's error in attempt `k`. The waits between attempts are not modelled.
unfoldable pub with_write_tx :
    {A : Type 0} → (ℕ → Option Err) → Tx A → Tables → Result Err A × Tables
unfolding tx_loop
with_write_tx faults fn t = tx_loop faults max_attempts 0 fn t
