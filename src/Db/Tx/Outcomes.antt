-- ===== src/Db/Tx/Outcomes.antt =====
-- What a statement that succeeds has done, through the sequence of statements.
use roodox_sever_win.Base.{ℕ, ◌≡◌, refl, inl, inr, Option}
use roodox_sever_win.Errors.{Result, ok, err, Err}
use roodox_sever_win.Db.Tables.{Tables}
use roodox_sever_win.Db.Tx.{Tx, ◌>>=◌, with_write_tx}
use roodox_sever_win.Db.Tx.Retries.{with_write_tx-IsAtomic}

-- A sequence succeeds by both of its parts.
pub bind_ok :
    {A B : Type 0} (m : Tx A) (f : A → Tx B) (t t2 : Tables) (b : B)
    → (m >>= f) t ≡ ok (b, t2)
    → (a : A) × (t1 : Tables) × (m t ≡ ok (a, t1)) × (f a t1 ≡ ok (b, t2))
bind_ok {A} {B} m f t t2 b h = go (m t) refl h
  where
    go :
        (r : Result Err (A × Tables))
        → m t ≡ r
        → (elim r as (λ x. Result Err (B × Tables)) [ ok (a, t') ↦ f a t' | err e ↦ err e ])
          ≡ ok (b, t2)
        → (a : A) × (t1 : Tables) × (m t ≡ ok (a, t1)) × (f a t1 ≡ ok (b, t2))
    go (ok (a, t1)) e k = (a, t1, e, k)
    go (err x) e k = cc k

-- Every success of the statements relates the tables before and after.
abbrev pub Ensures : {A : Type 0} → (Tables → Tables → Type 0) → Tx A → Type 0
Ensures {A} P m = (t t' : Tables) (a : A) → m t ≡ ok (a, t') → P t t'

pub Ensures-bind :
    {A B : Type 0} (P : Tables → Tables → Type 0) (m : Tx A) (f : A → Tx B)
    → ((t u v : Tables) → P t u → P u v → P t v)
    → Ensures P m
    → ((a : A) → Ensures P (f a))
    → Ensures P (m >>= f)
Ensures-bind P m f trans hm hf t t2 b h =
    let (a, t1, x, y) = bind_ok m f t t2 b h in trans t t1 t2 (hm t t1 a x) (hf a t1 t2 b y)

-- A transaction relates the tables so whether it fails or not.
pub with_write_tx-Ensures :
    {A : Type 0} (P : Tables → Tables → Type 0) (faults : ℕ → Option Err) (fn : Tx A) (t : Tables)
    → ((u : Tables) → P u u)
    → Ensures P fn
    → P t (with_write_tx faults fn t).1
with_write_tx-Ensures P faults fn t same h = elim (with_write_tx-IsAtomic faults fn t) [
  | inl (e, x) ↦ rw x (same t)
  | inr (a, t', f, x) ↦ rw x (h t t' a f)
]
