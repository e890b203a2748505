-- ===== src/Lock/Manager/Exclusion.antt =====
-- Who holds a lock, and until when.
use roodox_sever_win.Base.{
  ℕ, ◌≡◌, ◌≢◌, ◌≤◌, ap, true, false, some, List, [], ◌∷◌, Bytes, bytes_eq_iff, ℤ, arith, ◌⊎◌,
}
use roodox_sever_win.Base.Dict.{get, Distinct}
use roodox_sever_win.Lock.Manager.{Manager, new_manager, acquire, renew, release, cleanup_expired}
use roodox_sever_win.Lock.Manager.Frame.{
  acquire_lem, renew_lem, release_lem, cleanup_expired_lem, acquire-Distinct, renew-Distinct,
  release-Distinct, cleanup_expired-Distinct,
}

-- The calls that clients and the cleanup make, with the time at which each reads the clock.
pub data Call : Type 0 where
  acquires renews : ℕ → Bytes → Bytes → ℤ → Call
  releases : Bytes → Bytes → Call
  cleans : ℕ → Call

unfoldable pub step : Manager → Call → Manager
step m (acquires now path client ttl) = (acquire m now path client ttl).1
step m (renews now path client ttl) = (renew m now path client ttl).1
step m (releases path client) = (release m path client).1
step m (cleans now) = cleanup_expired m now

unfoldable pub run : Manager → List Call → Manager
run m [] = m
run m (c ∷ cs) = run (step m c) cs

-- A call that the holder `client` of `path` did not make, no later than `until`.
abbrev pub Foreign : Bytes → Bytes → ℕ → Call → Type 0
Foreign path client until (acquires now p c ttl) = now ≤ until
Foreign path client until (renews now p c ttl) = (p ≢ path) ⊎ (c ≢ client)
Foreign path client until (releases p c) = (p ≢ path) ⊎ (c ≢ client)
Foreign path client until (cleans now) = now ≤ until

abbrev pub AllForeign : Bytes → Bytes → ℕ → List Call → Type 0
AllForeign path client until [] = Unit
AllForeign path client until (c ∷ cs) =
    Foreign path client until c × AllForeign path client until cs

abbrev pub Holds : Manager → Bytes → Bytes → ℕ → Type 0
Holds m path client until = get m.locks path ≡ some (record { owner = client; expire_at = until })

pub step-Distinct : (m : Manager) (c : Call) → Distinct m.locks → Distinct (step m c).locks
unfolding step
step-Distinct m (acquires now path client ttl) d = acquire-Distinct m now path client ttl d
step-Distinct m (renews now path client ttl) d = renew-Distinct m now path client ttl d
step-Distinct m (releases path client) d = release-Distinct m path client d
step-Distinct m (cleans now) d = cleanup_expired-Distinct m now d

step-Holds :
    (m : Manager) (path client : Bytes) (until : ℕ) (c : Call)
    → Distinct m.locks
    → Holds m path client until
    → Foreign path client until c
    → Holds (step m c) path client until
unfolding step
step-Holds m path client until (acquires now p c ttl) d h f =
    ground (arith, acquire_lem m now p c ttl path, bytes_eq_iff p path)
step-Holds m path client until (renews now p c ttl) d h f =
    ground (arith, renew_lem m now p c ttl path, bytes_eq_iff p path, bytes_eq_iff client c)
step-Holds m path client until (releases p c) d h f =
    ground (arith, release_lem m p c path, bytes_eq_iff p path, bytes_eq_iff client c)
step-Holds m path client until (cleans now) d h f = ground (arith, cleanup_expired_lem m now path d)

run-Holds :
    (m : Manager) (path client : Bytes) (until : ℕ) (cs : List Call)
    → Distinct m.locks
    → Holds m path client until
    → AllForeign path client until cs
    → Holds (run m cs) path client until
unfolding run
run-Holds m path client until [] d h f = h
run-Holds m path client until (c ∷ cs) d h f =
    run-Holds (step m c) path client until cs (step-Distinct m c d)
      (step-Holds m path client until c d h f.0) f.1

pub run-Distinct : (m : Manager) (cs : List Call) → Distinct m.locks → Distinct (run m cs).locks
unfolding run
run-Distinct m [] d = d
run-Distinct m (c ∷ cs) d = run-Distinct (step m c) cs (step-Distinct m c d)

pub acquire-Holds :
    (m : Manager) (now : ℕ) (path client : Bytes) (ttl : ℤ)
    → (acquire m now path client ttl).0.succeeded ≡ true
    → Holds
        (acquire m now path client ttl).1
        path
        client
        (acquire m now path client ttl).0.expire_at
unfolding acquire
acquire-Holds m now path client ttl e =
    ground (arith, acquire_lem m now path client ttl path, bytes_eq_iff path path)

pub acquire_held :
    (m : Manager) (later until : ℕ) (path client other : Bytes) (ttl : ℤ)
    → Holds m path client until
    → later ≤ until
    → acquire m later path other ttl
      ≡ (record { succeeded = false; owner = client; expire_at = until }, m)
unfolding acquire
acquire_held m later until path client other ttl h le = rw h (ground arith)

-- A manager after some calls, as the server reaches it.
unfoldable pub reached : ℤ → List Call → Manager
reached default_ttl history = run (new_manager default_ttl) history

pub reached-Distinct : (t : ℤ) (history : List Call) → Distinct (reached t history).locks
unfolding reached new_manager
reached-Distinct t history = run-Distinct (new_manager t) history tt

-- In a lock manager reached by any calls, after a successful acquire and whatever calls follow
-- that are not the holder's own renews and releases of the path (acquires and cleanups no later
-- than the expiry time that it was told), an acquire of the path no later than that time fails,
-- and is told the holder and that time.
pub acquire_excludes :
    (t : ℤ) (history cs : List Call) (now later : ℕ) (path client other : Bytes) (ttl ttl' : ℤ)
    → (acquire (reached t history) now path client ttl).0.succeeded ≡ true
    → AllForeign path client (acquire (reached t history) now path client ttl).0.expire_at cs
    → later ≤ (acquire (reached t history) now path client ttl).0.expire_at
    → (acquire (run (acquire (reached t history) now path client ttl).1 cs) later path other ttl').0
      ≡ record {
        succeeded = false;
        owner = client;
        expire_at = (acquire (reached t history) now path client ttl).0.expire_at;
      }
acquire_excludes t history cs now later path client other ttl ttl' e f h =
    ap (λ r. r.0)
      (acquire_held _ later _ path client other ttl'
        (run-Holds _ path client _ cs
          (acquire-Distinct _ now path client ttl (reached-Distinct t history))
          (acquire-Holds _ now path client ttl e) f)
        h)
