-- ===== src/Lock/Service/Requests.antt =====
-- The lock requests, from the path as the client writes it to the answer.
use roodox_sever_win.Base.Time.{unix}
use roodox_sever_win.Base.{
  ℕ, ◌≤◌, ◌≡◌, true, false, Bytes, ℤ, pos, wrap64, arith, ap, sym, refl, ◌∙◌,
}
use roodox_sever_win.Base.Dict.{get, put}
use roodox_sever_win.Errors.{Result, Code, ok}
use roodox_sever_win.Fs.RelPath.{normalize_relative_path}
use roodox_sever_win.Lock.Manager.{Manager, Acquired, acquire, add_time, effective_ttl, is_free}
use roodox_sever_win.Lock.Manager.Exclusion.{Holds, acquire_held, acquire-Holds}
use roodox_sever_win.Lock.Manager.Frame.{acquire-answer, answer-succeeded}
use roodox_sever_win.Lock.Service.{AcquireLockResponse, respond, acquire_lock, to_duration}

acquire-expire_at :
    (m : Manager) (now : ℕ) (path client : Bytes) (ttl : ℤ)
    → (acquire m now path client ttl).0.succeeded ≡ true
    → (acquire m now path client ttl).0.expire_at ≡ add_time now (effective_ttl m ttl)
acquire-expire_at m now path client ttl e = rw (acquire-answer m now path client ttl) (
    ap (λ (a : Acquired). a.expire_at)
      (answer-succeeded (get m.locks path) now _ (rw (acquire-answer m now path client ttl) at e)))

acquired-Holds :
    (m : Manager) (now : ℕ) (path client : Bytes) (ttl : ℤ)
    → (acquire m now path client ttl).0.succeeded ≡ true
    → Holds (acquire m now path client ttl).1 path client (add_time now (effective_ttl m ttl))
acquired-Holds m now path client ttl e =
    rw (acquire-expire_at m now path client ttl e) at (acquire-Holds m now path client ttl e)

acquire_lock_at :
    (m : Manager) (now : ℕ) (req path client : Bytes) (ttl : ℤ)
    → normalize_relative_path req ≡ ok path
    → acquire_lock m now req client ttl ≡ ok (respond (acquire m now path client (to_duration ttl)))
unfolding acquire_lock
acquire_lock_at m now req path client ttl p = rw p

answered :
    (a : Acquired × Manager) (r : AcquireLockResponse) (m : Manager)
    → ◌≡◌ {A = Result Code (AcquireLockResponse × Manager)} (ok (respond a)) (ok (r, m))
    → (a.1 ≡ m) × (a.0.succeeded ≡ r.succeeded) × (unix a.0.expire_at ≡ r.expire_at)
unfolding respond
answered (a, n) r m e = ground arith

second_refused :
    (a : Acquired × Manager) (later until : ℕ) (path client other : Bytes) (ttl : ℤ)
    (r : AcquireLockResponse) (m : Manager)
    → (a.1 ≡ m) × (a.0.succeeded ≡ r.succeeded) × (unix a.0.expire_at ≡ r.expire_at)
    → a.0.expire_at ≡ until
    → Holds a.1 path client until
    → later ≤ until
    → respond (acquire m later path other ttl)
      ≡ (record { succeeded = false; owner = client; expire_at = r.expire_at }, m)
unfolding respond
second_refused (a, n) later until path client other ttl r m t u h le =
    rw (acquire_held m later until path client other ttl (rw (t.0) at h) le) (cc (t.2, ap unix u))

-- Two lock requests whose paths have one normal form contend for one lock: after the first
-- succeeds, the second, whoever sends it, is refused until the expiry time has passed; it is
-- told the holder and the time that the holder was told, and changes nothing.
pub acquire_lock_excludes :
    (m m' : Manager) (now later : ℕ) (req req' path client other : Bytes) (ttl ttl' : ℤ)
    (r : AcquireLockResponse)
    → normalize_relative_path req ≡ ok path
    → normalize_relative_path req' ≡ ok path
    → acquire_lock m now req client ttl ≡ ok (r, m')
    → r.succeeded ≡ true
    → later ≤ add_time now (effective_ttl m (to_duration ttl))
    → acquire_lock m' later req' other ttl'
      ≡ ok (record { succeeded = false; owner = client; expire_at = r.expire_at }, m')
acquire_lock_excludes m m' now later req req' path client other ttl ttl' r p p' e s h =
    rw (acquire_lock_at m' later req' path other ttl' p') (
      ap ok (
        second_refused (acquire m now path client (to_duration ttl)) later _ path client other
          (to_duration ttl') r m' t (acquire-expire_at m now path client (to_duration ttl) s')
          (acquired-Holds m now path client (to_duration ttl) s') h))
  where
    t :
        ((acquire m now path client (to_duration ttl)).1 ≡ m')
        × ((acquire m now path client (to_duration ttl)).0.succeeded ≡ r.succeeded)
        × (unix (acquire m now path client (to_duration ttl)).0.expire_at ≡ r.expire_at)
    t = answered _ r m' (sym (acquire_lock_at m now req path client ttl p) ∙ e)

    s' : (acquire m now path client (to_duration ttl)).0.succeeded ≡ true
    s' = t.1 ∙ s

default_at_overflow :
    (m : Manager) (seconds : ℕ)
    → 9_223_372_037 ≤ seconds
    → seconds ≤ 18_446_744_073
    → effective_ttl m (to_duration (pos seconds)) ≡ m.default_ttl
unfolding wrap64
default_at_overflow m s lo hi = ground arith

acquire_free :
    (m : Manager) (now : ℕ) (path client : Bytes) (ttl : ℤ)
    → is_free (get m.locks path) now ≡ true
    → acquire m now path client ttl ≡ (
      record { succeeded = true; owner = client; expire_at = add_time now (effective_ttl m ttl) },
      record m {
        locks =
            put m.locks path
              (record { owner = client; expire_at = add_time now (effective_ttl m ttl) });
      },
    )
unfolding acquire
acquire_free m now path client ttl e = rw e refl

-- AcquireLock with a time to live between 9223372037 and 18446744073 seconds, of a path that
-- normalises and has no lock or one whose time has passed, succeeds with the default time to
-- live in place of the one asked for, since the int64 product is negative: the answer and the
-- lock expire then, and no other lock changes.
pub ttl_overflow :
    (m : Manager) (now seconds : ℕ) (req path client : Bytes)
    → normalize_relative_path req ≡ ok path
    → is_free (get m.locks path) now ≡ true
    → 9_223_372_037 ≤ seconds
    → seconds ≤ 18_446_744_073
    → acquire_lock m now req client (pos seconds)
      ≡ ok (
        record { succeeded = true; owner = client; expire_at = unix (add_time now m.default_ttl) },
        record m {
          locks =
              put m.locks path (record { owner = client; expire_at = add_time now m.default_ttl });
        },
      )
unfolding respond
ttl_overflow m now s req path client p free lo hi =
    rw
      (
        acquire_lock_at m now req path client (pos s) p,
        acquire_free m now path client (to_duration (pos s)) free,
        default_at_overflow m s lo hi,
      )
      refl
