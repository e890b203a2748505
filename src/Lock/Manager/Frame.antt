-- ===== src/Lock/Manager/Frame.antt =====
-- What each call of the lock manager leaves in the map, at every path and on every branch.
use roodox_sever_win.Base.{
  ℕ, ◌≡◌, Bool, true, false, not, ◌&&◌, Option, none, some, Bytes, bytes_eq, bytes_eq_iff, ℤ,
  if◌then◌else◌, arith,
}
use roodox_sever_win.Base.Dict.{
  get, get-put, get-remove, get-keep_if, passing, Distinct, put-Distinct, remove-Distinct,
  keep_if-Distinct,
}
use roodox_sever_win.Lock.Manager.{
  Manager, LockInfo, acquire, renew, renew_entry, release, release_entry, cleanup_expired, is_free,
  is_after, add_time, Acquired, holder, effective_ttl,
}

abbrev pub is_owner : Option LockInfo → Bytes → Bool
is_owner none client = false
is_owner (some info) client = bytes_eq info.owner client

abbrev pub granted : Manager → ℕ → Bytes → ℤ → LockInfo
granted m now client ttl = record { owner = client; expire_at = add_time now (effective_ttl m ttl) }

-- Acquire writes the new holder if the path is free, and changes no other path.
pub acquire_lem :
    (m : Manager) (now : ℕ) (path client : Bytes) (ttl : ℤ) (j : Bytes)
    → get (acquire m now path client ttl).1.locks j ≡ (
        if is_free (get m.locks path) now && bytes_eq path j
        then some (granted m now client ttl)
        else get m.locks j)
unfolding acquire
acquire_lem m now path client ttl j =
    ground (arith, get-put m.locks path j (granted m now client ttl))

renew_entry_lem :
    (m : Manager) (now : ℕ) (path client : Bytes) (ttl : ℤ) (j : Bytes) (o : Option LockInfo)
    → get (renew_entry m now path client ttl o).1.locks j ≡ (
        if is_owner o client && bytes_eq path j
        then some (granted m now client ttl)
        else get m.locks j)
unfolding renew_entry
renew_entry_lem m now path client ttl j none = ground arith
renew_entry_lem m now path client ttl j (some info) = ground (
  arith,
  get-put m.locks path j (record info { expire_at = add_time now (effective_ttl m ttl) }),
  bytes_eq_iff info.owner client,
)

-- Renew moves the time of the owner's entry, and does so whether or not that time has passed.
pub renew_lem :
    (m : Manager) (now : ℕ) (path client : Bytes) (ttl : ℤ) (j : Bytes)
    → get (renew m now path client ttl).1.locks j ≡ (
        if is_owner (get m.locks path) client && bytes_eq path j
        then some (granted m now client ttl)
        else get m.locks j)
renew_lem m now path client ttl j =
    unfold renew in renew_entry_lem m now path client ttl j (get m.locks path)

release_entry_lem :
    (m : Manager) (path client j : Bytes) (o : Option LockInfo)
    → get (release_entry m path client o).1.locks j
      ≡ (if is_owner o client && bytes_eq path j then none else get m.locks j)
unfolding release_entry
release_entry_lem m path client j none = ground arith
release_entry_lem m path client j (some info) = ground (arith, get-remove m.locks path j)

-- Release removes the owner's entry, and changes no other path.
pub release_lem :
    (m : Manager) (path client j : Bytes)
    → get (release m path client).1.locks j
      ≡ (if is_owner (get m.locks path) client && bytes_eq path j then none else get m.locks j)
release_lem m path client j = unfold release in release_entry_lem m path client j (get m.locks path)

-- The cleanup removes exactly the entries whose time has passed.
pub cleanup_expired_lem :
    (m : Manager) (now : ℕ) (j : Bytes)
    → Distinct m.locks
    → get (cleanup_expired m now).locks j
      ≡ passing (λ info. not (is_after now info.expire_at)) (get m.locks j)
unfolding cleanup_expired
cleanup_expired_lem m now j d = get-keep_if (λ info. not (is_after now info.expire_at)) m.locks j d

pub acquire-Distinct :
    (m : Manager) (now : ℕ) (path client : Bytes) (ttl : ℤ)
    → Distinct m.locks
    → Distinct (acquire m now path client ttl).1.locks
unfolding acquire
acquire-Distinct m now path client ttl d =
    ground (arith, put-Distinct m.locks path (granted m now client ttl) d)

pub renew-Distinct :
    (m : Manager) (now : ℕ) (path client : Bytes) (ttl : ℤ)
    → Distinct m.locks
    → Distinct (renew m now path client ttl).1.locks
unfolding renew
renew-Distinct m now path client ttl d = entry (get m.locks path)
  where
    entry : (o : Option LockInfo) → Distinct (renew_entry m now path client ttl o).1.locks
    entry none = d
    entry (some info) = ground (
      arith,
      put-Distinct m.locks path (record info { expire_at = add_time now (effective_ttl m ttl) }) d,
    )

pub release-Distinct :
    (m : Manager) (path client : Bytes)
    → Distinct m.locks
    → Distinct (release m path client).1.locks
unfolding release
release-Distinct m path client d = entry (get m.locks path)
  where
    entry : (o : Option LockInfo) → Distinct (release_entry m path client o).1.locks
    entry none = d
    entry (some info) = ground (arith, remove-Distinct m.locks path d)

pub cleanup_expired-Distinct :
    (m : Manager) (now : ℕ) → Distinct m.locks → Distinct (cleanup_expired m now).locks
unfolding cleanup_expired
cleanup_expired-Distinct m now d = keep_if-Distinct _ m.locks d

-- What an acquire answers: `fresh` if the path is free.
abbrev pub answer : Option LockInfo → ℕ → Acquired → Acquired
answer o now fresh = if is_free o now then fresh else holder o

pub acquire-answer :
    (m : Manager) (now : ℕ) (path client : Bytes) (ttl : ℤ)
    → (acquire m now path client ttl).0
      ≡ answer (get m.locks path) now (record {
        succeeded = true;
        owner = client;
        expire_at = add_time now (effective_ttl m ttl);
      })
unfolding acquire
acquire-answer m now path client ttl = ground arith

pub answer-succeeded :
    (o : Option LockInfo) (now : ℕ) (fresh : Acquired)
    → (answer o now fresh).succeeded ≡ true
    → answer o now fresh ≡ fresh
answer-succeeded none now fresh e = ground arith
answer-succeeded (some info) now fresh e = ground arith
