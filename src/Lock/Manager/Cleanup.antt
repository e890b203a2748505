-- ===== src/Lock/Manager/Cleanup.antt =====
-- What the cleanup of expired locks changes for later calls.
use roodox_sever_win.Base.{
  ℕ, ◌≡◌, ◌≤◌, ◌<◌, Bool, true, false, not, Option, none, some, List, Bytes, bytes_eq_iff, ℤ, arith,
}
use roodox_sever_win.Base.Dict.{get, passing}
use roodox_sever_win.Lock.Manager.{
  LockInfo, acquire, renew, cleanup_expired, is_after, Acquired, add_time, effective_ttl,
  renew_entry,
}
use roodox_sever_win.Lock.Manager.Frame.{cleanup_expired_lem, answer, acquire-answer}
use roodox_sever_win.Lock.Manager.Exclusion.{Call, reached, reached-Distinct, Holds}

abbrev not_expired : ℕ → LockInfo → Bool
not_expired now info = not (is_after now info.expire_at)

answer-passing :
    (o : Option LockInfo) (now later : ℕ) (fresh : Acquired)
    → now ≤ later
    → answer (passing (not_expired now) o) later fresh ≡ answer o later fresh
answer-passing none now later fresh h = ground arith
answer-passing (some info) now later fresh h = ground arith

-- A cleanup of expired locks is invisible to acquires: at any time from the cleanup on, an
-- acquire answers as it would have without it.
pub acquire-cleanup_expired :
    (t : ℤ) (history : List Call) (now later : ℕ) (path client : Bytes) (ttl : ℤ)
    → now ≤ later
    → (acquire (cleanup_expired (reached t history) now) later path client ttl).0
      ≡ (acquire (reached t history) later path client ttl).0
acquire-cleanup_expired t history now later path client ttl h =
    rw
      (
        acquire-answer (cleanup_expired (reached t history) now) later path client ttl,
        acquire-answer (reached t history) later path client ttl,
        cleanup_expired_lem (reached t history) now path (reached-Distinct t history),
      )
      (unfold cleanup_expired in
        answer-passing (get (reached t history).locks path) now later
          (record {
            succeeded = true;
            owner = client;
            expire_at = add_time later (effective_ttl (reached t history) ttl);
          })
          h)

-- The cleanup is visible to renews: at any time after its lock has expired, the owner can still
-- renew it, but not once a cleanup has run at that time.
pub renew-cleanup_expired :
    (t : ℤ) (history : List Call) (now until : ℕ) (path client : Bytes) (ttl : ℤ)
    → Holds (reached t history) path client until
    → until < now
    → ((renew (reached t history) now path client ttl).0.0 ≡ true)
      × ((renew (cleanup_expired (reached t history) now) now path client ttl).0.0 ≡ false)
unfolding renew renew_entry
renew-cleanup_expired t history now until path client ttl h lt = (
  rw h (ground (arith, bytes_eq_iff client client)),
  rw (cleanup_expired_lem (reached t history) now path (reached-Distinct t history), h)
      (ground arith),
)
