-- ===== src/Lock/Service.antt =====
-- internal/server/lock_service.go: the requests name paths as clients write them and times to
-- live in seconds.
mod Requests
mod Tests
use roodox_sever_win.Base.{
  ℕ, ◌+◌, ◌-◌, ◌*◌, ◌/◌, Bool, Bytes, ℤ, pos, negsuc, times, wrap64, leb, if◌then◌else◌,
}
use roodox_sever_win.Base.Time.{second, unix}
use roodox_sever_win.Errors.{Result, Code, ok, grpc, ◌>>=◌}
use roodox_sever_win.Fs.RelPath.{normalize_relative_path}
use roodox_sever_win.Lock.Manager.{Manager, Acquired, acquire, renew, release}

-- time.Duration(seconds) * time.Second, an int64 product.
abbrev pub to_duration : ℤ → ℤ
to_duration seconds = wrap64 (times second seconds)

pub record AcquireLockResponse : Type 0 where
  pub succeeded : Bool
  pub owner : Bytes
  pub expire_at : ℤ

pub record RenewLockResponse : Type 0 where
  pub succeeded : Bool
  pub expire_at : ℤ

pub respond : Acquired × Manager → AcquireLockResponse × Manager
respond (r, m) =
    (record { succeeded = r.succeeded; owner = r.owner; expire_at = unix r.expire_at }, m)

-- The request's path, client and seconds; the manager is left alone when the path is rejected.
pub acquire_lock : Manager → ℕ → Bytes → Bytes → ℤ → Result Code (AcquireLockResponse × Manager)
acquire_lock m now req_path client ttl_seconds = do
  path ← grpc (normalize_relative_path req_path)
  ok (respond (acquire m now path client (to_duration ttl_seconds)))

pub renew_lock : Manager → ℕ → Bytes → Bytes → ℤ → Result Code (RenewLockResponse × Manager)
renew_lock m now req_path client ttl_seconds = do
  path ← grpc (normalize_relative_path req_path)
  let ((done, exp), m') = renew m now path client (to_duration ttl_seconds)
  ok (record { succeeded = done; expire_at = unix exp }, m')

pub release_lock : Manager → Bytes → Bytes → Result Code (Bool × Manager)
release_lock m req_path client = do
  path ← grpc (normalize_relative_path req_path)
  ok (release m path client)
