-- ===== src/Lock/Service/Tests.antt =====
-- The lock requests and the manager at concrete inputs.
use roodox_sever_win.Base.Time.{unix}
use roodox_sever_win.Base.{
  ℕ, ◌+◌, ◌≡◌, refl, true, false, Bytes, codes, [], pos, arith, bytes_eq, wrap64,
}
use roodox_sever_win.Base.Dict.{get, put}
use roodox_sever_win.Errors.{ok}
use roodox_sever_win.Fs.RelPath.{normalize_relative_path, clean, check_clean}
use roodox_sever_win.Lock.Manager.{Manager, acquire}
use roodox_sever_win.Lock.Service.{acquire_lock, respond, to_duration}
use roodox_sever_win.Lock.Service.Requests.{acquire_lock_excludes, ttl_overflow}

abbrev manager : Manager
manager = record { locks = []; default_ttl = pos 60_000_000_000 }

abbrev at : ℕ
at = 63_000_000_000_000_000_000

abbrev file : Bytes
file = codes "src/main.go"

acquire_lock_excludes_example :
    acquire_lock
      (respond (acquire manager at file (codes "a") (to_duration (pos 30)))).1
      (at + 30_000_000_000)
      (codes "src//./main.go")
      (codes "b")
      (pos 5)
    ≡ ok (
      record { succeeded = false; owner = codes "a"; expire_at = unix (at + 30_000_000_000) },
      (respond (acquire manager at file (codes "a") (to_duration (pos 30)))).1,
    )
unfolding normalize_relative_path clean check_clean bytes_eq wrap64 acquire_lock acquire respond get
    put
acquire_lock_excludes_example =
    acquire_lock_excludes manager _ at (at + 30_000_000_000) file (codes "src//./main.go") file
      (codes "a") (codes "b") (pos 30) (pos 5)
      (record { succeeded = true; owner = codes "a"; expire_at = unix (at + 30_000_000_000) }) refl
      refl refl refl (omega arith)

ttl_overflow_example :
    acquire_lock manager at (codes "src//./main.go") (codes "a") (pos 10_000_000_000)
    ≡ ok (
      record { succeeded = true; owner = codes "a"; expire_at = unix (at + 60_000_000_000) },
      record manager {
        locks = put [] file (record { owner = codes "a"; expire_at = at + 60_000_000_000 });
      },
    )
unfolding normalize_relative_path clean check_clean bytes_eq get
ttl_overflow_example =
    ttl_overflow manager at 10_000_000_000 (codes "src//./main.go") file (codes "a") refl refl
      (omega arith) (omega arith)
