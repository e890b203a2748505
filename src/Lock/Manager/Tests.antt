-- ===== src/Lock/Manager/Tests.antt =====
-- The lock manager at concrete inputs: `a` takes the lock of a file at time 100 for 50, and other
-- clients call before it has run out.
use roodox_sever_win.Base.{
  ◌≡◌, ◌≢◌, refl, inr, true, false, Bytes, codes, List, [], ◌∷◌, pos, arith, bytes_eq,
}
use roodox_sever_win.Base.Dict.{get, put, remove}
use roodox_sever_win.Lock.Manager.{acquire, new_manager, renew, release, cleanup_expired}
use roodox_sever_win.Lock.Manager.Exclusion.{
  Call, acquires, renews, releases, cleans, run, step, reached, acquire_excludes,
}
use roodox_sever_win.Lock.Manager.Cleanup.{renew-cleanup_expired}

abbrev file : Bytes
file = codes "f"

abbrev a : Bytes
a = codes "a"

abbrev b : Bytes
b = codes "b"

abbrev before : List Call
before = acquires 10 file b (pos 20) ∷ releases file b ∷ []

abbrev after : List Call
after = acquires 120 file b (pos 9) ∷ renews 130 file b (pos 0) ∷ cleans 140 ∷ []

b≢a : b ≢ a
b≢a e = ground arith

acquire_excludes_example :
    (acquire
      (run (acquire (reached (pos 60) before) 100 file a (pos 50)).1 after)
      150
      file
      b
      (pos 5)).0
    ≡ record { succeeded = false; owner = a; expire_at = 150 }
unfolding reached run step release remove new_manager acquire get put bytes_eq
acquire_excludes_example =
    acquire_excludes (pos 60) before after 100 150 file a b (pos 50) (pos 5) refl
      (omega arith, (inr b≢a, (omega arith, tt))) (omega arith)

renew-cleanup_expired_example :
    ((renew (reached (pos 60) (acquires 10 file b (pos 20) ∷ [])) 31 file b (pos 1)).0.0 ≡ true)
    × ((renew
          (cleanup_expired (reached (pos 60) (acquires 10 file b (pos 20) ∷ [])) 31)
          31
          file
          b
          (pos 1)).0.0
        ≡ false)
unfolding reached run step release remove new_manager acquire get put bytes_eq
renew-cleanup_expired_example =
    renew-cleanup_expired (pos 60) (acquires 10 file b (pos 20) ∷ []) 31 30 file b (pos 1) refl
      (omega arith)
