-- ===== src/Lock/Manager.antt =====
-- internal/lock/manager.go. A time.Time is the number of nanoseconds since the zero time, a
-- time.Duration a signed number of nanoseconds; each call is given the time that it reads, and
-- the mutex makes each call one step.
pub mod Frame
pub mod Exclusion
pub mod Cleanup
mod Tests
use roodox_sever_win.Base.{
  ℕ, ◌+◌, ◌-◌, Bool, true, false, Option, none, some, List, [], Bytes, bytes_eq, ℤ, pos_part,
  neg_part, non_positive, ltb, if◌then◌else◌, keep_if, not,
}
use roodox_sever_win.Base.Dict.{Dict, get, put, remove}

pub record LockInfo : Type 0 where
  pub owner : Bytes
  pub expire_at : ℕ

pub record Manager : Type 0 where
  pub locks : Dict LockInfo
  pub default_ttl : ℤ

-- time.Time.Add
abbrev pub add_time : ℕ → ℤ → ℕ
add_time t d = t + pos_part d - neg_part d

-- now.After(t)
abbrev pub is_after : ℕ → ℕ → Bool
is_after now t = ltb t now

pub new_manager : ℤ → Manager
new_manager default_ttl = record { locks = []; default_ttl = default_ttl }

abbrev pub effective_ttl : Manager → ℤ → ℤ
effective_ttl m ttl = if non_positive ttl then m.default_ttl else ttl

-- A key is free when it has no entry, or the entry's time has passed.
abbrev pub is_free : Option LockInfo → ℕ → Bool
is_free none now = true
is_free (some info) now = is_after now info.expire_at

abbrev store_lock : Manager → Bytes → LockInfo → Manager
store_lock m path info = record m { locks = put m.locks path info }

pub record Acquired : Type 0 where
  pub succeeded : Bool
  pub owner : Bytes
  pub expire_at : ℕ

abbrev pub holder : Option LockInfo → Acquired
holder none = record { succeeded = false; owner = []; expire_at = 0 }
holder (some info) = record { succeeded = false; owner = info.owner; expire_at = info.expire_at }

unfoldable pub acquire : Manager → ℕ → Bytes → Bytes → ℤ → Acquired × Manager
acquire m now path client ttl =
    let exp = add_time now (effective_ttl m ttl) in
    if is_free (get m.locks path) now
    then (
      record { succeeded = true; owner = client; expire_at = exp },
      store_lock m path (record { owner = client; expire_at = exp }),
    )
    else (holder (get m.locks path), m)

pub renew_entry : Manager → ℕ → Bytes → Bytes → ℤ → Option LockInfo → (Bool × ℕ) × Manager
renew_entry m now path client ttl none = ((false, 0), m)
renew_entry m now path client ttl (some info) =
    let exp = add_time now (effective_ttl m ttl) in
    if bytes_eq info.owner client
    then ((true, exp), store_lock m path (record info { expire_at = exp }))
    else ((false, info.expire_at), m)

pub renew : Manager → ℕ → Bytes → Bytes → ℤ → (Bool × ℕ) × Manager
unfolding renew_entry
renew m now path client ttl = renew_entry m now path client ttl (get m.locks path)

pub release_entry : Manager → Bytes → Bytes → Option LockInfo → Bool × Manager
release_entry m path client none = (false, m)
release_entry m path client (some info) =
    if bytes_eq info.owner client
    then (true, record m { locks = remove m.locks path })
    else (false, m)

pub release : Manager → Bytes → Bytes → Bool × Manager
unfolding release_entry
release m path client = release_entry m path client (get m.locks path)

-- The loop deletes from the map that it ranges over, which Go allows.
pub cleanup_expired : Manager → ℕ → Manager
cleanup_expired m now = record m { locks = keep_if (λ e. not (is_after now e.1.expire_at)) m.locks }
