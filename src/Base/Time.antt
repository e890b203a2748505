-- ===== src/Base/Time.antt =====
-- Times of package time as nanoseconds since the zero time.
use Prim.Native.Nat.{ℕ, ◌-◌, ◌/◌, ◌^◌, min}
use roodox_sever_win.Base.Int.{ℤ, pos, negsuc}
use roodox_sever_win.Base.Tests.{leb, if◌then◌else◌}

abbrev pub second : ℕ
second = 1_000_000_000

-- Seconds from year 1 to 1970.
abbrev pub unix_epoch : ℕ
unix_epoch = 62_135_596_800

-- time.Time.Unix
unfoldable pub unix : ℕ → ℤ
unix t =
    let s = t / second in
    if leb unix_epoch s then pos (s - unix_epoch) else negsuc (unix_epoch - s - 1)

-- t.Sub(u), which stops at the bounds of int64.
abbrev pub elapsed : ℕ → ℕ → ℤ
elapsed t u =
    if leb u t then pos (min (t - u) (2 ^ 63 - 1)) else negsuc (min (u - t - 1) (2 ^ 63 - 1))
