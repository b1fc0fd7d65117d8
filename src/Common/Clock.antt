-- ===== src/Common/Clock.antt =====
-- Go's package `time`: instants with an optional monotonic reading, and durations in nanoseconds.
use Prim.Native.Nat.{◌-◌, ◌*◌, ◌^◌}
use mathlib.Core.Path.{◌≡◌}
use mathlib.Core.Bool.{Bool}
use mathlib.Core.Option.{Option, none, some}
use native.Mathlib.Omega.{arith}
use infrastructure_managemen.Common.Tests.{if◌then◌else◌}
use infrastructure_managemen.Common.Int.{ℤ, pos, negsuc, ◌+ℤ◌, ◌-ℤ◌, ltb_ℤ, ◌≤ℤ◌, quot_ℤ}

-- `wall` counts nanoseconds from the Unix epoch; `mono` is the monotonic reading, which `UTC` drops.
pub record Time : Type 0 where
  pub wall : ℤ
  pub mono : Option ℤ

abbrev pub Duration : Type 0
Duration = ℤ

abbrev pub max_duration : Duration
max_duration = pos (2 ^ 63 - 1)

abbrev pub min_duration : Duration
min_duration = negsuc (2 ^ 63 - 1)

-- The zero instant is 0001-01-01 UTC.
abbrev pub zero_time : Time
zero_time = record { wall = negsuc (62_135_596_800 * 10 ^ 9 - 1); mono = none }

unfoldable pub utc : Time → Time
utc t = record t { mono = none }

-- A difference out of range becomes the nearest duration.
unfoldable pub saturate : ℤ → Duration
saturate d =
    if ltb_ℤ d min_duration then min_duration else if ltb_ℤ max_duration d then max_duration else d

abbrev pub difference : ℤ → ℤ → Option ℤ → Option ℤ → ℤ
difference a b (some x) (some y) = x -ℤ y
difference a b (some x) none = a -ℤ b
difference a b none _ = a -ℤ b

-- t.Sub(u): by the monotonic readings if both instants have one
unfoldable pub sub : Time → Time → Duration
unfolding saturate
sub t u = saturate (difference t.wall u.wall t.mono u.mono)

-- A sum or difference of two durations in 64 bits, which wraps around
unfoldable pub wrap : ℤ → Duration
unfolding ◌-ℤ◌ ◌+ℤ◌
wrap d =
    if ltb_ℤ max_duration d
    then d -ℤ pos (2 ^ 64)
    else if ltb_ℤ d min_duration
    then d +ℤ pos (2 ^ 64)
    else d

-- t.After(u)
unfoldable pub after : Time → Time → Bool
unfolding ◌-ℤ◌
after t u = ltb_ℤ (pos 0) (difference t.wall u.wall t.mono u.mono)

unfoldable pub milliseconds : Duration → ℤ
unfolding quot_ℤ
milliseconds d = quot_ℤ d (10 ^ 6)

-- Without monotonic readings a difference in range is the difference of the wall clocks.
pub sub-utc :
    (t u : Time)
    → min_duration ≤ℤ (t.wall -ℤ u.wall)
    → (t.wall -ℤ u.wall) ≤ℤ max_duration
    → sub (utc t) (utc u) ≡ t.wall -ℤ u.wall
unfolding sub utc
sub-utc t u h k = ground arith
