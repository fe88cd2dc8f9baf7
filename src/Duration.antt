-- ===== src/Duration.antt =====
-- `core::time::Duration`, as its number of nanoseconds: what the crate calls of it.
use relentless.Prelude.{ℕ, ◌+◌, ◌-◌, ◌*◌, ◌/◌, ◌≤◌, min, Option, none, some, leb, if◌then◌else◌}

abbrev pub nanos_per_sec : ℕ
nanos_per_sec = 1_000_000_000

abbrev pub u32_max : ℕ
u32_max = 4294967295

abbrev pub u64_max : ℕ
u64_max = 18446744073709551615

abbrev pub u128_max : ℕ
u128_max = 340282366920938463463374607431768211455

-- `Duration::MAX`: u64::MAX seconds and 999,999,999 nanoseconds.
abbrev pub duration_max : ℕ
duration_max = 18446744073709551615999999999

-- A value that a `Duration` can hold.
abbrev pub IsDuration : ℕ → Type 0
IsDuration d = d ≤ duration_max

abbrev pub from_millis : ℕ → ℕ
from_millis ms = ms * 1_000_000

-- `as_micros` and `as_millis` round down.
abbrev pub as_micros : ℕ → ℕ
as_micros d = d / 1_000

abbrev pub as_millis : ℕ → ℕ
as_millis d = d / 1_000_000

abbrev pub from_micros : ℕ → ℕ
from_micros us = us * 1_000

unfoldable pub saturating_add : ℕ → ℕ → ℕ
saturating_add a b = min (a + b) duration_max

-- Subtraction on ℕ stops at 0, as `saturating_sub` does.
abbrev pub saturating_sub : ℕ → ℕ → ℕ
saturating_sub a b = a - b

unfoldable pub checked_mul : ℕ → ℕ → Option ℕ
checked_mul a k = if leb (a * k) duration_max then some (a * k) else none

unfoldable pub saturating_mul : ℕ → ℕ → ℕ
saturating_mul a k = min (a * k) duration_max
