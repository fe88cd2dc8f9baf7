-- ===== src/Clock/Runtime/Embassy.antt =====
-- clock/embassy_clock.rs: durations as ticks.
use native.Mathlib.Nat.{lt_of_mul-lt-mul_left}
use relentless.Prelude.{ℕ, ◌+◌, ◌*◌, ◌/◌, ◌≤◌, ◌<◌, ◌≡◌, min, arith}
use relentless.Effect.{Eff, ◌>>=◌, pure}
use relentless.Clock.{AsyncClock}
use relentless.Duration.{u64_max, u128_max, as_micros, from_micros}
use relentless.Clock.Runtime.{Timer}

-- `u128::div_ceil`.
abbrev div_ceil_million : ℕ → ℕ
div_ceil_million a = (a + 999_999) / 1_000_000

-- Embassy's time has a rate, `TICK_HZ`, and its durations count ticks in a u64.
pub record Ticks : Type 0 where
  pub ticks : ℕ

unfoldable pub to_embassy_duration : (tick_hz : ℕ) → ℕ → Ticks
to_embassy_duration tick_hz dur =
    let ticks_ceil = div_ceil_million (min (as_micros dur * tick_hz) u128_max) in
    record { ticks = min ticks_ceil u64_max }

-- `embassy_as_micros` is `embassy_time::Duration::as_micros`.
module _ {World Instant Sleep : Type 0} (timer : Timer World Instant Ticks Sleep) (tick_hz : ℕ)
    (embassy_as_micros : Ticks → ℕ) where
  pub record EmbassyClock : Type 0 where
    pub origin : Instant

  unfoldable pub new : Eff World EmbassyClock
  new = do origin ← timer.instant; pure (record { origin = origin })

  unfoldable pub clock : EmbassyClock → AsyncClock World Sleep
  clock self = record {
    now = (do t ← timer.elapsed self.origin; pure (from_micros (embassy_as_micros t)));
    wait_async = λ dur. timer.after (to_embassy_duration tick_hz dur);
    poll_wait = timer.poll_sleep;
  }

-- A conversion is total and rounds the whole microseconds of the duration up to ticks, so that no wait is
-- shorter than these and none is longer by a tick, where the ticks fit into u64; past that it is
-- u64::MAX ticks, and the saturation of the product in u128 is never seen.
pub to_embassy_duration-near :
    (tick_hz dur : ℕ)
    → let asked = as_micros dur * tick_hz in
      let given = (to_embassy_duration tick_hz dur).ticks in
      (given ≤ u64_max)
      × (asked ≤ u64_max * 1_000_000
          → (asked ≤ given * 1_000_000) × (given * 1_000_000 < asked + 1_000_000))
      × (u64_max * 1_000_000 < asked → given ≡ u64_max)
unfolding to_embassy_duration
to_embassy_duration-near tick_hz dur =
    (omega arith, λ h. (omega (arith, h), omega (arith, h)), λ h. omega (arith, h))

-- Embassy's `as_micros`: the microseconds of so many ticks, rounded down.
abbrev pub RoundsDown : (tick_hz : ℕ) → (Ticks → ℕ) → Type 0
RoundsDown tick_hz embassy_as_micros =
    (t : Ticks)
    → (embassy_as_micros t * tick_hz ≤ t.ticks * 1_000_000)
      × (t.ticks * 1_000_000 < (embassy_as_micros t + 1) * tick_hz)

-- A duration that is converted to ticks and read back by Embassy's `as_micros`, which rounds down,
-- is the same to the microsecond: at a tick rate of a megahertz or more, where the ticks fit into u64.
pub embassy_as_micros-to_embassy_duration :
    (tick_hz : ℕ) (embassy_as_micros : Ticks → ℕ)
    → RoundsDown tick_hz embassy_as_micros
    → (dur : ℕ) → 1_000_000 ≤ tick_hz
    → as_micros dur * tick_hz ≤ u64_max * 1_000_000
    → embassy_as_micros (to_embassy_duration tick_hz dur) ≡ as_micros dur
embassy_as_micros-to_embassy_duration tick_hz embassy_as_micros down dur fast fits =
    let t = to_embassy_duration tick_hz dur in
    let (_, near, _) = to_embassy_duration-near tick_hz dur in
    let q = embassy_as_micros t in
    let m = as_micros dur in
    let le : q < m + 1 = lt_of_mul-lt-mul_left tick_hz (omega (arith, down t, near fits, fast)) in
    let ge : m < q + 1 = lt_of_mul-lt-mul_left tick_hz (omega (arith, down t, near fits)) in
    omega (arith, le, ge)
