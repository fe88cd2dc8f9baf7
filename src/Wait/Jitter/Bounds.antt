-- ===== src/Wait/Jitter/Bounds.antt =====
-- The range of every jittered delay, for any state of the generator.
use relentless.Prelude.{ℕ, ◌-◌, ◌*◌, ◌/◌, ◌≤◌, min, max, arith}
use relentless.Effect.{Cell}
use relentless.Duration.{IsDuration, duration_max, u64_max, saturating_add, saturating_mul}
use relentless.State.{RetryState}
use relentless.Wait.{unwrap_or}
use relentless.Wait.Rng.Laws.{next_bounded-le}
use relentless.Wait.Jitter.{
  JitterKind, additive, full, equal, decorrelated, random_duration_in, Jittered, jitter_by,
  jittered_wait,
}

-- The least and the greatest delay that each kind may give.
abbrev pub least : JitterKind → ℕ → ℕ
least (additive m) base = base
least full base = 0
least equal base = base / 2
least decorrelated base = base

abbrev pub greatest : JitterKind → ℕ → RetryState → ℕ
greatest (additive m) base s = saturating_add base m
greatest full base s = base
greatest equal base s = base
greatest decorrelated base s = max base (saturating_mul (unwrap_or s.previous_delay base) 3)

module _ {World : Type 0} where
  random_duration_in_bounds :
      (lower upper : ℕ) (rng : Cell World ℕ) (w : World)
      → IsDuration lower
      → (lower ≤ (random_duration_in lower upper rng w).0)
        × ((random_duration_in lower upper rng w).0 ≤ max lower upper)
  unfolding random_duration_in saturating_add
  random_duration_in_bounds lower upper rng w hl =
      ground (arith, next_bounded-le rng (min (upper - lower) u64_max) w)

  jitter_by_bounds :
      (kind : JitterKind) (rng : Cell World ℕ) (base : ℕ) (s : RetryState) (w : World)
      → IsDuration base
      → (least kind base ≤ (jitter_by kind rng base s w).0)
        × ((jitter_by kind rng base s w).0 ≤ greatest kind base s)
  unfolding jitter_by saturating_add saturating_mul
  jitter_by_bounds (additive m) rng base s w h = ground (arith, random_duration_in_bounds 0 m rng w)
  jitter_by_bounds full rng base s w h = ground (arith, random_duration_in_bounds 0 base rng w)
  jitter_by_bounds equal rng base s w h =
      ground (arith, random_duration_in_bounds 0 (base / 2) rng w)
  jitter_by_bounds decorrelated rng base s w h =
      random_duration_in_bounds base (min (unwrap_or s.previous_delay base * 3) duration_max) rng w
        h

  -- A jittered delay stays within its kind's range over the inner delay, whatever the generator's
  -- state, if the inner delay is a duration: [base, base + max] for additive, [0, base] for full, [base / 2, base] for equal jitter,
  -- and [base, max(base, 3 * previous)] for decorrelated jitter, where `previous` is the base on
  -- the first attempt. Sums and products saturate.
  pub jittered_wait_bounds :
      (j : Jittered World) (s : RetryState) (w : World)
      → IsDuration (j.inner.next_wait s w).0
      → let base = (j.inner.next_wait s w).0 in
        (least j.kind base ≤ ((jittered_wait j).next_wait s w).0)
        × (((jittered_wait j).next_wait s w).0 ≤ greatest j.kind base s)
  unfolding jittered_wait
  jittered_wait_bounds j s w h = jitter_by_bounds j.kind j.rng _ s _ h
