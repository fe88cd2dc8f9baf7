-- ===== src/Samples/Clocks.antt =====
-- The runtime clocks on small platforms.
use relentless.Prelude.{ℕ, ◌+◌, ◌*◌, ◌≤◌, ◌<◌, ◌≡◌, refl, Option, none, arith}
use relentless.Effect.{Eff, Cell}
use relentless.Duration.{as_micros}
use relentless.Clock.Runtime.System
use relentless.Clock.Runtime.System.{Standard, now-wait}
use relentless.Clock.Runtime.Embassy.{
  to_embassy_duration, to_embassy_duration-near, embassy_as_micros-to_embassy_duration,
}
use relentless.Clock.Runtime.Gloo.{timeout_millis, timeout_millis-near}

-- A process: its time, and the static anchor.
record Process : Type 0 where
  time : ℕ
  anchored : Option ℕ

abbrev process : Process
process = record { time = 500; anchored = none }

abbrev instant : Eff Process ℕ
instant w = (w.time, record w { time = w.time + 3 })

abbrev doze : ℕ → Eff Process (Unit {0})
doze d w = (tt, record w { time = w.time + d })

abbrev anchor : Cell Process (Option ℕ)
anchor = record {
  get = λ w. w.anchored;
  set = λ a w. record w { anchored = a };
  get-set = λ a w. refl;
}

standard : Standard instant doze anchor (λ w. w.time)
standard = record {
  reads = λ w. (omega arith, omega arith);
  instant_keeps = λ w. refl;
  set_keeps = λ o w. refl;
  sleeps = λ d w. omega arith;
  sleep_keeps = λ d w. refl;
}

now-wait_example :
    let clock = System.clock instant doze anchor in
    let (before, w1) = clock.now process in before + 70 ≤ (clock.now (clock.wait 70 w1).1).0
now-wait_example = now-wait instant doze anchor standard 70 process (λ o e. cc)

-- Half a millisecond and some at 32,768 ticks a second.
to_embassy_duration-near_example :
    let asked = as_micros 500_900 * 32768 in
    let given = (to_embassy_duration 32768 500_900).ticks in
    (given ≤ 18446744073709551615)
    × (asked ≤ 18446744073709551615 * 1_000_000
        → (asked ≤ given * 1_000_000) × (given * 1_000_000 < asked + 1_000_000))
    × (18446744073709551615 * 1_000_000 < asked → given ≡ 18446744073709551615)
to_embassy_duration-near_example = to_embassy_duration-near 32768 500_900

embassy_as_micros-to_embassy_duration_example :
    (to_embassy_duration 1_000_000 1_500_250).ticks ≡ 1_500
embassy_as_micros-to_embassy_duration_example =
    embassy_as_micros-to_embassy_duration 1_000_000 (λ t. t.ticks) (λ t. (omega arith, omega arith))
      1_500_250 (omega arith) (omega arith)

timeout_millis-near_example :
    (timeout_millis 999_999 ≤ 2147483647)
    × (timeout_millis 999_999 * 1_000_000 ≤ 999_999)
    × (999_999 < 2147483648 * 1_000_000 → 999_999 < timeout_millis 999_999 * 1_000_000 + 1_000_000)
    × (999_999 < 1_000_000 → timeout_millis 999_999 ≡ 0)
timeout_millis-near_example = timeout_millis-near 999_999
