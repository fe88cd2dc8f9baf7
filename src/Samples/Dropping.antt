-- ===== src/Samples/Dropping.antt =====
-- The async cancelling example at its 120 ms, on a world that is its time.
use Prim.Native.String.{String}
use relentless.Prelude.{ℕ, suc, ◌+◌, ◌-◌, ◌≡◌, refl, leb, some, if◌then◌else◌, arith}
use relentless.Effect.{pure}
use relentless.Clock.{ready, pending}
use relentless.Clock.Runtime.{Timer}
use relentless.Clock.Runtime.Tokio.{TokioClock}
use relentless.Clock.Runtime.Tokio
use relentless.Engine.Async.{AsyncRetry, still_pending, into_run}
use relentless.Examples.AsyncCancel.{Reply, FlakyCall, flaky_retry}
use relentless.Examples.AsyncCancel.Stands.{RingsOnTime, Run}
use relentless.Examples.AsyncCancel.Timeline.{StandsAt}
use relentless.Examples.AsyncCancel.Dropped.{watch, flaky_retry-stands}
use relentless.Samples.Reals.{reals}

abbrev timer : Timer ℕ ℕ ℕ ℕ
timer = record {
  instant = λ w. (w, w);
  elapsed = λ origin w. (w - origin, w);
  after = λ d w. (w + d, w);
  poll_sleep = λ u w. ((if leb u w then ready tt else pending, u), w);
}

abbrev tokio : TokioClock timer
tokio = record { origin = 7 }

abbrev message : ℕ → String
message n = "connection refused"

on_time : RingsOnTime timer (λ w. w)
on_time = record {
  until = λ u. u;
  since = λ origin w. w - origin;
  elapses = λ o w. refl;
  starts = λ d w. refl;
  rings = λ u w. refl;
}

flaky_retry-stands_example :
    (r : AsyncRetry ℕ Reply String String (FlakyCall ℕ) ℕ) × (flaky_retry timer message reals
        (Tokio.clock timer tokio)
        tokio
      ≡ some r)
    × ((run : Run timer message tokio (pure tt)) × (v : ℕ) × (watch r
            (pure tt)
            (λ w. suc w)
            3
            120_000_000
            into_run
            7
          ≡ (still_pending run, v))
        × (v ≡ 7 + 120_000_000)
        × StandsAt timer message tokio (pure tt) on_time (λ w. suc w) (λ w. refl) 7 120_000_000 run)
flaky_retry-stands_example =
    flaky_retry-stands timer message tokio (pure tt) on_time (λ w. suc w) (λ w. refl) reals
      (Tokio.clock timer tokio) 0 120_000_000 7 (omega arith)
