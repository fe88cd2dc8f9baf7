-- ===== src/Examples/AsyncCancel/Dropped.antt =====
-- Where the future of examples/async-cancel.rs stands at each time at which its owner may drop it.
use Prim.Native.String.{String}
use relentless.Prelude.{ℕ, zero, suc, ◌+◌, ◌<◌, ◌≡◌, refl, subst, ap, ◌∙◌, some, arith}
use relentless.Effect.{Eff}
use relentless.Clock.{AsyncClock}
use relentless.Clock.Runtime.{Timer}
use relentless.Clock.Runtime.Tokio.{TokioClock}
use relentless.Wait.Exponential.{Float}
use relentless.Wait.{fixed}
use relentless.Stop.{attempts, stop_after_attempts}
use relentless.Decision.{default_classifier, result_outcome}
use relentless.Policy.{retry_async_op, default_stop, default_wait}
use relentless.Engine.Async.Builder.{from_parts, set_stop, set_wait, set_clock}
use relentless.Engine.Sync.{RunOutcome}
use relentless.Engine.Async.{AsyncRetry, AsyncRun, Polled, still_pending, poll, into_run}
use relentless.Engine.Async.Cancellation.{poll_again}
use relentless.Examples.AsyncCancel.{Reply, FlakyCall, flaky_retry}
use relentless.Examples.AsyncCancel.Stands.{RingsOnTime, flaky, Run}
use relentless.Examples.AsyncCancel.Polls.{poll_first}
use relentless.Examples.AsyncCancel.Timeline.{StandsAt, stand_in_call, next_stands}

-- An owner that polls at each nanosecond, up to `ticks` of them after the first poll, as a runtime
-- polls it where one of its timers rings or more often. `pass` lets a nanosecond go by.
unfoldable pub watch :
    {World O R A Fut Sleep : Type 0}
    → AsyncRetry World O R A Fut Sleep
    → (wake : Eff World (Unit {0})) (pass : World → World) (fuel ticks : ℕ) → AsyncRun Fut Sleep
    → World
    → Polled (RunOutcome O R A) Fut Sleep × World
watch r wake pass fuel zero run w = poll r wake fuel run w
watch r wake pass fuel (suc ticks) run w =
    poll_again (λ run w. watch r wake pass fuel ticks run (pass w)) (poll r wake fuel run w)

module _ {World Instant Sleep : Type 0} (timer : Timer World Instant ℕ Sleep) (message : ℕ → String)
    (tokio : TokioClock timer) (wake : Eff World (Unit {0})) {time : World → ℕ}
    (on_time : RingsOnTime timer time) (pass : World → World)
    (passes : (w : World) → time (pass w) ≡ suc (time w)) where
  abbrev watched :
      (fuel ticks : ℕ)
      → Run timer message tokio wake
      → World
      → Polled (RunOutcome Reply String String) (FlakyCall Sleep) Sleep × World
  watched fuel ticks = watch (flaky timer message tokio wake) wake pass fuel ticks

  -- So many nanoseconds on, counted from the one after the last poll.
  abbrev Later : (fuel begun t ticks : ℕ) → Run timer message tokio wake → World → Type 0
  Later fuel begun t ticks run w =
      (run' : Run timer message tokio wake) × (v : World) × (watched fuel ticks run w
        ≡ (still_pending run', v))
      × (time v ≡ time w + ticks)
      × StandsAt timer message tokio wake on_time pass passes begun (t + ticks) run'

  -- The first poll of some leaves the future pending, and the others follow.
  one_more_poll :
      (fuel begun t ticks : ℕ) (run run' : Run timer message tokio wake) (w : World)
      → poll (flaky timer message tokio wake) wake fuel run w ≡ (still_pending run', w)
      → Later fuel begun (suc t) ticks run' (pass w)
      → Later fuel begun t (suc ticks) run w
  unfolding watch
  one_more_poll fuel begun t ticks run run' w polled (run'', v, watched_on, at_time, h) =
      let on : suc t + ticks ≡ t + suc ticks = omega arith in
      (
        run'',
        v,
        ap (poll_again (λ run w. watched fuel ticks run (pass w))) polled ∙ watched_on,
        omega (arith, at_time, passes w),
        subst (λ (t : ℕ). StandsAt timer message tokio wake on_time pass passes begun t run'') on h,
      )

  stands_next :
      (fuel begun t ticks : ℕ) (run : Run timer message tokio wake) (w : World)
      → StandsAt timer message tokio wake on_time pass passes begun t run
      → time w ≡ begun + suc t
      → suc t + ticks < 850_000_000
      → Later (suc (suc (suc fuel))) begun (suc t) ticks run w
  unfolding watch
  stands_next fuel begun t zero run w h at_time inside =
      let (run', polled, stands) =
        next_stands timer message tokio wake on_time pass passes fuel begun t run w h at_time
          (omega (arith, inside)) in
      let on : suc t ≡ suc t + 0 = omega arith in
      (
        run',
        w,
        polled,
        omega arith,
        subst (λ (t : ℕ). StandsAt timer message tokio wake on_time pass passes begun t run') on
            stands,
      )
  stands_next fuel begun t (suc ticks) run w h at_time inside =
      let (run', polled, stands) =
        next_stands timer message tokio wake on_time pass passes fuel begun t run w h at_time
          (omega (arith, inside)) in
      one_more_poll (suc (suc (suc fuel))) begun (suc t) ticks run run' w polled (
        stands_next fuel begun (suc t) ticks run' (pass w) stands (omega (arith, at_time, passes w))
          (omega (arith, inside)))

  stands_first :
      (fuel ticks : ℕ) (w : World)
      → ticks < 850_000_000
      → Later (suc (suc (suc fuel))) (time w) 0 ticks into_run w
  unfolding watch
  stands_first fuel zero w inside =
      let (run, polled, h) = poll_first timer message tokio wake on_time fuel w in
      (
        run,
        w,
        polled,
        omega arith,
        stand_in_call timer message tokio wake on_time pass passes (time w) (0 + 0) run 1
            (time w + 40_000_000) (omega arith) (omega arith) (omega arith) h,
      )
  stands_first fuel (suc ticks) w inside =
      let (run, polled, h) = poll_first timer message tokio wake on_time fuel w in
      one_more_poll (suc (suc (suc fuel))) (time w) 0 ticks into_run run w polled (
        stands_next fuel (time w) 0 ticks run (pass w)
          (stand_in_call timer message tokio wake on_time pass passes (time w) 0 run 1
            (time w + 40_000_000) (omega arith) (omega arith) (omega arith) h)
          (omega (arith, passes w)) (omega (arith, inside)))

  -- Where the future of the async cancelling example stands when its owner drops it, be it by a timeout
  -- around it or by a branch of a select that is ready first: on a timer that rings on time, for an
  -- owner that polls it at each nanosecond from its first poll on, with fuel for three turns or more
  -- in a poll, it is pending at any time t before 850 ms after that poll, in attempt t / 90 ms + 1: in
  -- the call itself in the first 40 ms of these 90 ms, and asleep after the call in the other 50.
  pub flaky_retry-stands :
      (fl : Float) (system : AsyncClock World Sleep) (fuel ticks : ℕ) (w : World)
      → ticks < 850_000_000
      → (r : AsyncRetry World Reply String String (FlakyCall Sleep) Sleep) × (flaky_retry timer
            message fl system tokio
          ≡ some r)
        × ((run : Run timer message tokio wake) × (v : World) × (watch r wake pass
                (suc (suc (suc fuel)))
                ticks
                into_run
                w
              ≡ (still_pending run, v))
            × (time v ≡ time w + ticks)
            × StandsAt timer message tokio wake on_time pass passes (time w) ticks run)
  unfolding flaky_retry retry_async_op default_stop default_wait attempts stop_after_attempts
      from_parts set_stop set_wait set_clock default_classifier result_outcome fixed
  flaky_retry-stands fl system fuel ticks w inside =
      let (run, v, watched_on, at_time, h) = stands_first fuel ticks w inside in
      let on : 0 + ticks ≡ ticks = omega arith in
      (
        flaky timer message tokio wake,
        refl,
        (
          run,
          v,
          watched_on,
          at_time,
          subst (λ (t : ℕ). StandsAt timer message tokio wake on_time pass passes (time w) t run) on
              h,
        ),
      )
