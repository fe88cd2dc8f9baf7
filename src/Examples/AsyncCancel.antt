-- ===== src/Examples/AsyncCancel.antt =====
-- examples/async-cancel.rs: a retry of slow calls as a future, which its owner may drop.
pub mod Stands
pub mod Polls
pub mod Timeline
pub mod Dropped
use Prim.Native.String.{String}
use relentless.Prelude.{ℕ, Option, none, some}
use relentless.Effect.{Eff, ◌>>=◌, pure}
use relentless.Duration.{from_millis}
use relentless.State.{RetryState}
use relentless.Decision.{Result, err, result_outcome}
use relentless.Stop.{attempts}
use relentless.Wait.{fixed}
use relentless.Wait.Exponential.{Float}
use relentless.Clock.{AsyncClock, Poll, ready, pending}
use relentless.Clock.Runtime.{Timer}
use relentless.Clock.Runtime.Tokio.{TokioClock}
use relentless.Clock.Runtime.Tokio
use relentless.Engine.Async.{AsyncRetry, AsyncRetryOp}
use relentless.Engine.Async.Builder.{set_stop, set_wait, set_clock}
use relentless.Policy.{retry_async_op}

abbrev pub Reply : Type 0
Reply = Result String String

-- The future of the async function, before and after its first poll.
pub data FlakyCall (Sleep : Type 0) : Type 0 where
  unpolled : (attempt : ℕ) → FlakyCall Sleep
  waiting : (attempt : ℕ) → Sleep → FlakyCall Sleep

-- `timer` is tokio's; `message` is the `format!` of the error.
module _ {World Instant Sleep : Type 0} (timer : Timer World Instant ℕ Sleep)
    (message : ℕ → String) where
  abbrev pub answered : ℕ → Poll (Unit {0}) × Sleep → Poll Reply × FlakyCall Sleep
  answered attempt (ready _, sleep) = (ready (err (message attempt)), waiting attempt sleep)
  answered attempt (pending, sleep) = (pending, waiting attempt sleep)

  unfoldable pub poll_flaky : FlakyCall Sleep → Eff World (Poll Reply × FlakyCall Sleep)
  poll_flaky (unpolled attempt) = do
    sleep ← timer.after (from_millis 40)
    p ← timer.poll_sleep sleep
    pure (answered attempt p)
  poll_flaky (waiting attempt sleep) = do p ← timer.poll_sleep sleep; pure (answered attempt p)

  unfoldable pub flaky_network_call : AsyncRetryOp World Reply (FlakyCall Sleep)
  unfolding poll_flaky
  flaky_network_call = record {
    call_op = λ state. pure (unpolled state.attempt);
    poll_op = poll_flaky;
  }

  -- The retry that the three patterns race, which they build alike. `fl` and `system` are the defaults'
  -- floats and clock, which are replaced.
  unfoldable pub flaky_retry :
      Float
      → AsyncClock World Sleep
      → TokioClock timer
      → Option (AsyncRetry World Reply String String (FlakyCall Sleep) Sleep)
  unfolding flaky_network_call
  flaky_retry fl system tokio = elim (retry_async_op fl system flaky_network_call) [
    | none ↦ none
    | some r ↦ (elim (attempts 10) [
      | none ↦ none
      | some stop ↦ some (
          set_clock (set_wait (set_stop r stop) (fixed (from_millis 50))) (Tokio.clock timer tokio))
    ])
  ]
