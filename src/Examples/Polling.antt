-- ===== src/Examples/Polling.antt =====
-- examples/polling-terminal-failure.rs: polling a job that is pending, done or failed for good.
pub mod Answers
pub mod Call
use Prim.Native.String.{String}
use relentless.Prelude.{ℕ, zero, suc, ◌+◌, min, Option, none, some, List, [], ◌∷◌, refl}
use relentless.Effect.{Eff, Cell, pure}
use relentless.Duration.{from_millis}
use relentless.Decision.{Result, ok, err, Verdict, verdict_into, result_outcome}
use relentless.Stop.{attempts}
use relentless.Wait.{fixed}
use relentless.Wait.Exponential.{Float}
use relentless.Clock.{SyncClock, VirtualTime, new, virtual_sync}
use relentless.Engine.Error.{RetryError}
use relentless.Engine.Sync.{Retry, call}
use relentless.Engine.Sync.Builder.{decide, set_wait, set_stop, set_clock}
use relentless.Policy.{retry_op}
use relentless.Examples.Calls.{call_built}
use relentless.Examples.Scripted.{Job, time_cell}

pub data JobStatus : Type 0 where
  pending done : JobStatus

pub data JobError : Type 0 where
  transient : JobError
  fatal : String → JobError

abbrev pub PollOutcome : Type 0
PollOutcome = Result JobStatus JobError

-- The closure handed to `.decide`.
unfoldable pub sort_out : PollOutcome → Verdict JobStatus JobError PollOutcome
sort_out (ok done) = Verdict.return done
sort_out (err (fatal msg)) = Verdict.abort (fatal msg)
sort_out (ok pending) = Verdict.retry (ok pending)
sort_out (err transient) = Verdict.retry (err transient)

-- `fl` and `system` are the defaults' floats and clock, which are replaced. `none` is a panic of
-- `stop::attempts`.
module _ (fl : Float) (system : SyncClock Job) where
  unfoldable pub polling_retry :
      Eff Job PollOutcome → Option (Retry Job PollOutcome JobStatus JobError)
  polling_retry poller = elim (retry_op fl system (λ state. poller)) [
    | none ↦ none
    | some r ↦ (elim (attempts 10) [
      | none ↦ none
      | some stop ↦ some (
          set_clock
            (set_stop
              (set_wait (decide r (λ outcome. pure (sort_out outcome))) (fixed (from_millis 10)))
              stop)
            (virtual_sync time_cell))
    ])
  ]

  unfoldable pub poll_until_done :
      Eff Job PollOutcome
      → ℕ
      → Job
      → Option (Result JobStatus (RetryError JobError PollOutcome) × Job)
  unfolding polling_retry
  poll_until_done poller = call_built (polling_retry poller)
