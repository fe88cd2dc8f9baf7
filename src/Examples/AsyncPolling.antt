-- ===== src/Examples/AsyncPolling.antt =====
-- examples/async-polling.rs: polling a status endpoint as a future until it reports "ready".
pub mod Call
use Prim.Native.String.{String}
use text.Mathlib.Text.{◌==◌}
use relentless.Prelude.{refl, ℕ, ◌-◌, Bool, Option, none, some, leb, if◌then◌else◌}
use relentless.Effect.{Eff, Cell, pure}
use relentless.Duration.{from_millis}
use relentless.Decision.{Result, ok, result_outcome}
use relentless.Predicate.{ok_if}
use relentless.Stop.{attempts}
use relentless.Wait.{fixed}
use relentless.Wait.Exponential.{Float}
use relentless.Clock.{AsyncClock, Poll, ready, VirtualTime}
use relentless.Engine.Async.{AsyncRetry, AsyncRetryOp}
use relentless.Engine.Async.Builder.{set_clock}
use relentless.Policy.{RetryPolicy, new, set_stop, set_wait, until, retry_async}

-- The counter, beside the cells of a virtual clock.
pub record Deploy : Type 0 where
  pub time : VirtualTime
  pub checks_remaining : ℕ

abbrev pub time_cell : Cell Deploy VirtualTime
time_cell = record { get = λ w. w.time; set = λ t w. record w { time = t }; get-set = λ t w. refl }

abbrev pub Status : Type 0
Status = Result String String

-- The closure looks at the counter where it is called; its `async move` block, which holds the status,
-- is ready at its first poll.
unfoldable pub next_status : Eff Deploy String
next_status w =
    if leb 1 w.checks_remaining
    then ("deploying", record w { checks_remaining = w.checks_remaining - 1 })
    else ("ready", w)

unfoldable pub check_deploy_status : AsyncRetryOp Deploy Status String
unfolding next_status
check_deploy_status = record {
  call_op = λ state. next_status;
  poll_op = λ status. pure (ready (ok status), status);
}

-- The closure handed to `predicate::ok`.
unfoldable pub is_ready_status : String → Bool
is_ready_status status = status == "ready"

-- `fl` and `system` are the defaults' floats and clock, which are replaced; `tokio` is `TokioClock::new()`.
module _ {Sleep : Type 0} (fl : Float) (system tokio : AsyncClock Deploy Sleep) where
  unfoldable pub deploy_policy : Option (RetryPolicy Deploy Status String String)
  unfolding is_ready_status
  deploy_policy = elim (new fl) [
    | none ↦ none
    | some policy ↦ (elim (attempts 10) [
      | none ↦ none
      | some stop ↦ some (
          until (set_wait (set_stop policy stop) (fixed (from_millis 25)))
            (ok_if (λ status. pure (is_ready_status status))))
    ])
  ]

  unfoldable pub deploy_retry : Option (AsyncRetry Deploy Status String String String Sleep)
  unfolding deploy_policy check_deploy_status
  deploy_retry = elim deploy_policy [
    | none ↦ none
    | some policy ↦ some (set_clock (retry_async system policy check_deploy_status) tokio)
  ]
