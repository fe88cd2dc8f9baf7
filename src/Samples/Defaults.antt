-- ===== src/Samples/Defaults.antt =====
-- The defaults and a configured policy, on the simulated world.
use relentless.Prelude.{ℕ, ◌≤◌, ◌≡◌, refl, none, some, arith}
use relentless.Decision.{Result, result_outcome, default_classifier}
use relentless.Stop.{stop_after_attempts}
use relentless.Stop
use relentless.Wait.{fixed}
use relentless.Clock.{virtual_sync}
use relentless.Engine.Sync.{Retry, RunOutcome, run}
use relentless.Engine.Sync.Builder as SyncBuilder
use relentless.Policy.{OfResult, default_wait, default_stop, retry_op}
use relentless.Policy.Defaults.{retry_op_returns}
use relentless.Samples.Reals.{reals}
use relentless.Samples.Sim.{Sim, begin, time_cell, op}

abbrev by_default : Retry Sim (Result ℕ ℕ) ℕ ℕ
by_default =
    SyncBuilder.from_parts (virtual_sync time_cell) op default_classifier (stop_after_attempts 3)
      (default_wait reals) none

is_default : retry_op reals (virtual_sync time_cell) op ≡ some by_default
unfolding retry_op default_stop Stop.attempts
is_default = refl

retry_op_returns_example :
    (x : RunOutcome (Result ℕ ℕ) ℕ ℕ × Sim) × (run by_default 4 begin ≡ some x)
    × (run by_default 3 begin ≡ some x)
    × (1 ≤ x.0.1.attempts)
    × (x.0.1.attempts ≤ 3)
retry_op_returns_example =
    retry_op_returns reals (virtual_sync time_cell) op by_default 4 begin is_default (omega arith)

abbrev policy : OfResult Sim ℕ ℕ
policy = record {
  stop = stop_after_attempts 3;
  wait = fixed 5;
  classifier = default_classifier;
  timeout = none;
}
