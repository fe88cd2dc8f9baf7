-- ===== src/Samples/Timed.antt =====
-- The blocking engine on a clock that waits as long as it is told to.
use relentless.Prelude.{ℕ, ◌+◌, ◌≤◌, ◌≡◌, refl, some, [], arith}
use relentless.Duration.{duration_max, saturating_add, checked_mul}
use relentless.State.{RetryState, RetryState, for_attempt, with_elapsed, with_previous_delay}
use relentless.Decision.{Result, err, default_classifier, result_outcome, classify_result}
use relentless.Engine.Elapsed.{start, read, observe}
use relentless.Engine.Step.{step, stats_for, retry_state, exhaust, back_off, settle}
use relentless.Stop.Builtin.{interpret}
use relentless.Stop.{stop_after_attempts, stop_any}
use relentless.Stop
use relentless.Wait.{linear, saturating_duration_mul}
use relentless.Engine.Sync.{
  Retry, RunOutcome, run, run_loop, iteration, sleep, first_cursor, next_cursor, progress_of,
  before_state,
}
use relentless.Engine.Sync.Timed.{Coherent}
use relentless.Engine.Sync.Deadline.{run_returns_by_deadline}
use relentless.Engine.Sync.Budget.{NoMoreThan, run-WithinBudget}
use relentless.Samples.Sim.{Sim, begin, policies, blocking}
use relentless.Samples.Engine.{stats, end, result}

-- The same retry on a clock that waits as long as it is told to.
abbrev ideal : Retry Sim (Result ℕ ℕ) ℕ ℕ
ideal = record blocking {
  clock = record {
    now = λ w. (w.time.now, w);
    wait = λ d w. (tt, record w { time = record (w.time) { now = w.time.now + d } });
  };
}

coherent : Coherent ideal (λ w. w.time.now)
unfolding interpret stop_any Stop.elapsed stop_after_attempts linear default_classifier
coherent = record {
  steps = record {
    at_after = λ s w. omega arith;
    at_exit = λ e w. omega arith;
    at_decide = λ o w. omega arith;
    at_stop = λ s w. omega arith;
    at_next_wait = λ s w. omega arith;
  };
  at_before = λ s w. omega arith;
  at_op = λ s w. omega arith;
  reads = λ w. (omega arith, omega arith);
  waits = λ d w. omega arith;
}

ideal_succeeds :
    run ideal 5 begin
    ≡ some ((result, stats), record end { time = record { now = 10; waits = [] } })
unfolding run run_loop iteration sleep start read observe first_cursor next_cursor progress_of
    before_state for_attempt with_elapsed with_previous_delay saturating_add stats_for retry_state
    exhaust back_off settle step default_classifier result_outcome classify_result interpret
    stop_after_attempts Stop.elapsed stop_any linear saturating_duration_mul checked_mul
ideal_succeeds = refl

run-WithinBudget_example :
    (stats.total_wait ≤ stats.total_elapsed) × NoMoreThan (some 100) stats.total_wait
run-WithinBudget_example =
    run-WithinBudget coherent 5 begin (record end { time = record { now = 10; waits = [] } }) result
      stats ideal_succeeds

-- An operation that never succeeds, under a strategy that never stops.
abbrev hopeless : Retry Sim (Result ℕ ℕ) ℕ ℕ
hopeless = record ideal {
  op = λ st w. (err 7, w);
  policies = record policies { stop = Stop.never };
}

hopeless_coherent : Coherent hopeless (λ w. w.time.now)
unfolding interpret stop_any Stop.elapsed stop_after_attempts linear default_classifier Stop.never
hopeless_coherent = record {
  steps = record {
    at_after = λ s w. omega arith;
    at_exit = λ e w. omega arith;
    at_decide = λ o w. omega arith;
    at_stop = λ s w. omega arith;
    at_next_wait = λ s w. omega arith;
  };
  at_before = λ s w. omega arith;
  at_op = λ s w. omega arith;
  reads = λ w. (omega arith, omega arith);
  waits = λ d w. omega arith;
}

at_least : (d x : ℕ) → d ≤ duration_max → d ≤ saturating_add d x
unfolding saturating_add
at_least d x fits = omega (arith, fits)

three_at_least : (s : RetryState) (w : Sim) → 3 ≤ (policies.wait.next_wait s w).0
unfolding linear
three_at_least s w = at_least 3 _ (omega arith)

run_returns_by_deadline_example :
    (x : RunOutcome (Result ℕ ℕ) ℕ ℕ × Sim) × (run hopeless 35 begin ≡ some x)
run_returns_by_deadline_example =
    run_returns_by_deadline hopeless_coherent 100 3 refl three_at_least 34 begin (omega arith)
