-- ===== src/Samples/Failures.antt =====
-- An operation that fails, and a future that is dropped.
use relentless.Prelude.{ℕ, ◌≡◌, refl, some, [], ◌∷◌, Bool, true, false, leb, if◌then◌else◌}
use relentless.Effect.{pure}
use relentless.Duration.{saturating_add, checked_mul}
use relentless.State.{for_attempt, with_elapsed, with_previous_delay}
use relentless.Decision.{Result, err, default_classifier, result_outcome, classify_result}
use relentless.Engine.Elapsed.{start, read, observe}
use relentless.Engine.Termination.{RetryStats, exhausted}
use relentless.Engine.Error.{RetryError}
use relentless.Engine.Step.{step, stats_for, retry_state, exhaust, back_off, settle}
use relentless.Stop.Builtin.{interpret}
use relentless.Stop.{stop_after_attempts}
use relentless.Stop
use relentless.Wait.{linear, saturating_duration_mul}
use relentless.Clock.{
  virtual_sync, virtual_async, poll_virtual, record_wait, advance, VirtualWait, ready, pending,
}
use relentless.Engine.Sync.{
  Retry, run, run_loop, iteration, sleep, first_cursor, next_cursor, progress_of, before_state,
}
use relentless.Engine.Sync.Verdicts.{Passed, run-last_error}
use relentless.Engine.Async.{AsyncRetry, into_run}
use relentless.Engine.Async.Tallied.{PollTally}
use relentless.Engine.Async.Cancellation.{Seen, poll_times, poll_times_counts}
use relentless.Engine.Async.Machine.{Reaches}
use relentless.Engine.Async.Sound.{Sound}
use relentless.Engine.Async.Reach.{At, poll_times-Sound}
use relentless.Samples.Sim.{Sim, begin, time_cell, policies, blocking, wake}

-- It gives up after two attempts.
abbrev failing : Retry Sim (Result ℕ ℕ) ℕ ℕ
failing = record blocking {
  op = λ s w. (err s.attempt, w);
  policies = record policies { stop = stop_after_attempts 2 };
}

abbrev failed : RetryStats
failed = record { attempts = 2; total_elapsed = 3; total_wait = 3; stop_reason = exhausted }

abbrev left : Sim
left = record { time = record { now = 3; waits = 3 ∷ [] }; tally = 1202; calls = 0 }

abbrev gave_up : Result ℕ (RetryError ℕ (Result ℕ ℕ))
gave_up = err (RetryError.exhausted (err 2))

fails_twice : run failing 2 begin ≡ some ((gave_up, failed), left)
unfolding run run_loop iteration sleep start read observe first_cursor next_cursor progress_of
    before_state for_attempt with_elapsed with_previous_delay virtual_sync record_wait advance
    saturating_add stats_for retry_state exhaust back_off settle step default_classifier
    result_outcome classify_result stop_after_attempts linear saturating_duration_mul checked_mul
fails_twice = refl

run-last_error_example : Passed failing gave_up
run-last_error_example = run-last_error failing 2 begin left gave_up failed refl fails_twice

-- The future of the other samples, with an operation that keeps no tally.
abbrev untallied : AsyncRetry Sim (Result ℕ ℕ) ℕ ℕ ℕ VirtualWait
untallied = record {
  op = record {
    call_op = λ s. pure s.attempt;
    poll_op = λ n. pure (if leb 2 n then pending else ready (err n), n);
  };
  clock = virtual_async time_cell;
  policies = policies;
}

unmoved :
    (d : ℕ) (b : Bool) (w : Sim)
    → (poll_virtual time_cell (record { dur = d; advanced = b }) w).1.tally ≡ w.tally
unfolding poll_virtual record_wait advance
unmoved d true w = refl
unmoved d false w = refl

tallied : PollTally untallied wake (λ w. w.tally) 1 100 1000
unfolding virtual_async poll_virtual record_wait advance interpret stop_after_attempts linear
    default_classifier Stop.stop_any Stop.elapsed
tallied = record {
  steps = record {
    at_after = λ s w. refl;
    at_exit = λ e w. refl;
    at_decide = λ o w. refl;
    at_stop = λ s w. refl;
    at_next_wait = λ s w. refl;
  };
  at_before = λ s w. refl;
  at_call = λ s w. refl;
  at_poll = λ f w. refl;
  at_now = λ w. refl;
  at_wait = λ d w. refl;
  at_sleep = λ f w. unmoved f.dur f.advanced w;
  at_wake = λ w. refl;
}

poll_times_counts_example : Seen tallied 0 (poll_times untallied wake 3 9 into_run begin)
poll_times_counts_example = poll_times_counts tallied 2 9 begin

poll_times-Sound_example :
    At (λ run. Reaches into_run run × Sound run) (poll_times untallied wake 3 9 into_run begin).0
poll_times-Sound_example = poll_times-Sound untallied wake 3 9 begin
