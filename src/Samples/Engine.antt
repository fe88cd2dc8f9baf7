-- ===== src/Samples/Engine.antt =====
-- The engines on the simulated world.
use relentless.Prelude.{ℕ, suc, ◌≤◌, ◌≡◌, refl, some, [], ◌∷◌, arith}
use relentless.Duration.{saturating_add, checked_mul}
use relentless.State.{RetryState, RetryState, for_attempt, with_elapsed, with_previous_delay}
use relentless.Decision.{Result, ok, err, default_classifier, result_outcome, classify_result}
use relentless.Engine.Elapsed.{start, read, observe}
use relentless.Engine.Termination.{RetryStats, returned}
use relentless.Engine.Termination
use relentless.Engine.Error.{RetryError}
use relentless.Engine.Step.{Progress, step, stats_for, retry_state, exhaust, back_off, settle}
use relentless.Engine.Step.Contract.{Kept, Exited, reason_of, exit_of, step-Kept}
use relentless.Stop.Builtin.{interpret}
use relentless.Stop.{stop_after_attempts, stop_any}
use relentless.Stop
use relentless.Wait.{linear, saturating_duration_mul}
use relentless.Clock.{virtual_sync, virtual_async, poll_virtual, record_wait, advance, VirtualWait}
use relentless.Engine.Sync.{
  RunOutcome, run, run_loop, iteration, sleep, first_cursor, next_cursor, progress_of, before_state,
}
use relentless.Engine.Sync.Returns.{run_returns, run-Exited}
use relentless.Engine.Sync.Counts.{Tally}
use relentless.Engine.Async
use relentless.Engine.Step
use relentless.Engine.Async.{
  begin_attempt, next_attempt, Phase, polling, AsyncRun, into_run, is_ready, has_panicked, poll,
  block_on, turn, turn_in, complete_attempt, after_step,
}
use relentless.Engine.Async.Futures.{now, later, Mirrors}
use relentless.Engine.Async.Parity.{block_on-run}
use relentless.Engine.Async.Completion.{block_on_returns, block_on_sound}
use relentless.Engine.Async.Lifecycle.{Settled, poll-Settled, poll_after_ready}
use relentless.Samples.Sim.{Sim, begin, five, policies, blocking, polled, wake}

abbrev pub stats : RetryStats
stats = record { attempts = 3; total_elapsed = 10; total_wait = 10; stop_reason = returned }

abbrev pub end : Sim
end = record { time = record { now = 10; waits = 3 ∷ 7 ∷ [] }; tally = 1333; calls = 3 }

abbrev pub result : Result ℕ (RetryError ℕ (Result ℕ ℕ))
result = ok 42

third_succeeds : run blocking 5 begin ≡ some ((result, stats), end)
unfolding run run_loop iteration sleep start read observe first_cursor next_cursor progress_of
    before_state for_attempt with_elapsed with_previous_delay virtual_sync record_wait advance
    saturating_add stats_for retry_state exhaust back_off settle step default_classifier
    result_outcome classify_result interpret stop_after_attempts Stop.elapsed stop_any linear
    saturating_duration_mul checked_mul
third_succeeds = refl

-- The futures complete to what the blocking calls do.
mirrored : Mirrors blocking polled wake
unfolding virtual_async virtual_sync poll_virtual
mirrored = record {
  policies = refl;
  reads = refl;
  wakes = λ w. refl;
  op = λ st w. later refl (now refl);
  wait = λ d w. now refl;
}

block_on-run_example :
    (n : ℕ) × (block_on polled wake (suc n) n into_run begin ≡ some ((result, stats), end))
block_on-run_example =
    block_on-run blocking polled wake mirrored 5 begin ((result, stats), end) third_succeeds

run_returns_example :
    (x : RunOutcome (Result ℕ ℕ) ℕ ℕ × Sim) × (run blocking 9 begin ≡ some x)
    × (run blocking 5 begin ≡ some x)
    × (1 ≤ x.0.1.attempts)
    × (x.0.1.attempts ≤ 5)
run_returns_example =
    run_returns blocking five 5 9 begin refl refl (omega arith) (omega arith) (omega arith)

block_on_returns_example :
    (n : ℕ) × (x : RunOutcome (Result ℕ ℕ) ℕ ℕ × Sim) × (block_on polled wake
        (suc n)
        n
        into_run
        begin
      ≡ some x)
    × (run blocking 5 begin ≡ some x)
    × (1 ≤ x.0.1.attempts)
    × (x.0.1.attempts ≤ 5)
block_on_returns_example =
    block_on_returns blocking polled wake mirrored five 5 begin refl refl (omega arith)
      (omega arith)

run-Exited_example :
    (stats.stop_reason ≡ reason_of result)
    × (Termination.stop_reason (exit_of {O = Result ℕ ℕ} stats result) ≡ stats.stop_reason)
    × Exited policies result stats end
run-Exited_example = run-Exited blocking 5 begin end result stats third_succeeds

tallied : Tally blocking (λ w. w.tally) 1 10 100 1000
unfolding virtual_sync record_wait advance interpret stop_any Stop.elapsed stop_after_attempts
    linear default_classifier
tallied = record {
  steps = record {
    at_after = λ s w. refl;
    at_exit = λ e w. refl;
    at_decide = λ o w. refl;
    at_stop = λ s w. refl;
    at_next_wait = λ s w. refl;
  };
  at_before = λ s w. refl;
  at_op = λ s w. refl;
  at_now = λ w. refl;
  at_wait = λ d w. refl;
}

step-Kept_example :
    let p : Progress = record {
      attempt = 2;
      elapsed = 95;
      previous_delay = some 3;
      total_wait = 3;
    } in
    Kept policies p (step policies p (err 7) begin).0 (step policies p (err 7) begin).1
step-Kept_example =
    step-Kept policies
      (record { attempt = 2; elapsed = 95; previous_delay = some 3; total_wait = 3 }) (err 7) begin

poll-Settled_example : Settled polled wake (poll polled wake 4 into_run begin).0
unfolding into_run
poll-Settled_example = poll-Settled polled wake 4 into_run begin tt

-- A run in its third attempt, whose future is ready, and what is left of it.
abbrev in_third : AsyncRun (RetryState × ℕ) VirtualWait
in_third = record {
  phase = polling (record { attempt = 3; elapsed = 10; previous_delay = some 7 }, 0);
  attempt = 3;
  previous_delay = some 7;
  total_wait = 10;
  elapsed = some (record { origin = 0; highest = 10 });
}

abbrev resolved_run : AsyncRun (RetryState × ℕ) VirtualWait
resolved_run = record in_third { phase = Phase.done }

abbrev before_third : Sim
before_third = record { time = record { now = 10; waits = 3 ∷ 7 ∷ [] }; tally = 223; calls = 2 }

third_resolves :
    poll polled wake 1 in_third before_third ≡ (is_ready (result, stats) resolved_run, end)
unfolding poll turn turn_in complete_attempt after_step read observe step settle stats_for
    default_classifier result_outcome classify_result virtual_async
third_resolves = refl

poll_after_ready_example : (poll polled wake 3 resolved_run end).0 ≡ has_panicked
poll_after_ready_example =
    poll_after_ready polled wake 1 2 in_third resolved_run (result, stats) before_third end end tt
      third_resolves

third_completes : block_on polled wake 6 9 into_run begin ≡ some ((result, stats), end)
unfolding block_on poll turn turn_in begin_attempt complete_attempt after_step Async.back_off
    next_attempt into_run start read observe step settle Step.back_off stats_for retry_state
    before_state for_attempt with_elapsed with_previous_delay default_classifier result_outcome
    classify_result interpret stop_after_attempts Stop.elapsed stop_any linear saturating_add
    saturating_duration_mul checked_mul virtual_async poll_virtual record_wait advance
third_completes = refl

block_on_sound_example : run blocking 5 begin ≡ some ((result, stats), end)
block_on_sound_example =
    block_on_sound blocking polled wake mirrored five 5 6 9 begin ((result, stats), end) refl refl
      (omega arith) (omega arith) third_completes
