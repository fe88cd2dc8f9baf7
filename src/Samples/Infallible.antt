-- ===== src/Samples/Infallible.antt =====
-- Retries over an Option and over a ControlFlow, on the simulated world.
use relentless.Prelude.{ℕ, ◌≡◌, refl, Option, none, some, [], ◌∷◌, leb, if◌then◌else◌}
use relentless.Duration.{saturating_add}
use relentless.State.{for_attempt, with_elapsed, with_previous_delay}
use relentless.Decision.{
  ok, err, ControlFlow, carry_on, Infallible, default_classifier, option_outcome,
  control_flow_outcome, classify_option, classify_control_flow,
}
use relentless.Engine.Elapsed.{start, read, observe}
use relentless.Engine.Termination.{RetryStats, StopReason}
use relentless.Engine.Error.{RetryError}
use relentless.Engine.Hooks.{no_hooks}
use relentless.Engine.Step.{step, stats_for, retry_state, exhaust, back_off, settle}
use relentless.Stop.{stop_after_attempts}
use relentless.Wait.{fixed}
use relentless.Clock.{virtual_sync, record_wait, advance}
use relentless.Engine.Sync.{
  Retry, run, run_loop, iteration, sleep, first_cursor, next_cursor, progress_of, before_state,
}
use relentless.Engine.Sync.Infallible.{OfOption, OfControlFlow, run-Infallible}
use relentless.Samples.Sim.{Sim, begin, time_cell}

-- It answers at its second attempt.
abbrev by_option : Retry Sim (Option ℕ) ℕ Infallible
by_option = record {
  op = λ s w. (if leb 2 s.attempt then some 5 else none, w);
  clock = virtual_sync time_cell;
  policies = record {
    classifier = default_classifier;
    stop = stop_after_attempts 2;
    wait = fixed 3;
    timeout = none;
    hooks = no_hooks;
  };
}

-- It goes on for ever.
abbrev by_flow : Retry Sim (ControlFlow ℕ ℕ) ℕ Infallible
by_flow = record {
  op = λ s w. (carry_on s.attempt, w);
  clock = virtual_sync time_cell;
  policies = record {
    classifier = default_classifier;
    stop = stop_after_attempts 2;
    wait = fixed 3;
    timeout = none;
    hooks = no_hooks;
  };
}

abbrev stats : StopReason → RetryStats
stats reason = record { attempts = 2; total_elapsed = 3; total_wait = 3; stop_reason = reason }

abbrev later : Sim
later = record begin { time = record { now = 3; waits = 3 ∷ [] } }

answers : run by_option 2 begin ≡ some ((ok 5, stats StopReason.returned), later)
unfolding run run_loop iteration sleep start read observe first_cursor next_cursor progress_of
    before_state for_attempt with_elapsed with_previous_delay virtual_sync record_wait advance
    saturating_add stats_for retry_state exhaust back_off settle step default_classifier
    option_outcome classify_option stop_after_attempts fixed
answers = refl

goes_on :
    run by_flow 2 begin
    ≡ some ((err (RetryError.exhausted (carry_on 2)), stats StopReason.exhausted), later)
unfolding run run_loop iteration sleep start read observe first_cursor next_cursor progress_of
    before_state for_attempt with_elapsed with_previous_delay virtual_sync record_wait advance
    saturating_add stats_for retry_state exhaust back_off settle step default_classifier
    control_flow_outcome classify_control_flow stop_after_attempts fixed
goes_on = refl

run-Infallible_example :
    OfOption by_option (ok 5) × OfControlFlow by_flow (err (RetryError.exhausted (carry_on 2)))
run-Infallible_example =
    run-Infallible by_option by_flow 2 begin later later (ok 5)
      (err (RetryError.exhausted (carry_on 2))) (stats StopReason.returned)
      (stats StopReason.exhausted) refl refl answers goes_on
