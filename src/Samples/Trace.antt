-- ===== src/Samples/Trace.antt =====
-- A world that logs each call.
use relentless.Prelude.{ℕ, ◌+◌, ◌≡◌, refl, none, some, List, [], ◌∷◌, leb, if◌then◌else◌}
use relentless.Effect.{Eff, ◌>>◌, pure}
use relentless.Decision.{Result, ok, err, classify_result}
use relentless.Engine.Elapsed.{start, read, observe}
use relentless.Engine.Termination.{RetryStats, returned}
use relentless.Engine.Error.{RetryError}
use relentless.Engine.Step.{stats_for, retry_state, back_off, settle, step}
use relentless.Engine.Sync.{
  Retry, run, run_loop, iteration, sleep, first_cursor, next_cursor, progress_of, before_state,
}
use relentless.State.{for_attempt, with_elapsed, with_previous_delay}
use relentless.Duration.{saturating_add}
use relentless.Engine.Sync.Order.{
  Event, before, operated, after, decided, asked_stop, asked_wait, slept, exited, Whole, RunLog,
  run-Whole,
}

pub record Journal : Type 0 where
  pub events : List Event
  pub calls : ℕ

abbrev note : Event → Eff Journal (Unit {0})
note e w = (tt, record w { events = e ∷ w.events })

-- It fails once, and then succeeds.
abbrev call_once : Eff Journal (Result ℕ ℕ)
call_once w = (
  if leb 1 w.calls then ok 42 else err 7,
  record { events = operated ∷ w.events; calls = w.calls + 1 },
)

abbrev noting : Retry Journal (Result ℕ ℕ) ℕ ℕ
noting = record {
  op = λ s. call_once;
  clock = record { now = pure 0; wait = λ d. note slept };
  policies = record {
    classifier = record { decide = λ o. (do note decided; pure (classify_result o)) };
    stop = record { should_stop = λ s. (do note asked_stop; pure (leb 3 s.attempt)) };
    wait = record { next_wait = λ s. (do note asked_wait; pure 5) };
    timeout = none;
    hooks = record {
      before_attempt = λ s. note before;
      after_attempt = λ s. note after;
      on_exit = λ e. note exited;
    };
  };
}

abbrev blank : Journal
blank = record { events = []; calls = 0 }

abbrev written : Journal
written = record {
  events =
      exited ∷ decided ∷ after ∷ operated ∷ before ∷ slept ∷ asked_wait ∷ asked_stop ∷ decided
      ∷ after ∷ operated ∷ before ∷ [];
  calls = 2;
}

abbrev totals : RetryStats
totals = record { attempts = 2; total_elapsed = 0; total_wait = 5; stop_reason = returned }

abbrev answer : Result ℕ (RetryError ℕ (Result ℕ ℕ))
answer = ok 42

second_succeeds : run noting 3 blank ≡ some ((answer, totals), written)
unfolding run run_loop iteration sleep start read observe first_cursor next_cursor progress_of
    before_state for_attempt with_elapsed with_previous_delay saturating_add stats_for retry_state
    back_off settle step classify_result
second_succeeds = refl

noting-RunLog : RunLog noting (λ w. w.events)
noting-RunLog = record {
  steps = record {
    at_after = λ s w. refl;
    at_exit = λ e w. refl;
    at_decide = λ o w. refl;
    at_stop = λ s w. refl;
    at_next_wait = λ s w. refl;
  };
  at_before = λ s w. refl;
  at_op = λ s w. refl;
  at_now = λ w. refl;
  at_wait = λ d w. refl;
}

run-Whole_example : Whole [] returned written.events
run-Whole_example = run-Whole noting-RunLog 3 blank written answer totals second_succeeds
