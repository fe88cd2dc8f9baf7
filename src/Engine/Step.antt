-- ===== src/Engine/Step.antt =====
-- engine/step.rs: what both loops do with one completed attempt.
pub mod Contract
use relentless.Prelude.{
  ℕ, ◌+◌, ◌-◌, min, Bool, true, false, ◌||◌, Option, none, some, leb, if◌then◌else◌,
}
use relentless.Effect.{Eff, ◌>>=◌, ◌>>◌, pure}
use relentless.Duration.{saturating_add, saturating_sub}
use relentless.State.{RetryState, for_attempt, with_elapsed, with_previous_delay}
use relentless.Decision.{Result, ok, err, Verdict, Decide}
use relentless.Stop.{Stop}
use relentless.Wait.{Wait}
use relentless.Engine.Termination.{
  StopReason, returned, aborted, exhausted, exit_returned, exit_aborted, exit_exhausted, RetryStats,
}
use relentless.Engine.Error.{RetryError}
use relentless.Engine.Hooks.{ExecutionHooks}

pub record Progress : Type 0 where
  pub attempt : ℕ
  pub elapsed : ℕ
  pub previous_delay : Option ℕ
  pub total_wait : ℕ

pub data Step (O R A : Type 0) : Type 0 where
  done : Result R (RetryError A O) → RetryStats → Step O R A
  continue : (delay total_wait : ℕ) → Step O R A

-- The slots that `step` is handed by both engines.
pub record Policies (World O R A : Type 0) : Type 0 where
  pub classifier : Decide World O R A
  pub stop : Stop World
  pub wait : Wait World
  pub timeout : Option ℕ
  pub hooks : ExecutionHooks World O R A

unfoldable pub stats_for : Progress → StopReason → RetryStats
stats_for p reason = record {
  attempts = p.attempt;
  total_elapsed = p.elapsed;
  total_wait = p.total_wait;
  stop_reason = reason;
}

-- The state that the stop and wait strategies see.
unfoldable pub retry_state : Progress → RetryState
unfolding for_attempt with_elapsed with_previous_delay
retry_state p =
    with_previous_delay (with_elapsed (for_attempt p.attempt) p.elapsed) p.previous_delay

abbrev pub timeout_exceeded : Option ℕ → ℕ → Bool
timeout_exceeded none elapsed = false
timeout_exceeded (some t) elapsed = leb t elapsed

abbrev pub clamp_delay : Option ℕ → ℕ → ℕ → ℕ
clamp_delay none elapsed next_delay = next_delay
clamp_delay (some t) elapsed next_delay = min next_delay (saturating_sub t elapsed)

module _ {World O R A : Type 0} (policies : Policies World O R A) (p : Progress) where
  open policies use {stop, wait, timeout, hooks}

  unfoldable pub exhaust : O → Eff World (Step O R A)
  exhaust last = do
    hooks.on_exit (exit_exhausted p.attempt p.elapsed last)
    pure (done (err (RetryError.exhausted last)) (stats_for p exhausted))

  unfoldable pub back_off : Eff World (Step O R A)
  back_off = do
    next_delay ← wait.next_wait (retry_state p)
    let delay = clamp_delay timeout p.elapsed next_delay
    pure (continue delay (saturating_add p.total_wait delay))

  unfoldable pub settle : Verdict R A O → Eff World (Step O R A)
  unfolding exhaust back_off
  settle (Verdict.return value) = do
    hooks.on_exit (exit_returned p.attempt p.elapsed value)
    pure (done (ok value) (stats_for p returned))
  settle (Verdict.abort last) = do
    hooks.on_exit (exit_aborted p.attempt p.elapsed last)
    pure (done (err (RetryError.aborted last)) (stats_for p aborted))
  settle (Verdict.retry last) = do
    stopped ← stop.should_stop (retry_state p)
    if stopped || timeout_exceeded timeout p.elapsed then exhaust last else back_off

  unfoldable pub step : O → Eff World (Step O R A)
  unfolding settle
  step outcome = do
    hooks.after_attempt (record { attempt = p.attempt; elapsed = p.elapsed; outcome = outcome })
    verdict ← policies.classifier.decide outcome
    settle verdict
