-- ===== src/Engine/Termination.antt =====
-- engine/termination.rs and engine/stats.rs: how an execution ended.
use relentless.Prelude.{ℕ}

pub data StopReason : Type 0 where
  returned aborted exhausted : StopReason

-- The view that `on_exit` receives.
pub data Exit (R A O : Type 0) : Type 0 where
  exit_returned : (attempt elapsed : ℕ) (value : R) → Exit R A O
  exit_aborted : (attempt elapsed : ℕ) (last : A) → Exit R A O
  exit_exhausted : (attempt elapsed : ℕ) (last : O) → Exit R A O

module _ {R A O : Type 0} where
  abbrev pub attempt : Exit R A O → ℕ
  attempt (exit_returned n t v) = n
  attempt (exit_aborted n t v) = n
  attempt (exit_exhausted n t v) = n

  abbrev pub elapsed : Exit R A O → ℕ
  elapsed (exit_returned n t v) = t
  elapsed (exit_aborted n t v) = t
  elapsed (exit_exhausted n t v) = t

  abbrev pub stop_reason : Exit R A O → StopReason
  stop_reason (exit_returned n t v) = returned
  stop_reason (exit_aborted n t v) = aborted
  stop_reason (exit_exhausted n t v) = exhausted

pub record RetryStats : Type 0 where
  pub attempts : ℕ
  pub total_elapsed : ℕ
  pub total_wait : ℕ
  pub stop_reason : StopReason
