-- ===== src/State.antt =====
-- state.rs: the context that hooks, operations and strategies are handed. The attempt number is a
-- u32, kept as a number; the debug assertion of `for_attempt` is stated as `1 ≤ attempt` where used.
use relentless.Prelude.{ℕ, Option, none}

pub record RetryState : Type 0 where
  pub attempt : ℕ
  pub elapsed : ℕ
  pub previous_delay : Option ℕ

unfoldable pub for_attempt : ℕ → RetryState
for_attempt attempt = record { attempt = attempt; elapsed = 0; previous_delay = none }

unfoldable pub with_elapsed : RetryState → ℕ → RetryState
with_elapsed s elapsed = record s { elapsed = elapsed }

unfoldable pub with_previous_delay : RetryState → Option ℕ → RetryState
with_previous_delay s previous_delay = record s { previous_delay = previous_delay }
