-- ===== src/Stop.antt =====
-- stop/mod.rs, stop/strategies.rs, stop/composition.rs: when the retry loop gives up. A strategy
-- takes `&self`, so one that a user writes may keep state in a cell of the world.
pub mod Laws
pub mod Builtin
use relentless.Prelude.{ℕ, Bool, true, false, ◌&&◌, ◌||◌, Option, none, some, leb, if◌then◌else◌}
use relentless.Effect.{Eff, ◌>>=◌, pure}
use relentless.State.{RetryState}

pub record Stop (World : Type 0) : Type 0 where
  pub should_stop : RetryState → Eff World Bool

module _ {World : Type 0} where
  unfoldable pub stop_after_attempts : ℕ → Stop World
  stop_after_attempts max = record { should_stop = λ s. pure (leb max s.attempt) }

  -- `none` is the panic on `max == 0`.
  unfoldable pub attempts : ℕ → Option (Stop World)
  attempts max = if leb 1 max then some (stop_after_attempts max) else none

  unfoldable pub elapsed : ℕ → Stop World
  elapsed deadline = record { should_stop = λ s. pure (leb deadline s.elapsed) }

  unfoldable pub never : Stop World
  never = record { should_stop = λ s. pure false }

  -- `StopAny`: both sides are evaluated, the left one first.
  unfoldable pub stop_any : Stop World → Stop World → Stop World
  stop_any left right = record {
    should_stop = λ s. (do a ← left.should_stop s; b ← right.should_stop s; pure (a || b));
  }

  -- `StopAll`.
  unfoldable pub stop_all : Stop World → Stop World → Stop World
  stop_all left right = record {
    should_stop = λ s. (do a ← left.should_stop s; b ← right.should_stop s; pure (a && b));
  }

-- What `impl_stop_ops` makes of `|` and `&`, for each strategy.
abbrev pub bit_or : {World : Type 0} → Stop World → Stop World → Stop World
bit_or self rhs = stop_any self rhs

abbrev pub bit_and : {World : Type 0} → Stop World → Stop World → Stop World
bit_and self rhs = stop_all self rhs

-- `impl Stop for Box<S>` and `for &S` forward.
abbrev pub boxed_stop : {World : Type 0} → Stop World → Stop World
boxed_stop inner = record { should_stop = λ s. inner.should_stop s }

abbrev by_ref_stop : {World : Type 0} → Stop World → Stop World
by_ref_stop inner = record { should_stop = λ s. inner.should_stop s }
