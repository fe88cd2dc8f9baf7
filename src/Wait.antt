-- ===== src/Wait.antt =====
-- wait/mod.rs, wait/strategies.rs and wait/composition.rs: the delay between attempts. The
-- exponential strategy is in Wait/Exponential, the jittered one in Wait/Jitter.
pub mod Exact
pub mod Rng
pub mod Jitter
pub mod Exponential
use relentless.Prelude.{
  ℕ, ◌-◌, ◌*◌, ◌≤◌, min, ◌≡◌, Bool, Option, none, some, leb, if◌then◌else◌, arith,
}
use relentless.Effect.{Eff, ◌>>=◌, pure}
use relentless.Duration.{duration_max, saturating_add, checked_mul}
use relentless.State.{RetryState}

pub record Wait (World : Type 0) : Type 0 where
  pub next_wait : RetryState → Eff World ℕ

abbrev pub unwrap_or {ℓ} : {A : Type ℓ} → Option A → A → A
unwrap_or none d = d
unwrap_or (some a) d = a

unfoldable pub saturating_duration_mul : ℕ → ℕ → ℕ
unfolding checked_mul
saturating_duration_mul dur mul = unwrap_or (checked_mul dur mul) duration_max

module _ {World : Type 0} where
  unfoldable pub fixed : ℕ → Wait World
  fixed duration = record { next_wait = λ s. pure duration }

  -- `attempt.saturating_sub(1)` is the subtraction on ℕ.
  unfoldable pub linear : ℕ → ℕ → Wait World
  linear initial increment = record {
    next_wait =
        λ s. pure (saturating_add initial (saturating_duration_mul increment (s.attempt - 1)));
  }

  -- `WaitCapped`, by `.cap()`.
  unfoldable pub cap : Wait World → ℕ → Wait World
  cap inner max = record { next_wait = λ s. (do d ← inner.next_wait s; pure (min d max)) }

  -- `WaitCombine`, by `.add()` and `+`.
  unfoldable pub add : Wait World → Wait World → Wait World
  add left right = record {
    next_wait = λ s. (do l ← left.next_wait s; r ← right.next_wait s; pure (saturating_add l r));
  }

  -- `WaitChain`, by `.chain()`: only the side in charge is asked.
  unfoldable pub chain : Wait World → Wait World → ℕ → Wait World
  chain first second after = record {
    next_wait = λ s. if leb s.attempt after then first.next_wait s else second.next_wait s;
  }

-- What `impl_wait_add` makes of `+`, for each strategy.
abbrev pub plus : {World : Type 0} → Wait World → Wait World → Wait World
plus self rhs = add self rhs

-- `impl Wait for Box<W>` and `for &W` forward.
abbrev pub boxed_wait : {World : Type 0} → Wait World → Wait World
boxed_wait inner = record { next_wait = λ s. inner.next_wait s }

abbrev by_ref_wait : {World : Type 0} → Wait World → Wait World
by_ref_wait inner = record { next_wait = λ s. inner.next_wait s }
