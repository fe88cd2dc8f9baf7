-- ===== src/Examples/Calls.antt =====
-- What the examples share: the call at the end of a builder chain, and the sums of their delays.
use relentless.Prelude.{ℕ, zero, suc, ◌+◌, ◌*◌, ◌≡◌, ap, ◌∙◌, Option, none, some, arith}
use relentless.Decision.{Result}
use relentless.Clock.{VirtualTime}
use relentless.Clock.Virtual.{sum}
use relentless.Engine.Error.{RetryError}
use relentless.Engine.Sync.{Retry, RunOutcome, run, call}
use relentless.Engine.Reference.Ends.{delays, costs}

module _ {World O R A : Type 0} where
  -- `.call()` at the end of the builder, with fuel for the attempts: `none` where it runs out or the
  -- builder panics.
  unfoldable pub call_built :
      Option (Retry World O R A) → ℕ → World → Option (Result R (RetryError A O) × World)
  call_built built fuel w = elim built [ none ↦ none | some r ↦ call r fuel w ]

  pub call_built-run :
      (built : Option (Retry World O R A)) (r : Retry World O R A) (fuel : ℕ) (v : World)
      (x : RunOutcome O R A × World)
      → built ≡ some r
      → run r fuel v ≡ some x
      → call_built built fuel v ≡ some (x.0.0, x.1)
  unfolding call_built call
  call_built-run built r fuel v x same_retry ran =
      ap
        (λ (r : Option (Retry World O R A)).
          elim r as (λ _. Option (Result R (RetryError A O) × World)) [
            | none ↦ none
            | some r ↦ call r fuel v
          ])
        same_retry
      ∙ ap
          (λ (y : Option (RunOutcome O R A × World)).
            elim y as (λ _. Option (Result R (RetryError A O) × World)) [
              | none ↦ none
              | some ((result, _), w) ↦ some (result, w)
            ])
          ran

pub sum-delays_fixed : (d k n : ℕ) → sum (delays (λ i. d) k n) ≡ k * d
unfolding delays
sum-delays_fixed d zero n = omega arith
sum-delays_fixed d (suc k) n = ground (arith, sum-delays_fixed d k (suc n))

pub costs_free : (k n : ℕ) → costs (λ i. 0) k n ≡ 0
unfolding costs
costs_free zero n = omega arith
costs_free (suc k) n = omega (arith, costs_free k (suc n))

-- A call that takes no time.
pub unmoved : (t : VirtualTime) → t ≡ record { now = t.now + 0; waits = t.waits }
unmoved t = ap (λ (n : ℕ). record { now = n; waits = t.waits }) (omega arith)
