-- ===== src/Engine/Reference/Polled.antt =====
-- The async engine against the reference, through the blocking engine.
use relentless.Prelude.{ℕ, suc, ◌<◌, ◌≡◌, ◌+◌, some}
use relentless.Effect.{Eff, Cell}
use relentless.Duration.{u32_max, IsDuration}
use relentless.Clock.{VirtualTime}
use relentless.Engine.Hooks.{ExecutionHooks}
use relentless.Engine.Sync.{RetryOp}
use relentless.Engine.Async.{AsyncRetry, into_run, block_on}
use relentless.Engine.Async.Futures.{Mirrors}
use relentless.Engine.Async.Parity.{block_on-run}
use relentless.Engine.Reference.{Rules, Account, account_of}
use relentless.Engine.Reference.Pass.{Plays, on_virtual_clock}
use relentless.Engine.Reference.Refines.{Follows, run-account_of}

module _ {World O R A Fut Sleep : Type 0} (clock : Cell World VirtualTime) (rules : Rules O R A)
    (op : RetryOp World O) (hooks : ExecutionHooks World O R A) {answer : ℕ → O} {cost : ℕ → ℕ}
    {At : ℕ → World → Type 0} (plays : Plays clock op hooks answer cost At)
    (a : AsyncRetry World O R A Fut Sleep) (wake : Eff World (Unit {0})) where
  -- A future on a virtual clock is the account of its rules as well: where the async retry mirrors
  -- the blocking one on the virtual clock (the same policies, clocks that read alike, wake-ups that
  -- leave the world alone, and futures that pend finitely often and then do what the blocking calls
  -- do), the blocking operation plays a script, its hooks leave the clock and the place in the
  -- script alone, the world stands before the script's first attempt, and the account of the script comes to an end within the ranges of attempt numbers and
  -- of the clock, an executor that polls the future to its end gets what the account says, at the
  -- account's time, with the account's waits recorded, for some number of polls.
  pub block_on-account_of :
      Mirrors (on_virtual_clock clock rules op hooks) a wake
      → (fuel : ℕ) (w : World) (acc : Account O R A) → account_of rules answer cost fuel ≡ some acc
      → fuel < u32_max
      → At 1 w
      → IsDuration ((clock.get w).now + acc.outcome.1.total_elapsed)
      → (n : ℕ) × Follows clock rules op hooks
          (clock.get w).now
          (clock.get w).waits
          acc
          (block_on a wake (suc n) n into_run w)
  block_on-account_of same fuel w acc e room here fits =
      let (w', ran, there) =
        run-account_of clock rules op hooks plays fuel w acc e room here fits in
      let (n, polled) = block_on-run _ a wake same fuel w (acc.outcome, w') ran in
      (n, (w', polled, there))
