-- ===== src/Engine/Async/Completion.antt =====
-- What an executor gets out of the future under a bounded stop strategy.
use relentless.Prelude.{ℕ, suc, ◌≤◌, ◌≡◌, sym, ap, ◌∙◌, some, arith}
use relentless.Effect.{Eff}
use relentless.Duration.{u32_max}
use relentless.Stop.Builtin.{Strategy, interpret, attempt_bound}
use relentless.Engine.Sync.{Retry, RunOutcome}
use relentless.Engine.Sync
use relentless.Engine.Sync.Returns.{run_returns}
use relentless.Engine.Async.{AsyncRetry, into_run, block_on}
use relentless.Engine.Async.Executor.{block_on-Driven, drive_unique}
use relentless.Engine.Async.Futures.{Mirrors}
use relentless.Engine.Async.Parity.{block_on-run}

module _ {World O R A Fut Sleep : Type 0} (s : Retry World O R A)
    (a : AsyncRetry World O R A Fut Sleep) (wake : Eff World (Unit {0}))
    (same : Mirrors s a wake) where
  -- An executor gets nothing but what the blocking `run` returns.
  block_on-run_unique :
      (fuel polls turns : ℕ) (w : World) (x y : RunOutcome O R A × World)
      → Sync.run s fuel w ≡ some x
      → block_on a wake polls turns into_run w ≡ some y
      → y ≡ x
  block_on-run_unique fuel polls turns w x y h k =
      let (n, b) = block_on-run s a wake same fuel w x h in
      let (i, d) = block_on-Driven a wake polls turns into_run w y k in
      let (j, e) = block_on-Driven a wake (suc n) n into_run w x b in
      drive_unique a wake i j into_run w y x d e

  -- The future completes: where the async retry mirrors the blocking one and its stop strategy is
  -- built of the crate's own and has an attempt bound (1 to u32::MAX), an executor that polls it
  -- often enough gets an outcome, the one that the blocking `run` returns, with at least one
  -- attempt and at most the bound.
  pub block_on_returns :
      (e : Strategy) (limit : ℕ) (w : World)
      → s.policies.stop ≡ interpret e
      → attempt_bound e ≡ some limit
      → 1 ≤ limit
      → limit ≤ u32_max
      → (n : ℕ) × (x : RunOutcome O R A × World) × (block_on a wake (suc n) n into_run w ≡ some x)
        × (Sync.run s limit w ≡ some x)
        × (1 ≤ x.0.1.attempts)
        × (x.0.1.attempts ≤ limit)
  block_on_returns e limit w stops bound pos fits =
      let (x, r, _, least, most) =
        run_returns s e limit limit w stops bound pos fits (omega arith) in
      let (n, b) = block_on-run s a wake same limit w x r in (n, x, b, r, least, most)

  -- The future completes with nothing else: where the async retry mirrors the blocking one and its
  -- stop strategy is built of the crate's own and has an attempt bound (1 to u32::MAX), whatever
  -- an executor gets out of the future, with any number of polls and any fuel for each, is the
  -- outcome that the blocking `run` returns, in the world that it leaves.
  pub block_on_sound :
      (e : Strategy) (limit polls turns : ℕ) (w : World) (y : RunOutcome O R A × World)
      → s.policies.stop ≡ interpret e
      → attempt_bound e ≡ some limit
      → 1 ≤ limit
      → limit ≤ u32_max
      → block_on a wake polls turns into_run w ≡ some y
      → Sync.run s limit w ≡ some y
  block_on_sound e limit polls turns w y stops bound pos fits k =
      let (x, r, _, _, _) = run_returns s e limit limit w stops bound pos fits (omega arith) in
      r ∙ ap some (sym (block_on-run_unique limit polls turns w x y r k))
