-- ===== src/Engine/Async.antt =====
-- engine/async_engine.rs and engine/op.rs: the polled retry loop.
pub mod Builder
pub mod Executor
pub mod Futures
pub mod Parity
pub mod Completion
pub mod Lifecycle
pub mod Tallied
pub mod Cancellation
pub mod Machine
pub mod Sound
pub mod Reach
use relentless.Prelude.{
  ℕ, zero, suc, ◌+◌, min, ◌≡◌, ◌==◌, Bool, true, false, Option, none, some, if◌then◌else◌,
}
use relentless.Effect.{Eff, ◌>>=◌, ◌>>◌, pure}
use relentless.Decision.{Result}
use relentless.Engine.Error.{RetryError}
use relentless.Duration.{u32_max}
use relentless.State.{RetryState}
use relentless.Clock.{AsyncClock, Poll, ready, pending}
use relentless.Engine.Elapsed.{Elapsed, start, read}
use relentless.Engine.Step.{Progress, Step, Policies, step}
use relentless.Engine.Sync.{before_state, RunOutcome}

-- The trait `AsyncRetryOp`, with its future's `poll`. A poll returns the future's next state.
pub record AsyncRetryOp (World O Fut : Type 0) : Type 0 where
  pub call_op : RetryState → Eff World Fut
  pub poll_op : Fut → Eff World (Poll O × Fut)

unfoldable pub stateless_op :
    {World O Fut : Type 0}
    → Eff World Fut
    → (Fut → Eff World (Poll O × Fut))
    → AsyncRetryOp World O Fut
stateless_op f poll = record { call_op = λ state. f; poll_op = poll }

pub record AsyncRetry (World O R A Fut Sleep : Type 0) : Type 0 where
  pub op : AsyncRetryOp World O Fut
  pub clock : AsyncClock World Sleep
  pub policies : Policies World O R A

pub data Phase (Fut Sleep : Type 0) : Type 0 where
  ready_to_start : Phase Fut Sleep
  polling : Fut → Phase Fut Sleep
  sleeping : Sleep → Phase Fut Sleep
  yielding : Phase Fut Sleep
  done : Phase Fut Sleep

-- The fields of `AsyncRun` that change.
pub record AsyncRun (Fut Sleep : Type 0) : Type 0 where
  pub phase : Phase Fut Sleep
  pub attempt : ℕ
  pub previous_delay : Option ℕ
  pub total_wait : ℕ
  pub elapsed : Option Elapsed

unfoldable pub into_run : {Fut Sleep : Type 0} → AsyncRun Fut Sleep
into_run = record {
  phase = ready_to_start;
  attempt = 1;
  previous_delay = none;
  total_wait = 0;
  elapsed = none;
}

-- How one turn of the loop inside `poll` ends: go round again, return `Pending`, return `Ready`, panic.
pub data Turn (O R A Fut Sleep : Type 0) : Type 0 where
  again : AsyncRun Fut Sleep → Turn O R A Fut Sleep
  parked : AsyncRun Fut Sleep → Turn O R A Fut Sleep
  resolved : RunOutcome O R A → AsyncRun Fut Sleep → Turn O R A Fut Sleep
  panicked : Turn O R A Fut Sleep

-- What `poll` returns, with the fuel for its turns used up as one more case.
pub data Polled (X Fut Sleep : Type 0) : Type 0 where
  still_pending : AsyncRun Fut Sleep → Polled X Fut Sleep
  is_ready : X → AsyncRun Fut Sleep → Polled X Fut Sleep
  has_panicked : Polled X Fut Sleep
  out_of_fuel : Polled X Fut Sleep

unfoldable pub next_attempt : {Fut Sleep : Type 0} → AsyncRun Fut Sleep → AsyncRun Fut Sleep
next_attempt run = record run { attempt = min (run.attempt + 1) u32_max; phase = ready_to_start }

-- `wake` is `cx.waker().wake_by_ref()`.
module _ {World O R A Fut Sleep : Type 0} (r : AsyncRetry World O R A Fut Sleep)
    (wake : Eff World (Unit {0})) where
  abbrev pub Act : Type 0
  Act = Eff World (Turn O R A Fut Sleep)

  unfoldable pub begin_attempt : Elapsed → AsyncRun Fut Sleep → Act
  begin_attempt e run = do
    (before, e') ← read r.clock.now e
    let state = before_state run.attempt run.previous_delay before
    r.policies.hooks.before_attempt state
    op_future ← r.op.call_op state
    pure (again (record run { phase = polling op_future; elapsed = some e' }))

  unfoldable pub back_off : AsyncRun Fut Sleep → ℕ → Act
  back_off run delay =
      if delay == 0 then (do wake; pure (parked (record run { phase = yielding }))) else (do
        sleep_future ← r.clock.wait_async delay
        pure (again (record run { phase = sleeping sleep_future })))

  unfoldable pub after_step : AsyncRun Fut Sleep → Step O R A → Act
  unfolding back_off
  after_step run (Step.done result stats) =
      pure (resolved (result, stats) (record run { phase = Phase.done }))
  after_step run (Step.continue delay running) =
      back_off (record run { total_wait = running; previous_delay = some delay }) delay

  unfoldable pub complete_attempt : Elapsed → AsyncRun Fut Sleep → O → Act
  unfolding after_step
  complete_attempt e run outcome = do
    (post, e') ← read r.clock.now e
    let progress : Progress = record {
      attempt = run.attempt;
      elapsed = post;
      previous_delay = run.previous_delay;
      total_wait = run.total_wait;
    }
    s ← step r.policies progress outcome
    after_step (record run { elapsed = some e' }) s

  unfoldable pub turn_in : Phase Fut Sleep → Elapsed → AsyncRun Fut Sleep → Act
  turn_in ready_to_start e run = begin_attempt e run
  turn_in (polling op_future) e run = do
    (p, op_future') ← r.op.poll_op op_future
    elim p [
      | pending ↦ pure (parked (record run { phase = polling op_future'; elapsed = some e }))
      | ready outcome ↦ complete_attempt e run outcome
    ]
  turn_in (sleeping sleep_future) e run = do
    (p, sleep_future') ← r.clock.poll_wait sleep_future
    elim p [
      | pending ↦ pure (parked (record run { phase = sleeping sleep_future'; elapsed = some e }))
      | ready _ ↦ pure (again (next_attempt (record run { elapsed = some e })))
    ]
  turn_in yielding e run = pure (again (next_attempt (record run { elapsed = some e })))
  turn_in Phase.done e run = pure panicked

  -- `get_or_insert_with`: the baseline is taken at the first poll.
  abbrev baseline : Option Elapsed → Eff World Elapsed
  baseline none = start r.clock.now
  baseline (some e) = pure e

  unfoldable pub turn : AsyncRun Fut Sleep → Act
  turn run = do e ← baseline run.elapsed; turn_in run.phase e run

  unfoldable pub poll : ℕ → AsyncRun Fut Sleep → World → Polled (RunOutcome O R A) Fut Sleep × World
  poll zero run w = (out_of_fuel, w)
  poll (suc fuel) run w =
      let (t, w') = turn run w in
      elim t [
        | again run' ↦ poll fuel run' w'
        | parked run' ↦ (still_pending run', w')
        | resolved outcome run' ↦ (is_ready outcome run', w')
        | panicked ↦ (has_panicked, w')
      ]

  -- `DropStats::poll`: the future of `.call()`, which discards the statistics.
  unfoldable pub poll_drop_stats :
      ℕ → AsyncRun Fut Sleep → World → Polled (Result R (RetryError A O)) Fut Sleep × World
  poll_drop_stats fuel run w =
      let (p, w') = poll fuel run w in
      elim p [
        | still_pending run' ↦ (still_pending run', w')
        | is_ready outcome run' ↦ (is_ready outcome.0 run', w')
        | has_panicked ↦ (has_panicked, w')
        | out_of_fuel ↦ (out_of_fuel, w')
      ]

  -- An executor that polls until the future is ready, with fuel for its polls and for each poll.
  unfoldable pub block_on : ℕ → ℕ → AsyncRun Fut Sleep → World → Option (RunOutcome O R A × World)
  block_on zero fuel run w = none
  block_on (suc polls) fuel run w =
      let (p, w') = poll fuel run w in
      elim p [
        | still_pending run' ↦ block_on polls fuel run' w'
        | is_ready outcome run' ↦ some (outcome, w')
        | has_panicked ↦ none
        | out_of_fuel ↦ none
      ]

-- The builder after `.with_stats()`; its `call` is the run's future itself.
pub record AsyncRetryWithStats (World O R A Fut Sleep : Type 0) : Type 0 where
  pub inner : AsyncRetry World O R A Fut Sleep

module _ {World O R A Fut Sleep : Type 0} where
  abbrev pub with_stats :
      AsyncRetry World O R A Fut Sleep → AsyncRetryWithStats World O R A Fut Sleep
  with_stats r = record { inner = r }

  abbrev pub poll_with_stats :
      AsyncRetryWithStats World O R A Fut Sleep
      → (wake : Eff World (Unit {0})) (fuel : ℕ) → AsyncRun Fut Sleep
      → World
      → Polled (RunOutcome O R A) Fut Sleep × World
  poll_with_stats self wake fuel run w = poll self.inner wake fuel run w
