-- ===== src/Engine/Sync.antt =====
-- engine/sync_engine.rs and engine/op.rs: the blocking retry loop.
pub mod Builder
pub mod Invariant
pub mod Returns
pub mod Counts
pub mod Timed
pub mod Budget
pub mod Deadline
pub mod Order
pub mod Verdicts
pub mod Infallible
use relentless.Prelude.{
  ℕ, zero, suc, ◌+◌, min, ◌==◌, Bool, true, false, Option, none, some, if◌then◌else◌,
}
use relentless.Effect.{Eff, ◌>>=◌, ◌>>◌, pure}
use relentless.Duration.{u32_max}
use relentless.State.{RetryState, for_attempt, with_elapsed, with_previous_delay}
use relentless.Decision.{Result}
use relentless.Clock.{SyncClock}
use relentless.Engine.Elapsed.{Elapsed, start, read}
use relentless.Engine.Termination.{RetryStats}
use relentless.Engine.Error.{RetryError}
use relentless.Engine.Step.{Progress, Step, done, continue, Policies, step}

-- The trait `RetryOp`, and the operation that ignores the state.
abbrev pub RetryOp : Type 0 → Type 0 → Type 0
RetryOp World O = RetryState → Eff World O

unfoldable pub stateless_op : {World O : Type 0} → Eff World O → RetryOp World O
stateless_op f state = f

-- The builder: `policies` holds its classifier, stop, wait, timeout and hooks.
pub record Retry (World O R A : Type 0) : Type 0 where
  pub op : RetryOp World O
  pub clock : SyncClock World
  pub policies : Policies World O R A

-- The loop's variables.
pub record Cursor : Type 0 where
  pub attempt : ℕ
  pub previous_delay : Option ℕ
  pub total_wait : ℕ
  pub elapsed : Elapsed

unfoldable pub before_state : ℕ → Option ℕ → ℕ → RetryState
unfolding for_attempt with_elapsed with_previous_delay
before_state attempt previous_delay elapsed =
    with_previous_delay (with_elapsed (for_attempt attempt) elapsed) previous_delay

unfoldable pub next_cursor : Cursor → Elapsed → ℕ → ℕ → Cursor
next_cursor c elapsed delay running = record {
  attempt = min (c.attempt + 1) u32_max;
  previous_delay = some delay;
  total_wait = running;
  elapsed = elapsed;
}

unfoldable pub first_cursor : Elapsed → Cursor
first_cursor elapsed = record {
  attempt = 1;
  previous_delay = none;
  total_wait = 0;
  elapsed = elapsed;
}

unfoldable pub progress_of : Cursor → ℕ → Progress
progress_of c post_elapsed = record {
  attempt = c.attempt;
  elapsed = post_elapsed;
  previous_delay = c.previous_delay;
  total_wait = c.total_wait;
}

abbrev pub RunOutcome : Type 0 → Type 0 → Type 0 → Type 0
RunOutcome O R A = Result R (RetryError A O) × RetryStats

module _ {World O R A : Type 0} (r : Retry World O R A) where
  -- One pass of the loop's body, up to the `match` on the step.
  unfoldable pub iteration : Cursor → Eff World (Step O R A × Elapsed)
  iteration c = do
    (before, e) ← read r.clock.now c.elapsed
    let state = before_state c.attempt c.previous_delay before
    r.policies.hooks.before_attempt state
    outcome ← r.op state
    (post, e') ← read r.clock.now e
    s ← step r.policies (progress_of c post) outcome
    pure (s, e')

  unfoldable pub sleep : ℕ → World → World
  sleep delay w = if delay == 0 then w else (r.clock.wait delay w).1

  -- `loop`: `none` where the fuel, one unit for each attempt, runs out.
  unfoldable pub run_loop : ℕ → Cursor → World → Option (RunOutcome O R A × World)
  run_loop zero c w = none
  run_loop (suc fuel) c w =
      let ((s, e), w') = iteration c w in
      elim s [
        | done result stats ↦ some ((result, stats), w')
        | continue delay running ↦ run_loop fuel (next_cursor c e delay running) (sleep delay w')
      ]

  unfoldable pub run : ℕ → World → Option (RunOutcome O R A × World)
  unfolding first_cursor
  run fuel w = let (e, w') = start r.clock.now w in run_loop fuel (first_cursor e) w'

  -- `Retry::call` drops the statistics.
  unfoldable pub call : ℕ → World → Option (Result R (RetryError A O) × World)
  call fuel w = elim (run fuel w) [ none ↦ none | some ((result, _), w') ↦ some (result, w') ]

-- The builder after `.with_stats()`, whose `call` keeps them.
pub record RetryWithStats (World O R A : Type 0) : Type 0 where
  pub inner : Retry World O R A

module _ {World O R A : Type 0} where
  abbrev pub with_stats : Retry World O R A → RetryWithStats World O R A
  with_stats r = record { inner = r }

  abbrev pub call_with_stats :
      RetryWithStats World O R A → ℕ → World → Option (RunOutcome O R A × World)
  call_with_stats self fuel w = run self.inner fuel w
