-- ===== src/Examples/CustomOutcome.antt =====
-- examples/custom-outcome.rs: an outcome type that classifies itself, polled without a classifier.
use Prim.Native.String.{String}
use relentless.Prelude.{ℕ, ◌≤◌, ◌≡◌, Option, none, some, refl}
use relentless.Effect.{Eff}
use relentless.Duration.{from_millis}
use relentless.Decision.{Result, Verdict, Outcome, default_classifier}
use relentless.Stop.{attempts, stop_after_attempts}
use relentless.Wait.{fixed}
use relentless.Wait.Exponential.{Float}
use relentless.Clock.{SyncClock, virtual_sync}
use relentless.Engine.Error.{RetryError}
use relentless.Engine.Sync.{Retry}
use relentless.Engine.Sync.Builder.{from_parts, set_wait, set_stop, set_clock}
use relentless.Policy.{retry_op, default_stop, default_wait}
use relentless.Examples.Calls.{call_built}
use relentless.Examples.Scripted.{Job, time_cell, Script, scripted_poller, fresh}
use relentless.Examples.Scripted.Decisive.{first_decisive}
use relentless.Examples.Scripted.Call.{scripted_retry, call_built-first_decisive}

pub data Rollout : Type 0 where
  in_progress : Rollout
  live : (version : ℕ) → Rollout
  failed : String → Rollout

unfoldable pub classify_rollout : Rollout → Verdict ℕ String Rollout
classify_rollout (live version) = Verdict.return version
classify_rollout (failed reason) = Verdict.abort reason
classify_rollout in_progress = Verdict.retry in_progress

instance unfoldable pub rollout_outcome : Outcome Rollout ℕ String
unfolding classify_rollout
rollout_outcome = record { classify = classify_rollout }

-- The same poller as the other example's.
unfoldable pub scripted : Script Rollout → Eff Job Rollout
scripted = scripted_poller

module _ (fl : Float) (system : SyncClock Job) where
  unfoldable pub rollout_retry : Eff Job Rollout → Option (Retry Job Rollout ℕ String)
  rollout_retry poll = elim (retry_op fl system (λ state. poll)) [
    | none ↦ none
    | some r ↦ (elim (attempts 10) [
      | none ↦ none
      | some stop ↦
          some (
            set_clock (set_wait (set_stop r stop) (fixed (from_millis 10)))
              (virtual_sync time_cell))
    ])
  ]

  unfoldable pub await_rollout :
      Eff Job Rollout → ℕ → Job → Option (Result ℕ (RetryError String Rollout) × Job)
  unfolding rollout_retry
  await_rollout poll = call_built (rollout_retry poll)

module _ (script : Script Rollout) (fl : Float) (system : SyncClock Job) where
  built : rollout_retry fl system (scripted script) ≡ some (scripted_retry classify_rollout script)
  unfolding rollout_retry scripted retry_op default_stop default_wait attempts stop_after_attempts
      from_parts set_stop set_wait set_clock default_classifier rollout_outcome fixed
  built = refl

  -- The rollout example, which leaves its outcome type to classify itself, returns what the first
  -- decisive of its first ten polls says, after at most 90 ms on the virtual clock.
  pub await_rollout-first_decisive :
      (w : Job) × (await_rollout fl system (scripted script) 10 fresh
        ≡ some (first_decisive classify_rollout script 9 0, w))
      × (w.time.now ≤ 90_000_000)
  unfolding await_rollout
  await_rollout-first_decisive = call_built-first_decisive classify_rollout script _ built
