-- ===== src/Examples/HooksAndStats.antt =====
-- examples/hooks-and-stats.rs: a hook that prints each failure, and the statistics after the loop.
pub mod Printed
use Prim.Native.String.{String}
use relentless.Prelude.{
  ℕ, zero, suc, ◌+◌, ◌-◌, ◌*◌, ◌≤◌, ◌<◌, min, ◌≡◌, refl, sym, ap, subst, ◌∙◌, leb, true, Option,
  none, some, List, [], ◌∷◌, ◌||◌, false, inl, inr, Bool-cases, arith,
}
use relentless.Effect.{Eff, Cell, pure}
use relentless.Duration.{u32_max, from_millis}
use relentless.Decision.{Result, ok, err, classify_result, result_outcome, default_classifier}
use relentless.Stop.{Stop, attempts, stop_after_attempts}
use relentless.Wait.{fixed}
use relentless.Wait.Exponential.{Float}
use relentless.Clock.{SyncClock, VirtualTime, new, virtual_sync, record_wait, advance}
use relentless.Clock.Virtual.{sum}
use relentless.Engine.Elapsed.{start, read}
use relentless.Engine.Termination.{StopReason}
use relentless.Engine.Error.{RetryError}
use relentless.Engine.Hooks.{
  AttemptState, Hook, ExecutionHooks, no_hooks, no_hook, hook_chain, chain_after_attempt,
}
use relentless.Engine.Step.{settle, step, exhaust, back_off, stats_for, retry_state}
use relentless.Engine.Sync.{
  Retry, RetryOp, run, stateless_op, Cursor, iteration, sleep, next_cursor, first_cursor,
  progress_of,
}
use relentless.Engine.Sync.Builder.{from_parts, set_wait, set_stop, set_clock, after_attempt}
use relentless.Engine.Sync.Invariant.{Passes, Ends, ends_at, run_loop-Ends}
use relentless.Engine.Reference.{Rules}
use relentless.Engine.Reference.Pass.{Plays, on_virtual_clock}
use relentless.Engine.Reference.Ends.{delays, costs, EndsAt, run-ends}
use relentless.Policy.{retry_op, retry_ext, default_stop, default_wait}
use relentless.Examples.Calls.{sum-delays_fixed, costs_free, unmoved}

-- The clock's cells and what is printed to stderr, the last line first: an attempt and its error.
pub record Console : Type 0 where
  pub time : VirtualTime
  pub printed : List (ℕ × String)

abbrev pub time_cell : Cell Console VirtualTime
time_cell = record { get = λ w. w.time; set = λ t w. record w { time = t }; get-set = λ t w. refl }

abbrev pub blank : Console
blank = record { time = new; printed = [] }

abbrev pub Ping : Type 0
Ping = Result (Unit {0}) String

unfoldable pub ping_service : Eff Console Ping
ping_service = pure (err "control plane unavailable")

-- The closure handed to `.after_attempt`.
abbrev print_error : ℕ → Ping → Eff Console (Unit {0})
print_error attempt (ok v) w = (tt, w)
print_error attempt (err error) w = (tt, record w { printed = (attempt, error) ∷ w.printed })

unfoldable pub print_failure : Hook Console (AttemptState Ping)
print_failure state = print_error state.attempt state.outcome

-- The builder chain up to `.with_stats()`, for any number of attempts; the source's is 3.
module _ (fl : Float) (system : SyncClock Console) where
  unfoldable pub ping_retry : ℕ → Option (Retry Console Ping (Unit {0}) String)
  unfolding ping_service print_failure
  ping_retry max = elim (retry_ext fl system ping_service) [
    | none ↦ none
    | some r ↦ (elim (attempts max) [
      | none ↦ none
      | some stop ↦ some (
          set_clock
            (after_attempt (set_wait (set_stop r stop) (fixed (from_millis 5))) print_failure)
            (virtual_sync time_cell))
    ])
  ]
