-- ===== src/Examples/BasicRetry.antt =====
-- examples/basic-retry.rs: a call that fails a number of times and then succeeds.
use Prim.Native.String.{String}
use relentless.Prelude.{
  ℕ, suc, ◌+◌, ◌-◌, ◌*◌, min, ◌≡◌, refl, ap, ◌∙◌, leb, Option, none, some, if◌then◌else◌, arith,
}
use relentless.Effect.{Eff, Cell}
use relentless.Duration.{from_millis}
use relentless.Decision.{Result, ok, err, classify_result, result_outcome, default_classifier}
use relentless.Stop.{attempts, stop_after_attempts}
use relentless.Wait.{fixed}
use relentless.Wait.Exponential.{Float}
use relentless.Clock.{SyncClock, VirtualTime, new, virtual_sync, advance}
use relentless.Engine.Termination.{StopReason}
use relentless.Engine.Error.{RetryError}
use relentless.Engine.Hooks.{ExecutionHooks, no_hooks}
use relentless.Engine.Sync.{Retry, stateless_op}
use relentless.Engine.Sync.Builder.{from_parts, set_wait, set_stop, set_clock}
use relentless.Engine.Reference.{Rules}
use relentless.Engine.Reference.Pass.{Plays, on_virtual_clock}
use relentless.Engine.Reference.Ends.{EndsAt, run-ends}
use relentless.Policy.{retry_op, retry_ext, default_stop, default_wait}
use relentless.Examples.Calls.{call_built, call_built-run, sum-delays_fixed, costs_free, unmoved}

-- The clock's cells and the counter.
pub record Fetch : Type 0 where
  pub time : VirtualTime
  pub failures_left : ℕ

abbrev pub time_cell : Cell Fetch VirtualTime
time_cell = record { get = λ w. w.time; set = λ t w. record w { time = t }; get-set = λ t w. refl }

unfoldable pub fetch_config : Eff Fetch (Result String String)
fetch_config w =
    if leb 1 w.failures_left
    then (err "connection refused", record w { failures_left = w.failures_left - 1 })
    else (ok "config_value=42", w)

-- `fl` and `system` are the defaults' floats and clock, which are replaced. `none` is a panic of
-- `stop::attempts`.
module _ (fl : Float) (system : SyncClock Fetch) where
  unfoldable pub fetch_retry : Option (Retry Fetch (Result String String) String String)
  unfolding fetch_config
  fetch_retry = elim (retry_ext fl system fetch_config) [
    | none ↦ none
    | some r ↦ (elim (attempts 5) [
      | none ↦ none
      | some stop ↦
          some (
            set_clock (set_wait (set_stop r stop) (fixed (from_millis 10)))
              (virtual_sync time_cell))
    ])
  ]

abbrev rules : Rules (Result String String) String String
rules = record {
  classify = classify_result;
  stops = λ s. leb 5 s.attempt;
  delay = λ s. 10_000_000;
  timeout = none;
}

on_time : (w : Fetch) → (fetch_config w).1.time ≡ w.time
unfolding fetch_config
on_time w = ground arith

abbrev hooks : ExecutionHooks Fetch (Result String String) String String
hooks = no_hooks

module _ (failures : ℕ) where
  abbrev answer : ℕ → Result String String
  answer n = if leb n failures then err "connection refused" else ok "config_value=42"

  abbrev At : ℕ → Fetch → Type 0
  At n w = w.failures_left ≡ failures + 1 - n

  plays : Plays time_cell (λ s. fetch_config) hooks answer (λ n. 0) At
  unfolding fetch_config advance
  plays = record {
    at_op = λ s w h. (ground arith, λ fits. on_time w ∙ unmoved w.time, ground arith);
    at_set = λ n t w h. h;
    at_before = λ s w. (refl, λ n h. h);
    at_after = λ s w. (refl, λ n h. h);
    at_exit = λ e w. (refl, λ n h. h);
  }

  abbrev pub fetched : Result String (RetryError String (Result String String))
  fetched =
      if leb 5 failures
      then err (RetryError.exhausted (err "connection refused"))
      else ok "config_value=42"

  abbrev reason : StopReason
  reason = if leb 5 failures then StopReason.exhausted else StopReason.returned

  ends : EndsAt rules answer (λ n. 0) (λ n. 10_000_000) (suc (min failures 4)) fetched reason
  unfolding classify_result
  ends = record {
    again = λ i pos before. (err "connection refused", ground arith);
    goes_on = λ s before. ground arith;
    ends = λ rest now waited previous. ground arith;
    paced = λ s. refl;
    untimed = refl;
  }

  module _ (fl : Float) (system : SyncClock Fetch) where
    built :
        fetch_retry fl system ≡ some (on_virtual_clock time_cell rules (λ s. fetch_config) hooks)
    unfolding fetch_retry retry_ext retry_op default_stop default_wait attempts stop_after_attempts
        from_parts set_stop set_wait set_clock default_classifier result_outcome fixed stateless_op
    built = refl

    -- The basic example: a call that fails `failures` times and then succeeds is retried with five
    -- attempts and 10 ms between them. With up to four failures it returns the value, one attempt
    -- after the last failure; with five or more it is exhausted, with the fifth failure; and the
    -- virtual clock has moved by 10 ms for each failure, up to four.
    pub fetch_retry-result :
        (w : Fetch) × (call_built
            (fetch_retry fl system)
            5
            (record { time = new; failures_left = failures })
          ≡ some (fetched, w))
        × (w.time.now ≡ min failures 4 * 10_000_000)
    fetch_retry-result =
        let k = min failures 4 in
        let waited = sum-delays_fixed 10_000_000 k 1 in
        let free = costs_free k 1 in
        let (w, ran, there) =
          run-ends rules (answer) (λ n. 0) (λ n. 10_000_000) fetched reason time_cell
            (λ s. fetch_config) hooks plays k 5 (record { time = new; failures_left = failures })
            ends (omega arith) (omega arith) (omega arith) (omega (arith, waited, free)) in
        (
          w,
          call_built-run (fetch_retry fl system) _ 5 _ _ built ran,
          omega (arith, ap (λ (t : VirtualTime). t.now) there, waited, free),
        )
