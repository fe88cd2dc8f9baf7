-- ===== src/Examples/HooksAndStats/Printed.antt =====
-- What the example of hooks and statistics prints, and what it counts.
use Prim.Native.String.{String}
use relentless.Prelude.{
  ℕ, zero, suc, ◌+◌, ◌-◌, ◌*◌, ◌≤◌, ◌<◌, min, ◌≡◌, refl, sym, ap, ◌∙◌, leb, Option, none, some,
  List, [], ◌∷◌, ◌||◌, false, inl, inr, Bool-cases, arith,
}
use relentless.Duration.{u32_max}
use relentless.Decision.{Result, err, classify_result, result_outcome, default_classifier}
use relentless.Stop.{Stop, attempts, stop_after_attempts}
use relentless.Wait.{fixed}
use relentless.Wait.Exponential.{Float}
use relentless.Clock.{SyncClock, virtual_sync, record_wait, advance}
use relentless.Clock.Virtual.{sum}
use relentless.Engine.Elapsed.{start, read}
use relentless.Engine.Termination.{StopReason}
use relentless.Engine.Error.{RetryError}
use relentless.Engine.Hooks.{ExecutionHooks, no_hooks, hook_chain, chain_after_attempt}
use relentless.Engine.Step.{settle, step, exhaust, back_off, stats_for, retry_state}
use relentless.Engine.Sync.{
  call_with_stats, with_stats, Retry, run, stateless_op, Cursor, iteration, sleep, next_cursor,
  first_cursor, progress_of,
}
use relentless.Engine.Sync.Builder.{from_parts, set_wait, set_stop, set_clock, after_attempt}
use relentless.Engine.Sync.Invariant.{Passes, Ends, ends_at, run_loop-Ends}
use relentless.Engine.Reference.{Rules}
use relentless.Engine.Reference.Pass.{Plays, on_virtual_clock}
use relentless.Engine.Reference.Ends.{delays, costs, EndsAt, run-ends}
use relentless.Policy.{retry_op, retry_ext, default_stop, default_wait}
use relentless.Examples.Calls.{sum-delays_fixed, costs_free, unmoved}
use relentless.Examples.HooksAndStats.{
  Console, time_cell, blank, Ping, ping_service, print_failure, ping_retry,
}

-- One line for each attempt.
unfoldable pub lines : ℕ → List (ℕ × String)
lines zero = []
lines (suc n) = (suc n, "control plane unavailable") ∷ lines n

abbrev hooks : ExecutionHooks Console Ping (Unit {0}) String
hooks = chain_after_attempt no_hooks print_failure

another_line :
    (n m : ℕ) (printed : List (ℕ × String))
    → 1 ≤ n
    → m ≡ n
    → printed ≡ lines (n - 1)
    → (n, "control plane unavailable") ∷ printed ≡ lines m
unfolding lines
another_line n zero printed pos e same = absurd (omega (arith, pos, e))
another_line n (suc m) printed pos e same =
    let before : n - 1 ≡ m = omega (arith, e) in
    λ i. (sym e i, "control plane unavailable") ∷ (same ∙ ap lines before) i

module _ (max : ℕ) (some_attempts : 1 ≤ max) (few : max < u32_max) where
  abbrev rules : Rules Ping (Unit {0}) String
  rules = record {
    classify = classify_result;
    stops = λ s. leb max s.attempt;
    delay = λ s. 5_000_000;
    timeout = none;
  }

  plays :
      Plays time_cell
        (λ s. ping_service)
        hooks
        (λ n. err "control plane unavailable")
        (λ n. 0)
        (λ n w. Unit {0})
  unfolding ping_service advance chain_after_attempt hook_chain print_failure
  plays = record {
    at_op = λ s w h. (refl, λ fits. unmoved w.time, tt);
    at_set = λ n t w h. h;
    at_before = λ s w. (refl, λ n h. h);
    at_after = λ s w. (ground arith, λ n h. h);
    at_exit = λ e w. (refl, λ n h. h);
  }

  abbrev on_clock : Retry Console Ping (Unit {0}) String
  on_clock = on_virtual_clock time_cell rules (λ s. ping_service) hooks

  abbrev Printed : Cursor → Console → Type 0
  Printed c w = (1 ≤ c.attempt) × (c.attempt ≤ max) × (w.printed ≡ lines (c.attempt - 1))

  pass-Printed :
      (c : Cursor) (w : Console)
      → Printed c w
      → Passes on_clock Printed
          (λ res st w. w.printed ≡ lines st.attempts)
          c
          (iteration on_clock c w)
  unfolding iteration step settle exhaust back_off ping_service classify_result read virtual_sync
      record_wait advance chain_after_attempt hook_chain print_failure progress_of retry_state
      stats_for next_cursor sleep
  pass-Printed c w (pos, within, same) = elim (Bool-cases (leb max c.attempt || false)) [
    | inl last ↦ rw last (another_line c.attempt c.attempt w.printed pos refl same)
    | inr more ↦ rw more (
      omega arith,
      ground arith,
      another_line c.attempt (min (c.attempt + 1) u32_max - 1) w.printed pos
          (omega (arith, within, few)) same,
    )
  ]

  abbrev gave_up : Result (Unit {0}) (RetryError String Ping)
  gave_up = err (RetryError.exhausted (err "control plane unavailable"))

  ends :
      (k : ℕ)
      → suc k ≡ max
      → EndsAt rules
          (λ n. err "control plane unavailable")
          (λ n. 0)
          (λ n. 5_000_000)
          (suc k)
          gave_up
          StopReason.exhausted
  unfolding classify_result
  ends k e = record {
    again = λ i pos before. (err "control plane unavailable", refl);
    goes_on = λ s before. ground arith;
    ends = λ rest now waited previous. ground arith;
    paced = λ s. refl;
    untimed = refl;
  }

  allowed : attempts {World = Console} max ≡ some (stop_after_attempts max)
  unfolding attempts
  allowed = ground arith

  run-Printed :
      (fuel : ℕ)
      → Ends on_clock (λ res st w. w.printed ≡ lines st.attempts) (run on_clock fuel blank)
  unfolding run start first_cursor virtual_sync lines
  run-Printed fuel =
      run_loop-Ends on_clock Printed _ pass-Printed fuel _ _ (omega arith, some_attempts, refl)

  module _ (fl : Float) (system : SyncClock Console) where
    built : ping_retry fl system max ≡ some on_clock
    unfolding ping_retry retry_ext retry_op default_stop default_wait attempts stop_after_attempts
        from_parts set_stop set_wait set_clock after_attempt default_classifier result_outcome fixed
        stateless_op
    built =
        ap
          (λ (stop : Option (Stop Console)).
            elim stop as (λ _. Option (Retry Console Ping (Unit {0}) String)) [
              | none ↦ none
              | some stop ↦ some (set_stop on_clock stop)
            ])
          allowed

    -- The example of hooks and statistics: a service that never answers, retried with `max` attempts
    -- from one on and 5 ms between them, is exhausted after exactly `max` attempts, the statistics
    -- report `max - 1` waits of 5 ms as the total wait and the elapsed time, and the hook has printed
    -- one line for each attempt, in order, with its number and its error; on any fuel for `max`
    -- attempts within the range of attempt numbers.
    pub ping_retry-printed :
        (fuel : ℕ)
        → max ≤ fuel
        → fuel < u32_max
        → (r : Retry Console Ping (Unit {0}) String) × (ping_retry fl system max ≡ some r)
          × ((w : Console) × (call_with_stats (with_stats r) fuel blank
                ≡ some (
                  (
                    gave_up,
                    record {
                      attempts = max;
                      total_elapsed = (max - 1) * 5_000_000;
                      total_wait = (max - 1) * 5_000_000;
                      stop_reason = StopReason.exhausted;
                    },
                  ),
                  w,
                ))
              × (w.printed ≡ lines max))
    ping_retry-printed fuel enough room =
        let k = max - 1 in
        let whole : suc k ≡ max = omega arith in
        let waited = sum-delays_fixed 5_000_000 k 1 in
        let free = costs_free k 1 in
        let (w, ran, there) =
          run-ends rules (λ n. err "control plane unavailable") (λ n. 0) (λ n. 5_000_000) gave_up
            StopReason.exhausted time_cell (λ s. ping_service) hooks plays k fuel blank
            (ends k whole) (omega (arith, enough)) room tt (omega (arith, waited, free, few)) in
        let elapsed : costs (λ n. 0) k 1 + sum (delays (λ n. 5_000_000) k 1) ≡ k * 5_000_000 =
          omega (arith, waited, free) in
        (
          on_clock,
          built,
          (
            w,
            ran ∙ (λ i. some (
              (
                gave_up,
                record {
                  attempts = whole i;
                  total_elapsed = elapsed i;
                  total_wait = waited i;
                  stop_reason = StopReason.exhausted;
                },
              ),
              w,
            )),
            ends_at on_clock (λ res st w. w.printed ≡ lines st.attempts) ran (run-Printed fuel)
                ∙ ap lines whole,
          ),
        )
