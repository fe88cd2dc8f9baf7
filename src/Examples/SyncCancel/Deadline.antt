-- ===== src/Examples/SyncCancel/Deadline.antt =====
-- The first pattern of examples/sync-cancel.rs: how many attempts the timeout lets it make.
use Prim.Native.String.{String}
use relentless.Prelude.{
  ℕ, zero, suc, ◌+◌, ◌-◌, ◌*◌, ◌/◌, ◌≤◌, ◌<◌, ◌≡◌, refl, ap, ◌∙◌, ◌==◌, leb, length, some, inl, inr,
  Bool-cases, arith,
}
use relentless.Effect.{pure}
use relentless.Duration.{u32_max}
use relentless.Decision.{Result, err, classify_result, result_outcome, default_classifier}
use relentless.Stop.{attempts, stop_after_attempts}
use relentless.Wait.{fixed}
use relentless.Wait.Exponential.{Float}
use relentless.Clock.{VirtualTime, virtual_sync, advance}
use relentless.Engine.Termination.{StopReason}
use relentless.Engine.Error.{RetryError}
use relentless.Engine.Hooks.{ExecutionHooks, no_hooks}
use relentless.Engine.Sync.{Retry, RetryOp, run, stateless_op}
use relentless.Engine.Sync.Builder.{from_parts, set_wait, set_stop, set_timeout}
use relentless.Engine.Reference.{Rules}
use relentless.Engine.Reference.Pass.{Plays, on_virtual_clock}
use relentless.Engine.Reference.TimedOut.{clamped, NeverSettles, run-timed_out}
use relentless.Policy.{retry_op, retry_ext, default_stop, default_wait}
use relentless.Examples.Calls.{sum-delays_fixed, unmoved}
use relentless.Examples.SyncCancel.{Watched, time_cell, untouched, deadline_retry}

abbrev hundred : ℕ → ℕ
hundred n = 100_000_000

-- Fixed delays that cover a budget, one more for a rest.
length-clamped :
    (k n left : ℕ)
    → left ≤ k * 100_000_000
    → length (clamped hundred k n left) ≡ (left + 99_999_999) / 100_000_000
unfolding clamped
length-clamped zero n left h = omega (arith, h)
length-clamped (suc k) n left h = elim (Bool-cases (left == 0)) [
  | inl over ↦ rw over (ground arith)
  | inr more ↦
      let rest = length-clamped k (suc n) (left - 100_000_000) (omega (arith, h)) in
      rw more (ground (arith, rest))
]

abbrev unavailable : RetryOp Watched (Result String String)
unavailable s = pure (err "service unavailable")

abbrev hooks : ExecutionHooks Watched (Result String String) String String
hooks = no_hooks

plays :
    Plays time_cell unavailable hooks (λ n. err "service unavailable") (λ n. 0) (λ n w. Unit {0})
unfolding advance
plays = record {
  at_op = λ s w h. (refl, λ fits. unmoved w.time, tt);
  at_set = λ n t w h. h;
  at_before = λ s w. (refl, λ n h. h);
  at_after = λ s w. (refl, λ n h. h);
  at_exit = λ e w. (refl, λ n h. h);
}

module _ (fl : Float) (dur : ℕ) where
  abbrev rules : Rules (Result String String) String String
  rules = record {
    classify = classify_result;
    stops = λ s. leb 100 s.attempt;
    delay = λ s. 100_000_000;
    timeout = some dur;
  }

  built :
      deadline_retry fl (virtual_sync time_cell) dur
      ≡ some (on_virtual_clock time_cell rules unavailable hooks)
  unfolding deadline_retry retry_ext retry_op default_stop default_wait attempts stop_after_attempts
      from_parts set_stop set_wait set_timeout default_classifier result_outcome fixed stateless_op
  built = refl

  never_settles :
      NeverSettles rules
        (λ n. err "service unavailable")
        (λ n. err "service unavailable")
        (λ n. 0)
        hundred
        99
        dur
  unfolding classify_result
  never_settles = record {
    again = λ i pos few. refl;
    instant = λ i pos few. refl;
    goes_on = λ s few. ground arith;
    paced = λ s few. refl;
    positive = λ i pos few. omega arith;
    timed = refl;
  }

  -- The first pattern of the cancelling example, with a virtual clock for the system's: an operation
  -- that fails at once is retried every 100 ms until a timeout of at most 9.8 s, and the retry is
  -- exhausted exactly at the timeout, after one attempt more than the timeout has tenths of a second,
  -- a rest of one counted as one; any fuel for 99 attempts within the range of attempt numbers will do.
  pub deadline_retry-attempts :
      (fuel : ℕ)
      → dur ≤ 9_800_000_000
      → 99 ≤ fuel
      → fuel < u32_max
      → (r : Retry Watched (Result String String) String String) × (deadline_retry fl
            (virtual_sync time_cell)
            dur
          ≡ some r)
        × ((w : Watched) × (run r fuel untouched
              ≡ some (
                (
                  err (RetryError.exhausted (err "service unavailable")),
                  record {
                    attempts = 1 + (dur + 99_999_999) / 100_000_000;
                    total_elapsed = dur;
                    total_wait = dur;
                    stop_reason = StopReason.exhausted;
                  },
                ),
                w,
              ))
            × (w.time.now ≡ dur))
  deadline_retry-attempts fuel short enough room =
      let waited = sum-delays_fixed 100_000_000 98 1 in
      let count = length-clamped 98 1 dur (omega (arith, short)) in
      let (w, ran, there) =
        run-timed_out rules (λ n. err "service unavailable") (λ n. err "service unavailable")
          (λ n. 0) hundred 99 dur time_cell unavailable hooks plays 98 fuel untouched never_settles
          (omega (arith, enough)) room (omega arith) (omega (arith, short, waited)) tt
          (omega (arith, short)) in
      (
        on_virtual_clock time_cell rules unavailable hooks,
        built,
        (
          w,
          ran ∙ (λ i. some (
            (
              err (RetryError.exhausted (err "service unavailable")),
              record {
                attempts = 1 + count i;
                total_elapsed = dur;
                total_wait = dur;
                stop_reason = StopReason.exhausted;
              },
            ),
            w,
          )),
          ap (λ (t : VirtualTime). t.now) there ∙ omega arith,
        ),
      )
