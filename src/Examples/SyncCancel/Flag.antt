-- ===== src/Examples/SyncCancel/Flag.antt =====
-- The second pattern of examples/sync-cancel.rs: what a flag that the operation looks at leads to.
use relentless.Prelude.{
  ℕ, suc, ◌+◌, ◌-◌, ◌≤◌, ◌<◌, min, ◌≡◌, refl, ◌∙◌, leb, Option, none, some, if◌then◌else◌, arith,
}
use relentless.Effect.{pure}
use relentless.Duration.{u32_max}
use relentless.Decision.{
  Result, ok, err, Verdict, classify_result, result_outcome, default_classifier,
}
use relentless.Predicate.{error}
use relentless.Predicate
use relentless.Stop.{attempts, stop_after_attempts}
use relentless.Wait.{fixed}
use relentless.Wait.Exponential.{Float}
use relentless.Clock.{virtual_sync, advance}
use relentless.Engine.Termination.{StopReason}
use relentless.Engine.Error.{RetryError}
use relentless.Engine.Hooks.{ExecutionHooks, no_hooks}
use relentless.Engine.Sync.{Retry, run}
use relentless.Engine.Sync.Builder.{from_parts, set_wait, set_stop, when, with_classifier}
use relentless.Engine.Reference.{Rules}
use relentless.Engine.Reference.Pass.{Plays, on_virtual_clock}
use relentless.Clock.Virtual.{sum}
use relentless.Engine.Reference.Ends.{delays, costs, EndsAt, run-ends}
use relentless.Policy.{retry_op, default_stop, default_wait}
use relentless.Examples.Calls.{sum-delays_fixed, costs_free, unmoved}
use relentless.Examples.SyncCancel.{
  ServiceError, transient, Watched, time_cell, untouched, watched_call, is_transient,
  unfiltered_retry, flag_retry,
}

abbrev pub Call : Type 0
Call = Result (Unit {0}) ServiceError

abbrev hooks : ExecutionHooks Watched Call (Unit {0}) ServiceError
hooks = no_hooks

-- What `.when(error(is_transient))` makes of an outcome.
abbrev sorted : Call → Verdict (Unit {0}) ServiceError Call
sorted (ok v) = Verdict.return v
sorted (err (transient message)) = Verdict.retry (err (transient message))
sorted (err ServiceError.cancelled) = Verdict.abort ServiceError.cancelled

when-sorted :
    (o : Call) (w : Watched)
    → (Predicate.when (error (λ e. pure (is_transient e)))).decide o w ≡ (sorted o, w)
unfolding Predicate.when error is_transient
when-sorted (ok v) w = refl
when-sorted (err (transient message)) w = refl
when-sorted (err ServiceError.cancelled) w = refl

module _ (after : ℕ) (some_attempts : 1 ≤ after) where
  abbrev pub refused : Call
  refused = err (transient "connection refused")

  abbrev answer : ℕ → Call
  answer n = if leb n after then refused else err ServiceError.cancelled

  abbrev At : ℕ → Watched → Type 0
  At n w =
      (1 ≤ n) × (w.attempts_before_cancel ≡ min (n - 1) after) × (w.cancelled ≡ leb after (n - 1))

  on_time : (w : Watched) → (watched_call after w).1.time ≡ w.time
  unfolding watched_call
  on_time w = ground arith

  plays : Plays time_cell (λ s. watched_call after) hooks answer (λ n. 0) At
  unfolding watched_call advance
  plays = record {
    at_op = λ s w h. (ground arith, λ fits. on_time w ∙ unmoved w.time, ground arith);
    at_set = λ n t w h. h;
    at_before = λ s w. (refl, λ n h. h);
    at_after = λ s w. (refl, λ n h. h);
    at_exit = λ e w. (refl, λ n h. h);
  }

  abbrev rules : (Call → Verdict (Unit {0}) ServiceError Call) → Rules Call (Unit {0}) ServiceError
  rules classify = record {
    classify = classify;
    stops = λ s. leb 100 s.attempt;
    delay = λ s. 0;
    timeout = none;
  }

  abbrev pub flagged : Result (Unit {0}) (RetryError ServiceError Call)
  flagged =
      if leb 100 after
      then err (RetryError.exhausted refused)
      else err (RetryError.aborted ServiceError.cancelled)

  abbrev pub reason : StopReason
  reason = if leb 100 after then StopReason.exhausted else StopReason.aborted

  abbrev pub ignored : Result (Unit {0}) (RetryError ServiceError Call)
  ignored =
      err (RetryError.exhausted (if leb 100 after then refused else err ServiceError.cancelled))

  ends_flagged : EndsAt (rules sorted) answer (λ n. 0) (λ n. 0) (suc (min after 99)) flagged reason
  ends_flagged = record {
    again = λ i pos before. (refused, ground arith);
    goes_on = λ s before. ground arith;
    ends = λ rest now waited previous. ground arith;
    paced = λ s. refl;
    untimed = refl;
  }

  ends_ignored :
      EndsAt (rules classify_result) answer (λ n. 0) (λ n. 0) 100 ignored StopReason.exhausted
  unfolding classify_result
  ends_ignored = record {
    again = λ i pos before. (answer i, ground arith);
    goes_on = λ s before. ground arith;
    ends = λ rest now waited previous. ground arith;
    paced = λ s. refl;
    untimed = refl;
  }

  module _ (fl : Float) where
    abbrev on_clock :
        (Call → Verdict (Unit {0}) ServiceError Call) → Retry Watched Call (Unit {0}) ServiceError
    on_clock classify = on_virtual_clock time_cell (rules classify) (λ s. watched_call after) hooks

    built_unfiltered :
        unfiltered_retry fl (virtual_sync time_cell) after ≡ some (on_clock classify_result)
    unfolding unfiltered_retry retry_op default_stop default_wait attempts stop_after_attempts
        from_parts set_stop set_wait default_classifier result_outcome fixed
    built_unfiltered = refl

    built_flag : flag_retry fl (virtual_sync time_cell) after ≡ some (on_clock sorted)
    unfolding flag_retry unfiltered_retry retry_op default_stop default_wait attempts
        stop_after_attempts from_parts set_stop set_wait when with_classifier default_classifier
        result_outcome fixed
    built_flag =
        λ i. some (with_classifier (on_clock sorted) (record { decide = λ o w. when-sorted o w i }))

    -- What a run returned with: this result after so many attempts, all of them at the time 0.
    abbrev pub Ends :
        Option (Retry Watched Call (Unit {0}) ServiceError)
        → ℕ
        → Result (Unit {0}) (RetryError ServiceError Call)
        → (attempts : ℕ) → StopReason
        → Type 0
    Ends built fuel result attempts reason =
        (r : Retry Watched Call (Unit {0}) ServiceError) × (built ≡ some r)
        × ((w : Watched) × (run r fuel untouched
              ≡ some (
                (
                  result,
                  record {
                    attempts = attempts;
                    total_elapsed = 0;
                    total_wait = 0;
                    stop_reason = reason;
                  },
                ),
                w,
              )))

    ran_as :
        (classify : Call → Verdict (Unit {0}) ServiceError Call)
        (built : Option (Retry Watched Call (Unit {0}) ServiceError))
        (result : Result (Unit {0}) (RetryError ServiceError Call)) (why : StopReason) (k fuel : ℕ)
        → built ≡ some (on_clock classify)
        → EndsAt (rules classify) answer (λ n. 0) (λ n. 0) (suc k) result why
        → k < fuel
        → fuel < u32_max
        → Ends built fuel result (suc k) why
    ran_as classify built result why k fuel same_retry ends enough room =
        let waited = sum-delays_fixed 0 k 1 in
        let free = costs_free k 1 in
        let (w, ran, there) =
          run-ends (rules classify) answer (λ n. 0) (λ n. 0) result why time_cell
            (λ s. watched_call after) hooks plays k fuel untouched ends enough room
            (omega arith, omega arith, ground arith) (omega (arith, waited, free)) in
        let elapsed : costs (λ n. 0) k 1 + sum (delays (λ n. 0) k 1) ≡ 0 =
          omega (arith, waited, free) in
        let waits : sum (delays (λ n. 0) k 1) ≡ 0 = omega (arith, waited) in
        (
          on_clock classify,
          same_retry,
          (
            w,
            ran ∙ (λ i. some (
              (
                result,
                record {
                  attempts = suc k;
                  total_elapsed = elapsed i;
                  total_wait = waits i;
                  stop_reason = why;
                },
              ),
              w,
            )),
          ),
        )

    -- The flag of the cancelling example, with a virtual clock for the system's: an operation that
    -- fails transiently and sets the flag at its call number `after`, and answers `Cancelled` once
    -- the flag is set. With `.when(error(is_transient))` the retry is aborted with `Cancelled` at
    -- the very next attempt, if there are at most 99 calls before it; otherwise it is exhausted at the
    -- 100th attempt with the transient error. Without the `.when` the flag stops nothing: the retry
    -- makes all of its 100 attempts and is exhausted, with `Cancelled` as its last outcome where the
    -- flag is set. For any `after` from 1 on, and any fuel for 100 attempts within the range of
    -- attempt numbers.
    pub flag_retry-cancelled :
        (fuel : ℕ)
        → 100 ≤ fuel
        → fuel < u32_max
        → Ends
            (flag_retry fl (virtual_sync time_cell) after)
            fuel
            flagged
            (suc (min after 99))
            reason
          × Ends
              (unfiltered_retry fl (virtual_sync time_cell) after)
              fuel
              ignored
              100
              StopReason.exhausted
    flag_retry-cancelled fuel enough room = (
      ran_as sorted _ flagged reason (min after 99) fuel built_flag ends_flagged
          (omega (arith, enough)) room,
      ran_as classify_result _ ignored StopReason.exhausted 99 fuel built_unfiltered ends_ignored
          (omega (arith, enough)) room,
    )
