-- ===== src/Engine/Reference/Ends.antt =====
-- The account of an operation that is retried a number of times and then ends the run.
use relentless.Prelude.{
  ℕ, zero, suc, ◌+◌, ◌<◌, ◌≡◌, ap, ◌∙◌, false, Option, none, some, List, [], ◌∷◌, ◌++◌, arith,
}
use relentless.Effect.{Cell}
use relentless.Duration.{u32_max, IsDuration}
use relentless.State.{RetryState}
use relentless.Decision.{Result, Verdict}
use relentless.Clock.{VirtualTime}
use relentless.Clock.Virtual.{sum}
use relentless.Engine.Termination.{StopReason}
use relentless.Engine.Error.{RetryError}
use relentless.Engine.Hooks.{ExecutionHooks}
use relentless.Engine.Sync.{RetryOp, run}
use relentless.Engine.Reference.{
  Rules, Account, performed, waited_first, ending, settled, account, account_of,
}
use relentless.Engine.Reference.Elapsed.{account-suc}
use relentless.Engine.Reference.Pass.{Plays, on_virtual_clock}
use relentless.Engine.Reference.Refines.{run-account_of}

abbrev pub nonzero : List ℕ → List ℕ
nonzero [] = []
nonzero (d ∷ ds) = performed d (nonzero ds)

module _ (schedule : ℕ → ℕ) where
  -- `k` delays from attempt `n` on.
  unfoldable pub delays : (k n : ℕ) → List ℕ
  delays zero n = []
  delays (suc k) n = schedule n ∷ delays k (suc n)

  -- What `k` failures from attempt `n` on and the attempt after them cost.
  unfoldable pub costs : (k n : ℕ) → ℕ
  costs zero n = schedule n
  costs (suc k) n = schedule n + costs k (suc n)

module _ {O R A : Type 0} (rules : Rules O R A) (answer : ℕ → O) (cost schedule : ℕ → ℕ) (last : ℕ)
    (result : Result R (RetryError A O)) (reason : StopReason) where
  -- The operation is retried before the attempt `last`, which ends the run with the result; there is
  -- no timeout, and the delays go by the attempt.
  pub record EndsAt : Type 0 where
    pub again : (i : ℕ) → 0 < i → i < last → (o : O) × (rules.classify (answer i) ≡ Verdict.retry o)
    pub goes_on : (s : RetryState) → s.attempt < last → rules.stops s ≡ false
    pub ends :
        (rest : ℕ → Option (Account O R A)) (now waited : ℕ) (previous : Option ℕ)
        → settled rules answer cost rest last now waited previous (rules.classify (answer last))
          ≡ ending rules answer cost result reason last now waited
    pub paced : (s : RetryState) → rules.delay s ≡ schedule s.attempt
    pub untimed : rules.timeout ≡ none

  abbrev pub ending_at : (attempts elapsed waited : ℕ) → List ℕ → Account O R A
  ending_at attempts elapsed waited ds = record {
    outcome = (
      result,
      record {
        attempts = attempts;
        total_elapsed = elapsed;
        total_wait = waited;
        stop_reason = reason;
      },
    );
    waits = ds;
  }

  abbrev pub ended_after : (k n now waited : ℕ) → Account O R A
  ended_after k n now waited =
      ending_at last (now + (costs cost k n + sum (delays schedule k n)))
        (waited + sum (delays schedule k n)) (nonzero (delays schedule k n))

  module _ (h : EndsAt) where
    settled_again :
        (rest : ℕ → Option (Account O R A)) (n now waited : ℕ) (previous : Option ℕ) (o : O)
        → n < last
        → settled rules answer cost rest n now waited previous (Verdict.retry o)
          ≡ waited_first (schedule n) (rest (schedule n))
    settled_again rest n now waited previous o before =
        let s : RetryState = record { attempt = n; elapsed = now; previous_delay = previous } in
        simp (h.goes_on s before, h.untimed, h.paced s)

    settled_finally :
        (rest : ℕ → Option (Account O R A)) (n now waited : ℕ) (previous : Option ℕ)
        → n ≡ last
        → settled rules answer cost rest n now waited previous (rules.classify (answer n))
          ≡ some (ending_at last now waited [])
    settled_finally rest n now waited previous here =
        ap
          (λ (i : ℕ).
            settled rules answer cost rest i now waited previous (rules.classify (answer i)))
          here
        ∙ h.ends rest now waited previous

    account-ended_after :
        (k fuel n now waited : ℕ) (previous : Option ℕ)
        → k < fuel
        → 0 < n
        → n + k ≡ last
        → account rules answer cost fuel n now waited previous ≡ some (ended_after k n now waited)
    unfolding costs delays
    account-ended_after k zero n now waited previous few pos e = absurd (omega (arith, few))
    account-ended_after zero (suc fuel) n now waited previous few pos e =
        let elapsed : now + cost n ≡ now + (cost n + 0) = omega arith in
        let waits : waited ≡ waited + 0 = omega arith in
        account-suc rules answer cost fuel n now waited previous
        ∙ (settled_finally
              (λ d. account rules answer cost fuel (suc n) (now + cost n + d) (waited + d) (some d))
              n (now + cost n) waited previous (omega (arith, e))
            ∙ (λ i. some (ending_at last (elapsed i) (waits i) [])))
    account-ended_after (suc k) (suc fuel) n now waited previous few pos e =
        let (o, retried) = h.again n pos (omega (arith, e)) in
        let d = schedule n in
        let elapsed : now + cost n + d + (costs cost k (suc n) + sum (delays schedule k (suc n)))
            ≡ now + (cost n + costs cost k (suc n) + (d + sum (delays schedule k (suc n)))) =
          omega arith in
        let waits : waited + d + sum (delays schedule k (suc n))
            ≡ waited + (d + sum (delays schedule k (suc n))) =
          omega arith in
        account-suc rules answer cost fuel n now waited previous
        ∙ rw retried (
            settled_again
              (λ d. account rules answer cost fuel (suc n) (now + cost n + d) (waited + d) (some d))
              n (now + cost n) waited previous o (omega (arith, e))
            ∙ (ap (waited_first d) (
                  account-ended_after k fuel (suc n) (now + cost n + d) (waited + d) (some d)
                    (omega (arith, few)) (omega arith) (omega (arith, e)))
                ∙ (λ i.
                    some (
                      ending_at last (elapsed i) (waits i) (nonzero (delays schedule (suc k) n))))))

module _ {O R A : Type 0} (rules : Rules O R A) (answer : ℕ → O) (cost schedule : ℕ → ℕ)
    (result : Result R (RetryError A O)) (reason : StopReason) where
  -- An operation that plays a script which ends the run at attempt k + 1, on any fuel for as many
  -- attempts.
  pub run-ends :
      {World : Type 0} (clock : Cell World VirtualTime) (op : RetryOp World O)
      (hooks : ExecutionHooks World O R A) {At : ℕ → World → Type 0}
      → Plays clock op hooks answer cost At
      → (k fuel : ℕ) (w : World) → EndsAt rules answer cost schedule (suc k) result reason
      → k < fuel
      → fuel < u32_max
      → At 1 w
      → IsDuration ((clock.get w).now + (costs cost k 1 + sum (delays schedule k 1)))
      → (w' : World) × (run (on_virtual_clock clock rules op hooks) fuel w
          ≡ some (
            (
              result,
              record {
                attempts = suc k;
                total_elapsed = costs cost k 1 + sum (delays schedule k 1);
                total_wait = sum (delays schedule k 1);
                stop_reason = reason;
              },
            ),
            w',
          ))
        × (clock.get w' ≡ record {
          now = (clock.get w).now + (costs cost k 1 + sum (delays schedule k 1));
          waits = (clock.get w).waits ++ nonzero (delays schedule k 1);
        })
  unfolding account_of
  run-ends clock op hooks plays k fuel w h few room here fits =
      let spent = costs cost k 1 + sum (delays schedule k 1) in
      let elapsed : 0 + spent ≡ spent = omega arith in
      let waited : 0 + sum (delays schedule k 1) ≡ sum (delays schedule k 1) = omega arith in
      let again =
        account-ended_after rules answer cost schedule (suc k) result reason h k fuel 1 0 0 none few
          (omega arith) (omega arith) in
      let (w', x, y) =
        run-account_of clock rules op hooks plays fuel w
          (ended_after rules answer cost schedule (suc k) result reason k 1 0 0) again room here
          (omega (arith, fits)) in
      (
        w',
        x ∙ (λ i. some (
          (ending_at rules answer cost schedule (suc k) result reason (suc k) (elapsed i) (waited i)
              []).outcome,
          w',
        )),
        y ∙ (λ i. record {
          now = (clock.get w).now + elapsed i;
          waits = (clock.get w).waits ++ nonzero (delays schedule k 1);
        }),
      )
