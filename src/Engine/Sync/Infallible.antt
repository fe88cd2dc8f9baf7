-- ===== src/Engine/Sync/Infallible.antt =====
-- What a caller gets of an operation whose outcome type has no error to abort with.
use relentless.Prelude.{ℕ, ◌≡◌, refl, subst, Option, none, some}
use relentless.State.{RetryState}
use relentless.Decision.{
  Result, ok, err, ControlFlow, break, carry_on, Infallible, Verdict, Decide, Outcome,
  classify_option, classify_control_flow, option_outcome, control_flow_outcome, default_classifier,
}
use relentless.Engine.Error.{RetryError}
use relentless.Engine.Termination.{RetryStats}
use relentless.Engine.Sync.{Retry, run}
use relentless.Engine.Sync.Verdicts.{Shows, run-Given}

module _ {World O R : Type 0} where
  abbrev pub GivenBack : Retry World O R Infallible → O → Type 0
  GivenBack r o = (state : RetryState) × (w : World) × ((r.op state w).0 ≡ o)

  -- What a run returned is what the outcome type makes of an outcome that the operation returned.
  shown :
      (r : Retry World O R Infallible) (outcome : Outcome O R Infallible) (fuel : ℕ) (w w' : World)
      (res : Result R (RetryError Infallible O)) (st : RetryStats)
      → r.policies.classifier ≡ default_classifier ⦃outcome = outcome⦄
      → run r fuel w ≡ some ((res, st), w')
      → (o : O) × GivenBack r o × Shows (outcome.classify o) res
  unfolding default_classifier
  shown r outcome fuel w w' res st default e =
      let (state, v, v', h) = run-Given r fuel w w' res st e in
      (
        (r.op state v).0,
        (state, v, refl),
        subst (λ (c : Decide World O R Infallible). Shows (c.decide (r.op state v).0 v').0 res)
            default h,
      )

-- The value of a `some`, or exhausted with `none`.
abbrev pub OfOption :
    {World T : Type 0}
    → Retry World (Option T) T Infallible
    → Result T (RetryError Infallible (Option T))
    → Type 0
OfOption r (ok value) = GivenBack r (some value)
OfOption r (err (RetryError.aborted a)) = ⊥
OfOption r (err (RetryError.exhausted o)) = (o ≡ none) × GivenBack r none

-- The value of a `break`, or exhausted with a `carry_on`.
abbrev pub OfControlFlow :
    {World B C : Type 0}
    → Retry World (ControlFlow B C) B Infallible
    → Result B (RetryError Infallible (ControlFlow B C))
    → Type 0
OfControlFlow r (ok value) = GivenBack r (break value)
OfControlFlow r (err (RetryError.aborted a)) = ⊥
OfControlFlow {C} r (err (RetryError.exhausted o)) =
    (c : C) × (o ≡ carry_on c) × GivenBack r (carry_on c)

module _ {World T : Type 0} (r : Retry World (Option T) T Infallible) where
  abbrev Caught : Verdict T Infallible (Option T) → Type 0
  Caught (Verdict.return value) = OfOption r (ok value)
  Caught (Verdict.abort a) = ⊥
  Caught (Verdict.retry o) = OfOption r (err (RetryError.exhausted o))

  caught :
      (o : Option T) (res : Result T (RetryError Infallible (Option T)))
      → GivenBack r o
      → Shows (classify_option o) res
      → OfOption r res
  unfolding classify_option
  caught (some value) (ok v) h e = subst Caught e h
  caught (some value) (err (RetryError.aborted a)) h e = absurd a
  caught (some value) (err (RetryError.exhausted o)) h e = cc
  caught none (ok v) h e = cc
  caught none (err (RetryError.aborted a)) h e = absurd a
  caught none (err (RetryError.exhausted o)) h e = subst Caught e (refl, h)

module _ {World B C : Type 0} (r : Retry World (ControlFlow B C) B Infallible) where
  abbrev Stopped : Verdict B Infallible (ControlFlow B C) → Type 0
  Stopped (Verdict.return value) = OfControlFlow r (ok value)
  Stopped (Verdict.abort a) = ⊥
  Stopped (Verdict.retry o) = OfControlFlow r (err (RetryError.exhausted o))

  stopped :
      (o : ControlFlow B C) (res : Result B (RetryError Infallible (ControlFlow B C)))
      → GivenBack r o
      → Shows (classify_control_flow o) res
      → OfControlFlow r res
  unfolding classify_control_flow
  stopped (break value) (ok v) h e = subst Stopped e h
  stopped (break value) (err (RetryError.aborted a)) h e = absurd a
  stopped (break value) (err (RetryError.exhausted o)) h e = cc
  stopped (carry_on c) (ok v) h e = cc
  stopped (carry_on c) (err (RetryError.aborted a)) h e = absurd a
  stopped (carry_on c) (err (RetryError.exhausted o)) h e = subst Stopped e (c, refl, h)

-- The payload `Infallible` keeps its word: under the default classifier, a run over an operation
-- that returns an `Option`, or one that returns a `ControlFlow`, is never aborted. The caller gets
-- `Ok` only with the value of a `Some`, of a `Break`, that the operation returned, and `Err` only as
-- exhausted with `None`, with a `Continue`, that it returned.
pub run-Infallible :
    {World T B C : Type 0} (r : Retry World (Option T) T Infallible)
    (s : Retry World (ControlFlow B C) B Infallible) (fuel : ℕ) (w v v' : World)
    (res : Result T (RetryError Infallible (Option T)))
    (res' : Result B (RetryError Infallible (ControlFlow B C))) (st st' : RetryStats)
    → r.policies.classifier ≡ default_classifier
    → s.policies.classifier ≡ default_classifier
    → run r fuel w ≡ some ((res, st), v)
    → run s fuel w ≡ some ((res', st'), v')
    → OfOption r res × OfControlFlow s res'
unfolding option_outcome control_flow_outcome
run-Infallible r s fuel w v v' res res' st st' by_option by_flow ran ran' =
    let (o, given, shows) = shown r option_outcome fuel w v res st by_option ran in
    let (o', given', shows') = shown s control_flow_outcome fuel w v' res' st' by_flow ran' in
    (caught r o res given shows, stopped s o' res' given' shows')
