-- ===== src/Engine/Sync/Verdicts.antt =====
-- Where the result of a run comes from.
use relentless.Prelude.{ℕ, ◌≡◌, refl, subst, ◌||◌, some, inl, inr, Bool-cases}
use relentless.State.{RetryState}
use relentless.Decision.{
  Result, ok, err, Verdict, Decide, default_classifier, result_outcome, classify_result,
}
use relentless.Engine.Elapsed.{Elapsed}
use relentless.Engine.Error.{RetryError, last_error}
use relentless.Engine.Termination.{RetryStats}
use relentless.Engine.Step.{
  Progress, Step, done, continue, Policies, timeout_exceeded, retry_state, exhaust, back_off,
  settle, step,
}
use relentless.Engine.Sync.{Retry, Cursor, iteration, run}
use relentless.Engine.Sync.Invariant.{Passes, Ends, ends_at, run_loop-Ends}

-- The result that a verdict ends a run with.
abbrev pub Shows : {O R A : Type 0} → Verdict R A O → Result R (RetryError A O) → Type 0
Shows v (ok value) = v ≡ Verdict.return value
Shows v (err (RetryError.aborted last)) = v ≡ Verdict.abort last
Shows v (err (RetryError.exhausted last)) = v ≡ Verdict.retry last

abbrev ShownBy : {O R A : Type 0} → Verdict R A O → Step O R A → Type 0
ShownBy v (done res st) = Shows v res
ShownBy v (continue d total) = Unit {0}

module _ {World O R A : Type 0} where
  module _ (policies : Policies World O R A) (p : Progress) where
    settle-ShownBy : (v : Verdict R A O) (w : World) → ShownBy v (settle policies p v w).0
    unfolding settle exhaust back_off
    settle-ShownBy (Verdict.return value) w = refl
    settle-ShownBy (Verdict.abort last) w = refl
    settle-ShownBy (Verdict.retry last) w =
        let stopped = (policies.stop.should_stop (retry_state p) w).0 in
        elim (Bool-cases (stopped || timeout_exceeded policies.timeout p.elapsed)) [
          | inl over ↦ rw over refl
          | inr more ↦ rw more tt
        ]

    step-ShownBy :
        (o : O) (w : World)
        → (w' : World) × ShownBy (policies.classifier.decide o w').0 (step policies p o w).0
    unfolding step
    step-ShownBy o w = (_, settle-ShownBy _ _)

  -- The operation returned an outcome on which the classifier gave a verdict that shows `res`.
  abbrev pub Given : Retry World O R A → Result R (RetryError A O) → Type 0
  Given r res =
      (state : RetryState) × (w w' : World) × Shows
        (r.policies.classifier.decide (r.op state w).0 w').0 res

  module _ (r : Retry World O R A) where
    abbrev Anything : Cursor → World → Type 0
    Anything c w = Unit {0}

    per_step :
        (c : Cursor) (o : O) (s : Step O R A) (e : Elapsed) (state : RetryState) (w1 v : World)
        → o ≡ (r.op state w1).0
        → (w' : World) × ShownBy (r.policies.classifier.decide o w').0 s
        → Passes r Anything (λ res st w. Given r res) c ((s, e), v)
    per_step c o (done res st) e state w1 v same (w', h) =
        (state, w1, w', subst (λ o. Shows (r.policies.classifier.decide o w').0 res) same h)
    per_step c o (continue d total) e state w1 v same h = tt

    pass-Given :
        (c : Cursor) (w : World)
        → Anything c w
        → Passes r Anything (λ res st w. Given r res) c (iteration r c w)
    unfolding iteration
    pass-Given c w h = per_step c _ _ _ _ _ _ refl (step-ShownBy r.policies _ _ _)

    run-Ends : (fuel : ℕ) (w : World) → Ends r (λ res st w. Given r res) (run r fuel w)
    unfolding run
    run-Ends fuel w = run_loop-Ends r Anything _ pass-Given fuel _ _ tt

    pub run-Given :
        (fuel : ℕ) (w w' : World) (res : Result R (RetryError A O)) (st : RetryStats)
        → run r fuel w ≡ some ((res, st), w')
        → Given r res
    run-Given fuel w w' res st e = ends_at r _ e (run-Ends fuel w)

module _ {World T E : Type 0} (r : Retry World (Result T E) T E) where
  -- The operation returned it.
  abbrev pub Returned : Result T E → Type 0
  Returned o = (state : RetryState) × (w : World) × ((r.op state w).0 ≡ o)

  -- What a caller gets of an operation that returns a `Result`, without a classifier of its own.
  abbrev pub Passed : Result T (RetryError E (Result T E)) → Type 0
  Passed (ok value) = Returned (ok value)
  Passed (err e) =
      (x : E) × (e ≡ RetryError.exhausted (err x)) × (last_error e ≡ some x) × Returned (err x)

  -- The same, read off a verdict.
  abbrev Caught : Verdict T E (Result T E) → Type 0
  Caught (Verdict.return value) = Returned (ok value)
  Caught (Verdict.abort last) = ⊥
  Caught (Verdict.retry last) = Passed (err (RetryError.exhausted last))

  passed :
      (o : Result T E)
      → Returned o
      → (res : Result T (RetryError E (Result T E))) → Shows (classify_result o) res
      → Passed res
  unfolding classify_result
  passed (ok value) h (ok v) e = subst Caught e h
  passed (ok value) h (err (RetryError.aborted a)) e = cc
  passed (ok value) h (err (RetryError.exhausted o)) e = cc
  passed (err x) h (ok v) e = cc
  passed (err x) h (err (RetryError.aborted a)) e = cc
  passed (err x) h (err (RetryError.exhausted o)) e = subst Caught e (x, refl, refl, h)

  -- Under the default classifier an operation that returns a `Result` is passed on faithfully: the
  -- caller gets `Ok` only with a value that the operation returned, and `Err` only as exhausted, never
  -- as aborted, with an error that the operation returned, and `last_error` has it.
  pub run-last_error :
      (fuel : ℕ) (w w' : World) (res : Result T (RetryError E (Result T E))) (st : RetryStats)
      → r.policies.classifier ≡ default_classifier
      → run r fuel w ≡ some ((res, st), w')
      → Passed res
  unfolding default_classifier result_outcome
  run-last_error fuel w w' res st default e =
      let (state, v, v', h) = run-Given r fuel w w' res st e in
      passed (r.op state v).0 (state, v, refl) res
        (subst (λ (c : Decide World (Result T E) T E). Shows (c.decide (r.op state v).0 v').0 res)
          default h)
