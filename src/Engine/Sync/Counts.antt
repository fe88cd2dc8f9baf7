-- ===== src/Engine/Sync/Counts.antt =====
-- How often the loop calls each of its parts.
use relentless.Prelude.{
  ℕ, suc, ◌+◌, ◌*◌, ◌≤◌, ◌<◌, ◌≡◌, min, refl, ap, ◌∙◌, subst, ◌||◌, some, inl, inr, Bool-cases,
  arith,
}
use relentless.Duration.{u32_max}
use relentless.State.{RetryState}
use relentless.Decision.{Result, Verdict}
use relentless.Engine.Elapsed.{Elapsed, start, read}
use relentless.Engine.Error.{RetryError}
use relentless.Engine.Termination.{Exit, RetryStats}
use relentless.Engine.Hooks.{AttemptState}
use relentless.Engine.Step.{
  Step, done, continue, Progress, Policies, retry_state, timeout_exceeded, settle, step,
}
use relentless.Engine.Step.Contract.{Kept, step-Kept}
use relentless.Engine.Sync.{
  Retry, Cursor, next_cursor, first_cursor, before_state, progress_of, iteration, run, sleep,
}
use relentless.Engine.Sync.Invariant.{Passes, Ends, ends_at, run_loop-Ends}

-- A count of the world that goes up by `a` and `x` at the two hooks of a step, and at nothing else
-- that a step calls.
pub record StepTally {World O R A : Type 0} (p : Policies World O R A) (count : World → ℕ) (a x : ℕ)
    : Type 0 where
  pub at_after :
      (s : AttemptState O) (w : World) → count (p.hooks.after_attempt s w).1 ≡ count w + a
  pub at_exit : (e : Exit R A O) (w : World) → count (p.hooks.on_exit e w).1 ≡ count w + x
  pub at_decide : (o : O) (w : World) → count (p.classifier.decide o w).1 ≡ count w
  pub at_stop : (s : RetryState) (w : World) → count (p.stop.should_stop s w).1 ≡ count w
  pub at_next_wait : (s : RetryState) (w : World) → count (p.wait.next_wait s w).1 ≡ count w

module _ {World O R A : Type 0} {policies : Policies World O R A} {count : World → ℕ} {a x : ℕ}
    (tally : StepTally policies count a x) (p : Progress) where
  abbrev pub Counted : Step O R A → World → ℕ → Type 0
  Counted (done res st) w n = count w ≡ n + x
  Counted (continue d total) w n = count w ≡ n

  settle-Counted :
      (v : Verdict R A O) (w : World)
      → Counted (settle policies p v w).0 (settle policies p v w).1 (count w)
  unfolding settle
  settle-Counted (Verdict.return value) w = tally.at_exit _ w
  settle-Counted (Verdict.abort last) w = tally.at_exit _ w
  settle-Counted (Verdict.retry last) w =
      let s = retry_state p in
      let (stopped, w') = policies.stop.should_stop s w in
      let e = tally.at_stop s w in
      elim (Bool-cases (stopped || timeout_exceeded policies.timeout p.elapsed)) [
        | inl over ↦ rw over (omega (arith, e, tally.at_exit _ w'))
        | inr more ↦ rw more (omega (arith, e, tally.at_next_wait s w'))
      ]

  pub step-Counted :
      (o : O) (w : World) → Counted (step policies p o w).0 (step policies p o w).1 (count w + a)
  unfolding step
  step-Counted o w =
      let view : AttemptState O = record {
        attempt = p.attempt;
        elapsed = p.elapsed;
        outcome = o;
      } in
      let after = (policies.hooks.after_attempt view w).1 in
      let (v, w') = policies.classifier.decide o after in
      subst (Counted (settle policies p v w').0 (settle policies p v w').1)
        (tally.at_decide o after ∙ tally.at_after view w) (settle-Counted v w')

-- The same of every part that the loop calls: `b` at each before-hook, `o` at each operation, `a` at
-- each after-hook, `x` at each exit hook, and nothing at the clock and the policies.
pub record Tally {World O R A : Type 0} (r : Retry World O R A) (count : World → ℕ) (b o a x : ℕ)
    : Type 0 where
  pub steps : StepTally r.policies count a x
  pub at_before :
      (s : RetryState) (w : World) → count (r.policies.hooks.before_attempt s w).1 ≡ count w + b
  pub at_op : (s : RetryState) (w : World) → count (r.op s w).1 ≡ count w + o
  pub at_now : (w : World) → count (r.clock.now w).1 ≡ count w
  pub at_wait : (d : ℕ) (w : World) → count (r.clock.wait d w).1 ≡ count w

module _ {World O R A : Type 0} {r : Retry World O R A} {count : World → ℕ} {b o a x : ℕ}
    (tally : Tally r count b o a x) where
  sleep-Counted : (d : ℕ) (w : World) → count (sleep r d w) ≡ count w
  unfolding sleep
  sleep-Counted d w = ground (arith, tally.at_wait d w)

  read-Counted : (e : Elapsed) (w : World) → count (read r.clock.now e w).1 ≡ count w
  unfolding read
  read-Counted e w = tally.at_now w

  abbrev per_attempt : ℕ
  per_attempt = b + o + a

  -- Before each pass the count has grown by one share for each attempt made so far.
  abbrev Grown : ℕ → Cursor → World → Type 0
  Grown n c w =
      (1 ≤ c.attempt) × (c.attempt < u32_max → count w + per_attempt ≡ n + c.attempt * per_attempt)

  abbrev GrownBy : ℕ → RetryStats → World → Type 0
  GrownBy n st w = st.attempts < u32_max → count w ≡ n + st.attempts * per_attempt + x

  pass-Grown :
      (n : ℕ) (c : Cursor) (w : World)
      → Grown n c w
      → Passes r (Grown n) (λ _ st w'. GrownBy n st w') c (iteration r c w)
  unfolding iteration
  pass-Grown n c w g =
      let ((before, e), w0) = read r.clock.now c.elapsed w in
      let s = before_state c.attempt c.previous_delay before in
      let w1 = (r.policies.hooks.before_attempt s w0).1 in
      let w2 = (r.op s w1).1 in
      per_step _ _ _ _ (step-Kept r.policies _ _ _) (step-Counted tally.steps _ _ _) (
        omega (
          arith,
          read-Counted c.elapsed w,
          tally.at_before s w0,
          tally.at_op s w1,
          read-Counted e w2,
        ))
    where
      per_step :
          (post : ℕ) (s : Step O R A) (e : Elapsed) (v : World) {m : ℕ}
          → Kept r.policies (progress_of c post) s v
          → Counted tally.steps (progress_of c post) s v m
          → m ≡ count w + per_attempt
          → Passes r (Grown n) (λ _ st w'. GrownBy n st w') c ((s, e), v)
      per_step post (done res st) e v {m} k d eq =
          let same : st.attempts ≡ c.attempt =
            ap (λ (t : RetryStats). t.attempts) k.0 ∙ (unfold progress_of in refl) in
          λ h. omega (arith, d, eq, g.1 (omega (arith, same)), ap (λ (t : ℕ). t * per_attempt) same)
      per_step post (continue d total) e v {m} k f eq =
          let c' = next_cursor c e d total in
          let spent : c'.attempt ≡ min (c.attempt + 1) u32_max = unfold next_cursor in refl in
          (
            omega (arith, spent, g.0),
            λ h.
                let one_more : c'.attempt ≡ suc c.attempt = omega (arith, spent, h) in
                omega (
                  arith,
                  f,
                  eq,
                  g.1 (omega (arith, spent, h)),
                  sleep-Counted d v,
                  ap (λ (t : ℕ). t * per_attempt) one_more,
                ),
          )

  run-Ends : (fuel : ℕ) (w : World) → Ends r (λ _ st w'. GrownBy (count w) st w') (run r fuel w)
  unfolding run start first_cursor
  run-Ends fuel w =
      run_loop-Ends r (Grown (count w)) _ (pass-Grown (count w)) fuel _ _
        (omega arith, λ h. omega (arith, tally.at_now w))

  -- Calls are counted right: a run that reports n attempts, below u32::MAX, has made exactly n
  -- before-hook calls, n operation calls and n after-hook calls, and one exit-hook call, as any count
  -- of the world that goes up by `b`, `o`, `a` and `x` at these, and at nothing else, shows.
  pub run_counts :
      (fuel : ℕ) (w w' : World) (res : Result R (RetryError A O)) (st : RetryStats)
      → run r fuel w ≡ some ((res, st), w')
      → st.attempts < u32_max
      → count w' ≡ count w + st.attempts * (b + o + a) + x
  run_counts fuel w w' res st e h = ends_at r _ e (run-Ends fuel w) h
