-- ===== src/Engine/Sync/Deadline.antt =====
-- The timeout ends the loop, whatever the stop strategy says.
use relentless.Prelude.{
  ℕ, zero, suc, ◌+◌, ◌*◌, ◌≤◌, ◌<◌, min, ◌≡◌, refl, ◌∙◌, Option, none, some, arith,
}
use relentless.State.{RetryState}
use relentless.Engine.Elapsed.{Elapsed, start}
use relentless.Engine.Step.{Step, done, continue}
use relentless.Engine.Step.Contract.{Kept, InTime, CutDown, seen}
use relentless.Engine.Sync.{
  Retry, Cursor, next_cursor, first_cursor, progress_of, RunOutcome, iteration, run_loop, run,
  sleep,
}
use relentless.Engine.Sync.Invariant.{go_on, run_loop_step}
use relentless.Engine.Sync.Timed.{Coherent, Reached, sleep_takes, pass_timed}

-- A delay of at least `d` that is cut down to what is left of `t` either is at least `d` or ends at `t`.
clamp_progress :
    (timeout : Option ℕ) (t elapsed next d delay : ℕ)
    → timeout ≡ some t
    → d ≤ next
    → CutDown timeout elapsed next delay
    → InTime timeout elapsed delay
    → min (elapsed + d) t ≤ elapsed + delay
clamp_progress none t elapsed next d delay e h k i = cc
clamp_progress (some u) t elapsed next d delay e h k i = ground arith

below :
    (timeout : Option ℕ) (t elapsed delay : ℕ)
    → timeout ≡ some t
    → InTime timeout elapsed delay
    → elapsed < t
below none t elapsed delay e i = cc
below (some u) t elapsed delay e i = ground arith

module _ {World O R A : Type 0} {r : Retry World O R A} {time : World → ℕ}
    (coherent : Coherent r time) (t d : ℕ) (deadline : r.policies.timeout ≡ some t)
    (waits : (s : RetryState) (w : World) → d ≤ (r.policies.wait.next_wait s w).0) where
  -- With `fuel` waits of `d` the deadline is reached.
  abbrev Near : ℕ → Cursor → World → Type 0
  Near fuel c w = Reached coherent c.elapsed w × (t + c.elapsed.origin ≤ time w + fuel * d)

  abbrev Returns : ℕ → Cursor → World → Type 0
  Returns fuel c w = (x : RunOutcome O R A × World) × (run_loop r fuel c w ≡ some x)

  abbrev GoesNear : ℕ → Cursor → (Step O R A × Elapsed) × World → Type 0
  GoesNear fuel c ((done res st, e), w) = Unit {0}
  GoesNear zero c ((continue delay total, e), w) = ⊥
  GoesNear (suc fuel) c ((continue delay total, e), w) =
      Near fuel (next_cursor c e delay total) (sleep r delay w)

  -- What is left once the delay is over.
  near_next :
      (c : Cursor) (e : Elapsed) (v : World) (fuel post delay total : ℕ)
      → Reached coherent e v
      → t + e.origin ≤ (e.origin + post) + fuel * d
      → e.origin + min (post + d) t ≤ time (sleep r delay v)
      → post < t
      → e.origin + e.highest ≤ time (sleep r delay v)
      → GoesNear fuel c ((continue delay total, e), v)
  unfolding next_cursor
  near_next c e v zero post delay total reach near past inside kept = absurd (omega arith)
  near_next c e v (suc fuel) post delay total reach near past inside kept = (kept, omega arith)

  pass-Near :
      (fuel : ℕ) (c : Cursor) (w : World) → Near fuel c w → GoesNear fuel c (iteration r c w)
  unfolding progress_of
  pass-Near fuel c w g = pass_timed coherent (GoesNear fuel c) c w g.0 (per_step fuel g.1)
    where
      per_step :
          (fuel : ℕ)
          → t + c.elapsed.origin ≤ time w + fuel * d
          → (post : ℕ) (s : Step O R A) (e : Elapsed) (v : World)
          → Kept r.policies (progress_of c post) s v
          → e.origin ≡ c.elapsed.origin
          → time w ≤ e.origin + post
          → e.origin + post ≤ time v
          → Reached coherent e v
          → GoesNear fuel c ((s, e), v)
      per_step fuel near post (done res st) e v k same since now reach = tt
      per_step fuel near post (continue delay total) e v k same since now reach =
          let (w1, said) = k.3 in
          let moved : min (post + d) t ≤ post + delay =
            clamp_progress r.policies.timeout t post _ d delay deadline
              (waits (seen r.policies (progress_of c post)) w1) said k.1 in
          let inside : post < t = below r.policies.timeout t post delay deadline k.1 in
          near_next c e v fuel post delay total reach (omega (arith, near, same, since))
            (omega (arith, now, moved, sleep_takes coherent delay v)) inside
            (omega (arith, reach, sleep_takes coherent delay v))

  after :
      (fuel : ℕ) (c : Cursor) (x : (Step O R A × Elapsed) × World)
      → GoesNear (suc fuel) c x
      → ((c : Cursor) (w : World) → Near fuel c w → Returns (suc fuel) c w)
      → (y : RunOutcome O R A × World) × (go_on r (suc fuel) c x ≡ some y)
  after fuel c ((done res st, e), w) g rec = (((res, st), w), refl)
  after fuel c ((continue delay total, e), w) g rec = rec _ _ g

  last_pass :
      (c : Cursor) (x : (Step O R A × Elapsed) × World)
      → GoesNear zero c x
      → (y : RunOutcome O R A × World) × (go_on r zero c x ≡ some y)
  last_pass c ((done res st, e), w) g = (((res, st), w), refl)
  last_pass c ((continue delay total, e), w) g = absurd g

  Near-Returns : (fuel : ℕ) (c : Cursor) (w : World) → Near fuel c w → Returns (suc fuel) c w
  Near-Returns zero c w g =
      let (y, e) = last_pass c _ (pass-Near zero c w g) in (y, run_loop_step r zero c w ∙ e)
  Near-Returns (suc fuel) c w g =
      let (y, e) = after fuel c _ (pass-Near (suc fuel) c w g) (Near-Returns fuel) in
      (y, run_loop_step r (suc fuel) c w ∙ e)

  -- A timeout ends a retry that always waits: over a clock whose readings lie between the times
  -- before and after them and whose waits take at least as long as they are told to, with time that
  -- goes back nowhere, under a timeout `t` and a wait strategy that never says less than `d`, a run
  -- returns after at most n + 1 attempts, if n delays of `d` add up to `t`; whatever the stop
  -- strategy, the classifier and the operation do.
  pub run_returns_by_deadline :
      (n : ℕ) (w : World) → t ≤ n * d → (x : RunOutcome O R A × World) × (run r (suc n) w ≡ some x)
  unfolding run start first_cursor
  run_returns_by_deadline n w enough =
      let h = coherent.reads w in Near-Returns n _ _ (omega (arith, h), omega (arith, h, enough))
