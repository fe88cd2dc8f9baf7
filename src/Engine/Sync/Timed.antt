-- ===== src/Engine/Sync/Timed.antt =====
-- A pass of the loop against the time that passes.
use relentless.Prelude.{ℕ, ◌+◌, ◌≤◌, ◌≡◌, ◌∙◌, ◌||◌, inl, inr, Bool-cases, arith}
use relentless.State.{RetryState}
use relentless.Decision.{Verdict}
use relentless.Engine.Elapsed.{Elapsed, read, observe}
use relentless.Engine.Termination.{Exit}
use relentless.Engine.Hooks.{AttemptState}
use relentless.Engine.Step.{Step, Progress, Policies, retry_state, timeout_exceeded, settle, step}
use relentless.Engine.Step.Contract.{Kept, step-Kept}
use relentless.Engine.Sync.{Retry, Cursor, before_state, progress_of, iteration, sleep}

-- Time never goes back while the policies run.
pub record Forward {World O R A : Type 0} (p : Policies World O R A) (time : World → ℕ)
    : Type 0 where
  pub at_after : (s : AttemptState O) (w : World) → time w ≤ time (p.hooks.after_attempt s w).1
  pub at_exit : (e : Exit R A O) (w : World) → time w ≤ time (p.hooks.on_exit e w).1
  pub at_decide : (o : O) (w : World) → time w ≤ time (p.classifier.decide o w).1
  pub at_stop : (s : RetryState) (w : World) → time w ≤ time (p.stop.should_stop s w).1
  pub at_next_wait : (s : RetryState) (w : World) → time w ≤ time (p.wait.next_wait s w).1

module _ {World O R A : Type 0} {policies : Policies World O R A} {time : World → ℕ}
    (forward : Forward policies time) (p : Progress) where
  settle-forward : (v : Verdict R A O) (w : World) → time w ≤ time (settle policies p v w).1
  unfolding settle
  settle-forward (Verdict.return value) w = forward.at_exit _ w
  settle-forward (Verdict.abort last) w = forward.at_exit _ w
  settle-forward (Verdict.retry last) w =
      let s = retry_state p in
      let (stopped, w') = policies.stop.should_stop s w in
      let e = forward.at_stop s w in
      elim (Bool-cases (stopped || timeout_exceeded policies.timeout p.elapsed)) [
        | inl over ↦ rw over (omega (arith, e, forward.at_exit _ w'))
        | inr more ↦ rw more (omega (arith, e, forward.at_next_wait s w'))
      ]

  pub step-forward : (o : O) (w : World) → time w ≤ time (step policies p o w).1
  unfolding step
  step-forward o w =
      let view : AttemptState O = record {
        attempt = p.attempt;
        elapsed = p.elapsed;
        outcome = o;
      } in
      let after = (policies.hooks.after_attempt view w).1 in
      let (v, w') = policies.classifier.decide o after in
      omega (arith, forward.at_after view w, forward.at_decide o after, settle-forward v w')

-- The clock's contract: a reading lies between the times before and after it, and a wait takes at
-- least its duration. Time never goes back in the operation and the hooks either.
pub record Coherent {World O R A : Type 0} (r : Retry World O R A) (time : World → ℕ) : Type 0 where
  pub steps : Forward r.policies time
  pub at_before :
      (s : RetryState) (w : World) → time w ≤ time (r.policies.hooks.before_attempt s w).1
  pub at_op : (s : RetryState) (w : World) → time w ≤ time (r.op s w).1
  pub reads :
      (w : World) → (time w ≤ (r.clock.now w).0) × ((r.clock.now w).0 ≤ time (r.clock.now w).1)
  pub waits : (d : ℕ) (w : World) → time w + d ≤ time (r.clock.wait d w).1

module _ {World O R A : Type 0} {r : Retry World O R A} {time : World → ℕ}
    (coherent : Coherent r time) where
  pub sleep_takes : (d : ℕ) (w : World) → time w + d ≤ time (sleep r d w)
  unfolding sleep
  sleep_takes d w = ground (arith, coherent.waits d w)

  -- An elapsed value that the clock has reached.
  abbrev pub Reached : Elapsed → World → Type 0
  Reached e w = e.origin + e.highest ≤ time w

  read_reaches :
      (e : Elapsed) (w : World)
      → Reached e w
      → let ((t, e'), w') = read r.clock.now e w in
        Reached e' w'
        × (e'.origin ≡ e.origin)
        × (t ≡ e'.highest)
        × (time w ≤ e.origin + t)
        × (time w ≤ time w')
  unfolding read observe
  read_reaches e w h = let k = coherent.reads w in ground arith

  -- A pass seen through its step: the step's contract holds of it, the time read after the operation
  -- lies between the start of the pass and its end, and the origin stays.
  pub pass_timed :
      (Q : (Step O R A × Elapsed) × World → Type 0) (c : Cursor) (w : World)
      → Reached c.elapsed w
      → ((post : ℕ) (s : Step O R A) (e : Elapsed) (v : World)
          → Kept r.policies (progress_of c post) s v
          → e.origin ≡ c.elapsed.origin
          → time w ≤ e.origin + post
          → e.origin + post ≤ time v
          → Reached e v
          → Q ((s, e), v))
      → Q (iteration r c w)
  unfolding iteration
  pass_timed Q c w g cont =
      let ((before, e), w0) = read r.clock.now c.elapsed w in
      let s = before_state c.attempt c.previous_delay before in
      let w1 = (r.policies.hooks.before_attempt s w0).1 in
      let (o, w2) = r.op s w1 in
      let f = read_reaches c.elapsed w g in
      let h = coherent.at_before s w0 in
      let k = coherent.at_op s w1 in
      let ((post, e'), w3) = read r.clock.now e w2 in
      let l = read_reaches e w2 (omega (arith, f.0, h, k)) in
      let moved = step-forward coherent.steps (progress_of c post) o w3 in
      cont post _ e' _ (step-Kept r.policies (progress_of c post) o w3) (l.1 ∙ f.1)
        (omega (arith, f.4, h, k, l.3)) (omega (arith, l.0, l.1, l.2, moved))
        (omega (arith, l.0, moved))
