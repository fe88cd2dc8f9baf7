-- ===== src/Engine/Sync/Order.antt =====
-- The order in which the loop calls its parts.
use relentless.Prelude.{
  ℕ, ◌≡◌, sym, ap, ◌∙◌, subst, ◌||◌, ◌==◌, some, inl, inr, Bool-cases, List, ◌∷◌,
}
use relentless.State.{RetryState}
use relentless.Decision.{Result, ok, err, Verdict}
use relentless.Engine.Elapsed.{Elapsed, start, read}
use relentless.Engine.Termination.{StopReason, Exit, RetryStats}
use relentless.Engine.Error.{RetryError}
use relentless.Engine.Hooks.{AttemptState}
use relentless.Engine.Step.{
  Step, done, continue, Progress, Policies, retry_state, timeout_exceeded, settle, step,
}
use relentless.Engine.Step.Contract.{reason_of}
use relentless.Engine.Sync.{Retry, Cursor, before_state, progress_of, iteration, run, sleep}
use relentless.Engine.Sync.Invariant.{Passes, ends_at, run_loop-Ends}

pub data Event : Type 0 where
  before operated after decided asked_stop asked_wait slept exited : Event

-- The events of whole attempts that went on to another one, the last event first, over the events
-- there were at the start. A zero delay is not slept.
pub data Between (base : List Event) : List Event → Type 0 where
  at_start : Between base base
  went_on :
      {l : List Event}
      → Between base l
      → Between base (asked_wait ∷ asked_stop ∷ decided ∷ after ∷ operated ∷ before ∷ l)
  after_sleep :
      {l : List Event}
      → Between base l
      → Between base (slept ∷ asked_wait ∷ asked_stop ∷ decided ∷ after ∷ operated ∷ before ∷ l)

-- The same with the last attempt: the stop strategy is asked where the retry is exhausted, and not
-- where the classifier ended it.
abbrev pub Whole : List Event → StopReason → List Event → Type 0
Whole base StopReason.exhausted l' =
    (l : List Event) × Between base l
    × (l' ≡ exited ∷ asked_stop ∷ decided ∷ after ∷ operated ∷ before ∷ l)
Whole base reason l' =
    (l : List Event) × Between base l × (l' ≡ exited ∷ decided ∷ after ∷ operated ∷ before ∷ l)

-- Each part of a step logs its call, and nothing else.
pub record StepLog {World O R A : Type 0} (p : Policies World O R A) (log : World → List Event)
    : Type 0 where
  pub at_after :
      (s : AttemptState O) (w : World) → log (p.hooks.after_attempt s w).1 ≡ after ∷ log w
  pub at_exit : (e : Exit R A O) (w : World) → log (p.hooks.on_exit e w).1 ≡ exited ∷ log w
  pub at_decide : (o : O) (w : World) → log (p.classifier.decide o w).1 ≡ decided ∷ log w
  pub at_stop : (s : RetryState) (w : World) → log (p.stop.should_stop s w).1 ≡ asked_stop ∷ log w
  pub at_next_wait :
      (s : RetryState) (w : World) → log (p.wait.next_wait s w).1 ≡ asked_wait ∷ log w

module _ {World O R A : Type 0} {policies : Policies World O R A} {log : World → List Event}
    (logged : StepLog policies log) (p : Progress) where
  abbrev Settled : Step O R A → World → List Event → Type 0
  Settled (done (err (RetryError.exhausted o)) st) w l = log w ≡ exited ∷ asked_stop ∷ l
  Settled (done (err (RetryError.aborted a)) st) w l = log w ≡ exited ∷ l
  Settled (done (ok v) st) w l = log w ≡ exited ∷ l
  Settled (continue d total) w l = log w ≡ asked_wait ∷ asked_stop ∷ l

  settle-Settled :
      (v : Verdict R A O) (w : World)
      → Settled (settle policies p v w).0 (settle policies p v w).1 (log w)
  unfolding settle
  settle-Settled (Verdict.return value) w = logged.at_exit _ w
  settle-Settled (Verdict.abort last) w = logged.at_exit _ w
  settle-Settled (Verdict.retry last) w =
      let s = retry_state p in
      let (stopped, w') = policies.stop.should_stop s w in
      let asked = logged.at_stop s w in
      elim (Bool-cases (stopped || timeout_exceeded policies.timeout p.elapsed)) [
        | inl over ↦ rw over (logged.at_exit _ w' ∙ ap (λ (l : List Event). exited ∷ l) asked)
        | inr more ↦
            rw more (logged.at_next_wait s w' ∙ ap (λ (l : List Event). asked_wait ∷ l) asked)
      ]

  step-Settled :
      (o : O) (w : World)
      → Settled (step policies p o w).0 (step policies p o w).1 (decided ∷ after ∷ log w)
  unfolding step
  step-Settled o w =
      let view : AttemptState O = record {
        attempt = p.attempt;
        elapsed = p.elapsed;
        outcome = o;
      } in
      let w0 = (policies.hooks.after_attempt view w).1 in
      let (v, w') = policies.classifier.decide o w0 in
      subst (Settled (settle policies p v w').0 (settle policies p v w').1)
        (logged.at_decide o w0 ∙ ap (λ (l : List Event). decided ∷ l) (logged.at_after view w))
        (settle-Settled v w')

-- The same of each part that the loop calls; the clock's readings are not logged.
pub record RunLog {World O R A : Type 0} (r : Retry World O R A) (log : World → List Event)
    : Type 0 where
  pub steps : StepLog r.policies log
  pub at_before :
      (s : RetryState) (w : World) → log (r.policies.hooks.before_attempt s w).1 ≡ before ∷ log w
  pub at_op : (s : RetryState) (w : World) → log (r.op s w).1 ≡ operated ∷ log w
  pub at_now : (w : World) → log (r.clock.now w).1 ≡ log w
  pub at_wait : (d : ℕ) (w : World) → log (r.clock.wait d w).1 ≡ slept ∷ log w

module _ {World O R A : Type 0} {r : Retry World O R A} {log : World → List Event}
    (logged : RunLog r log) where
  read-logged : (e : Elapsed) (w : World) → log (read r.clock.now e w).1 ≡ log w
  unfolding read
  read-logged e w = logged.at_now w

  -- After the sleep, whole attempts again.
  sleep-Between :
      (base l : List Event) (d : ℕ) (w : World)
      → Between base l
      → log w ≡ asked_wait ∷ asked_stop ∷ decided ∷ after ∷ operated ∷ before ∷ l
      → Between base (log (sleep r d w))
  unfolding sleep
  sleep-Between base l d w h e = elim (Bool-cases (d == 0)) [
    | inl zero_delay ↦ rw zero_delay (subst (Between base) (sym e) (went_on h))
    | inr nonzero ↦ rw nonzero (
        subst (Between base) (sym (logged.at_wait d w ∙ ap (λ (l : List Event). slept ∷ l) e))
          (after_sleep h))
  ]

  pass-logged :
      (base : List Event) (c : Cursor) (w : World)
      → Between base (log w)
      → Passes r
          (λ _ w. Between base (log w))
          (λ res _ w'. Whole base (reason_of res) (log w'))
          c
          (iteration r c w)
  unfolding iteration
  pass-logged base c w h =
      let ((seen, e), w0) = read r.clock.now c.elapsed w in
      let s = before_state c.attempt c.previous_delay seen in
      let w1 = (r.policies.hooks.before_attempt s w0).1 in
      let (o, w2) = r.op s w1 in
      let ((post, e'), w3) = read r.clock.now e w2 in
      let logs : log w3 ≡ operated ∷ before ∷ log w =
        read-logged e w2
        ∙ (logged.at_op s w1
            ∙ ap (λ (l : List Event). operated ∷ l)
                (logged.at_before s w0
                  ∙ ap (λ (l : List Event). before ∷ l) (read-logged c.elapsed w))) in
      let (st, w4) = step r.policies (progress_of c post) o w3 in
      per_step (progress_of c post) st e' w4 (
        subst (λ l. Settled logged.steps (progress_of c post) st w4 (decided ∷ after ∷ l)) logs
          (step-Settled logged.steps (progress_of c post) o w3))
    where
      per_step :
          (p : Progress) (s : Step O R A) (e : Elapsed) (v : World)
          → Settled logged.steps p s v (decided ∷ after ∷ operated ∷ before ∷ log w)
          → Passes r
              (λ _ w. Between base (log w))
              (λ res _ w'. Whole base (reason_of res) (log w'))
              c
              ((s, e), v)
      per_step p (done (ok v) st) e w' k = (log w, h, k)
      per_step p (done (err (RetryError.aborted a)) st) e w' k = (log w, h, k)
      per_step p (done (err (RetryError.exhausted o)) st) e w' k = (log w, h, k)
      per_step p (continue d total) e w' k = sleep-Between base (log w) d w' h k

  -- The order of the calls of a run that returns: each attempt calls the before-hook, the operation,
  -- the after-hook and the classifier; an attempt that goes on then asks the stop strategy, asks the
  -- wait strategy and sleeps, unless the delay is zero; the last attempt calls the exit hook, once,
  -- after the stop strategy if and only if the retry is exhausted. Nothing else is called, for any
  -- log of the world that each of these calls, and no other, adds to.
  pub run-Whole :
      (fuel : ℕ) (w w' : World) (res : Result R (RetryError A O)) (st : RetryStats)
      → run r fuel w ≡ some ((res, st), w')
      → Whole (log w) (reason_of res) (log w')
  unfolding run start
  run-Whole fuel w w' res st e =
      ends_at r (λ res _ w'. Whole (log w) (reason_of res) (log w')) e
        (run_loop-Ends r (λ _ v. Between (log w) (log v))
          (λ res _ w'. Whole (log w) (reason_of res) (log w')) (pass-logged (log w)) fuel _ _
          (subst (Between (log w)) (sym (logged.at_now w)) at_start))
