-- ===== src/Engine/Reference/Pass.antt =====
-- One pass of the blocking engine on a virtual clock.
use mathlib.Core.List.{append-nil}
use relentless.Prelude.{
  ℕ, suc, ◌+◌, ◌≤◌, min, ◌≡◌, refl, sym, ap, ◌∙◌, subst, ◌||◌, ◌==◌, Option, none, some, List, [],
  ◌∷◌, ◌++◌, if◌then◌else◌, inl, inr, Bool-cases, arith,
}
use relentless.Effect.{Cell, pure}
use relentless.Duration.{duration_max, saturating_add, IsDuration}
use relentless.State.{RetryState, for_attempt, with_elapsed, with_previous_delay}
use relentless.Decision.{ok, err, Verdict}
use relentless.Clock.{VirtualTime, advance, record_wait, virtual_sync}
use relentless.Clock.Virtual.{record_wait_state}
use relentless.Engine.Elapsed.{Elapsed, read, observe}
use relentless.Engine.Termination.{StopReason, Exit}
use relentless.Engine.Error.{RetryError}
use relentless.Engine.Hooks.{ExecutionHooks, AttemptState}
use relentless.Engine.Step.{
  Step, done, continue, Progress, Policies, stats_for, retry_state, timeout_exceeded, clamp_delay,
  exhaust, back_off, settle, step,
}
use relentless.Engine.Sync.{Retry, RetryOp, Cursor, before_state, progress_of, iteration, sleep}
use relentless.Engine.Reference.{Rules, fitting, is_over, performed}

-- An operation that plays a script: in a world that stands before attempt `n` it answers
-- `answer n`, takes `cost n` of virtual time and stands before the next attempt. `At` says where a
-- world stands, which hooks and the clock do not change; and the hooks leave the clock alone.
pub record Plays {World O R A : Type 0} (clock : Cell World VirtualTime) (op : RetryOp World O)
    (hooks : ExecutionHooks World O R A) (answer : ℕ → O) (cost : ℕ → ℕ) (At : ℕ → World → Type 0)
    : Type 0 where
  pub at_op :
      (s : RetryState) (w : World)
      → At s.attempt w
      → ((op s w).0 ≡ answer s.attempt)
        × (IsDuration ((clock.get w).now + cost s.attempt)
            → clock.get (op s w).1
              ≡ record { now = (clock.get w).now + cost s.attempt; waits = (clock.get w).waits })
        × At (suc s.attempt) (op s w).1
  pub at_set : (n : ℕ) (t : VirtualTime) (w : World) → At n w → At n (clock.set t w)
  pub at_before :
      (s : RetryState) (w : World)
      → (clock.get (hooks.before_attempt s w).1 ≡ clock.get w)
        × ((n : ℕ) → At n w → At n (hooks.before_attempt s w).1)
  pub at_after :
      (s : AttemptState O) (w : World)
      → (clock.get (hooks.after_attempt s w).1 ≡ clock.get w)
        × ((n : ℕ) → At n w → At n (hooks.after_attempt s w).1)
  pub at_exit :
      (e : Exit R A O) (w : World)
      → (clock.get (hooks.on_exit e w).1 ≡ clock.get w)
        × ((n : ℕ) → At n w → At n (hooks.on_exit e w).1)

observe_at :
    (e : Elapsed) (now reading : ℕ)
    → reading ≡ e.origin + now
    → e.highest ≤ now
    → observe e reading ≡ (now, record { origin = e.origin; highest = now })
unfolding observe
observe_at e now reading h below = ground arith

timeout_exceeded-is_over :
    (timeout : Option ℕ) (now : ℕ) → timeout_exceeded timeout now ≡ is_over timeout now
timeout_exceeded-is_over none now = refl
timeout_exceeded-is_over (some t) now = refl

clamp_delay-fitting :
    (timeout : Option ℕ) (now delay : ℕ) → clamp_delay timeout now delay ≡ fitting timeout now delay
clamp_delay-fitting none now delay = refl
clamp_delay-fitting (some t) now delay = ground arith

module _ {World O R A : Type 0} (clock : Cell World VirtualTime) (rules : Rules O R A)
    (op : RetryOp World O) (hooks : ExecutionHooks World O R A) where
  abbrev pub policies : Policies World O R A
  policies = record {
    classifier = record { decide = λ o. pure (rules.classify o) };
    stop = record { should_stop = λ s. pure (rules.stops s) };
    wait = record { next_wait = λ s. pure (rules.delay s) };
    timeout = rules.timeout;
    hooks = hooks;
  }

  -- The retry of these rules on the virtual clock.
  abbrev pub on_virtual_clock : Retry World O R A
  on_virtual_clock = record { op = op; clock = virtual_sync clock; policies = policies }

  -- What a step decides.
  abbrev pub decided : Progress → Verdict R A O → Step O R A
  decided p (Verdict.return v) = done (ok v) (stats_for p StopReason.returned)
  decided p (Verdict.abort a) = done (err (RetryError.aborted a)) (stats_for p StopReason.aborted)
  decided p (Verdict.retry o) =
      if rules.stops (retry_state p) || is_over rules.timeout p.elapsed
      then done (err (RetryError.exhausted o)) (stats_for p StopReason.exhausted)
      else (let d = fitting rules.timeout p.elapsed (rules.delay (retry_state p)) in
          continue d (saturating_add p.total_wait d))

  -- A wait, on a clock at a known time.
  pub slept :
      (d since now : ℕ) (ds : List ℕ) (v : World)
      → clock.get v ≡ record { now = since + now; waits = ds }
      → IsDuration (since + (now + d))
      → clock.get (sleep on_virtual_clock d v)
        ≡ record { now = since + (now + d); waits = ds ++ performed d [] }
  unfolding sleep saturating_add
  slept d since now ds v at fits = elim (Bool-cases (d == 0)) [
    | inl zero_delay ↦
        rw (zero_delay, append-nil)
          (at ∙ ap (λ (n : ℕ). record { now = n; waits = ds }) (ground arith))
    | inr longer ↦ rw longer (
        record_wait_state clock d v
        ∙ (ap
              (λ (t : VirtualTime). record {
                now = min (t.now + d) duration_max;
                waits = t.waits ++ d ∷ [];
              })
              at
            ∙ ap (λ (n : ℕ). record { now = n; waits = ds ++ d ∷ [] }) (omega (arith, fits))))
  ]

  module _ {answer : ℕ → O} {cost : ℕ → ℕ} {At : ℕ → World → Type 0}
      (plays : Plays clock op hooks answer cost At) where
    -- A wait does not change where the world stands.
    pub slept-stands : (n d : ℕ) (w : World) → At n w → At n (sleep on_virtual_clock d w)
    unfolding sleep virtual_sync record_wait advance
    slept-stands n d w h = elim (Bool-cases (d == 0)) [
      | inl zero_delay ↦ rw zero_delay h
      | inr longer ↦ rw longer (plays.at_set n _ _ (plays.at_set n _ w h))
    ]

    settle_lem :
        (p : Progress) (v : Verdict R A O) (w : World)
        → ((settle policies p v w).0 ≡ decided p v)
          × (clock.get (settle policies p v w).1 ≡ clock.get w)
          × ((n : ℕ) → At n w → At n (settle policies p v w).1)
    unfolding settle exhaust back_off
    settle_lem p (Verdict.return v) w =
        (let (quiet, stands) = plays.at_exit _ w in (refl, quiet, stands))
    settle_lem p (Verdict.abort a) w =
        (let (quiet, stands) = plays.at_exit _ w in (refl, quiet, stands))
    settle_lem p (Verdict.retry o) w =
        let over_lem = timeout_exceeded-is_over rules.timeout p.elapsed in
        let fit_lem = clamp_delay-fitting rules.timeout p.elapsed (rules.delay (retry_state p)) in
        elim (Bool-cases (rules.stops (retry_state p) || is_over rules.timeout p.elapsed)) [
          | inl over ↦
              rw (over_lem, over) (let (quiet, stands) = plays.at_exit _ w in (refl, quiet, stands))
          | inr more ↦ rw (over_lem, more, fit_lem) (refl, refl, λ n h. h)
        ]

    step_lem :
        (p : Progress) (o : O) (w : World)
        → ((step policies p o w).0 ≡ decided p (rules.classify o))
          × (clock.get (step policies p o w).1 ≡ clock.get w)
          × ((n : ℕ) → At n w → At n (step policies p o w).1)
    unfolding step
    step_lem p o w =
        let view : AttemptState O = record {
          attempt = p.attempt;
          elapsed = p.elapsed;
          outcome = o;
        } in
        let (seen, stands) = plays.at_after view w in
        let (st, same, keeps) = settle_lem p (rules.classify o) _ in
        (st, same ∙ seen, λ n h. keeps n (stands n h))

    -- A pass seen through what it decides, from a time `now` after the start.
    pub pass_virtual :
        (Q : (Step O R A × Elapsed) × World → Type 0) (c : Cursor) (w : World) (now : ℕ)
        → At c.attempt w
        → (clock.get w).now ≡ c.elapsed.origin + now
        → c.elapsed.highest ≤ now
        → IsDuration (c.elapsed.origin + (now + cost c.attempt))
        → (let after = now + cost c.attempt in
            let p = progress_of c after in
            (v : World)
            → clock.get v ≡ record { now = c.elapsed.origin + after; waits = (clock.get w).waits }
            → At (suc c.attempt) v
            → Q (
              (
                decided p (rules.classify (answer c.attempt)),
                record { origin = c.elapsed.origin; highest = after },
              ),
              v,
            ))
        → Q (iteration on_virtual_clock c w)
    unfolding iteration virtual_sync before_state read for_attempt with_elapsed with_previous_delay
    pass_virtual Q c w now here at below fits cont =
        let after = now + cost c.attempt in
        let (seen, e1) = observe c.elapsed (clock.get w).now in
        let s = before_state c.attempt c.previous_delay seen in
        let w1 = (hooks.before_attempt s w).1 in
        let (o, w2) = op s w1 in
        let (quiet, stands) = plays.at_before s w in
        let (said, took, next) = plays.at_op s w1 (stands c.attempt here) in
        let started : (clock.get w1).now ≡ c.elapsed.origin + now =
          ap (λ (u : VirtualTime). u.now) quiet ∙ at in
        let reached : (clock.get w1).now + cost c.attempt ≡ c.elapsed.origin + after =
          omega (arith, started) in
        let first = observe_at c.elapsed now (clock.get w).now at below in
        let there =
          took (omega (arith, started, fits))
          ∙ (λ i. record { now = reached i; waits = (quiet i).waits }) in
        let start_of : e1 ≡ record { origin = c.elapsed.origin; highest = now } =
          ap (λ (y : ℕ × Elapsed). y.1) first in
        let second : observe e1 (clock.get w2).now
            ≡ (after, record { origin = c.elapsed.origin; highest = after }) =
          ap (λ (e : Elapsed). observe e (clock.get w2).now) start_of
          ∙ observe_at _ after _ (ap (λ (u : VirtualTime). u.now) there) (omega arith) in
        let G : ℕ × Elapsed → Type 0 = λ y. Q (
          ((step policies (progress_of c y.0) o w2).0, y.1),
          (step policies (progress_of c y.0) o w2).1,
        ) in
        let (st, same, keeps) = step_lem (progress_of c after) o w2 in
        let decides = st ∙ ap (λ (o : O). decided (progress_of c after) (rules.classify o)) said in
        subst G (sym second) (
          subst
            (λ t. Q (
              (t, record { origin = c.elapsed.origin; highest = after }),
              (step policies (progress_of c after) o w2).1,
            ))
            (sym decides) (cont _ (same ∙ there) (keeps _ next)))
