-- ===== src/Engine/Async/Tallied.antt =====
-- What a turn of a future adds to a count of the calls it makes.
use relentless.Prelude.{
  ℕ, suc, ◌+◌, ◌*◌, ◌≤◌, ◌<◌, ◌≡◌, min, refl, ap, ◌∙◌, some, none, Option, inl, inr, Bool-cases,
  ◌==◌, arith,
}
use relentless.Effect.{Eff, pure}
use relentless.Duration.{u32_max}
use relentless.State.{RetryState}
use relentless.Clock.{Poll, ready, pending}
use relentless.Engine.Elapsed.{Elapsed, start, read}
use relentless.Engine.Termination.{RetryStats}
use relentless.Engine.Step.{Progress, Step}
use relentless.Engine.Step.Contract.{Kept, step-Kept}
use relentless.Engine.Sync.{RunOutcome, before_state}
use relentless.Engine.Sync.Counts.{StepTally, Counted, step-Counted}
use relentless.Engine.Async.{
  AsyncRetry, Phase, ready_to_start, polling, sleeping, yielding, AsyncRun, Turn, again, parked,
  resolved, panicked, next_attempt, begin_attempt, back_off, after_step, complete_attempt, turn_in,
  turn,
}
use relentless.Engine.Async.Lifecycle.{Alive, Suspended}

-- A count of the world that goes up by `b`, `a` and `x` at the hooks, and at nothing else that a poll calls.
pub record PollTally {World O R A Fut Sleep : Type 0} (r : AsyncRetry World O R A Fut Sleep)
    (wake : Eff World (Unit {0})) (count : World → ℕ) (b a x : ℕ) : Type 0 where
  pub steps : StepTally r.policies count a x
  pub at_before :
      (s : RetryState) (w : World) → count (r.policies.hooks.before_attempt s w).1 ≡ count w + b
  pub at_call : (s : RetryState) (w : World) → count (r.op.call_op s w).1 ≡ count w
  pub at_poll : (f : Fut) (w : World) → count (r.op.poll_op f w).1 ≡ count w
  pub at_now : (w : World) → count (r.clock.now w).1 ≡ count w
  pub at_wait : (d : ℕ) (w : World) → count (r.clock.wait_async d w).1 ≡ count w
  pub at_sleep : (f : Sleep) (w : World) → count (r.clock.poll_wait f w).1 ≡ count w
  pub at_wake : (w : World) → count (wake w).1 ≡ count w

module _ {World O R A Fut Sleep : Type 0} {r : AsyncRetry World O R A Fut Sleep}
    {wake : Eff World (Unit {0})} {count : World → ℕ} {b a x : ℕ}
    (tally : PollTally r wake count b a x) where
  -- What the attempt in progress has still to add.
  abbrev pub due : Phase Fut Sleep → ℕ
  due ready_to_start = b + a
  due (polling f) = a
  due (sleeping f) = 0
  due yielding = 0
  due Phase.done = 0

  -- Where a run has got to, for a count that started at `n`.
  abbrev pub Under : ℕ → AsyncRun Fut Sleep → World → Type 0
  Under n run w = run.attempt < u32_max → count w + due run.phase ≡ n + run.attempt * (b + a)

  abbrev pub Over : ℕ → RunOutcome O R A → World → Type 0
  Over n outcome w = outcome.1.attempts < u32_max → count w ≡ n + outcome.1.attempts * (b + a) + x

  abbrev pub Going : ℕ → AsyncRun Fut Sleep → World → Type 0
  Going n run w = (1 ≤ run.attempt) × Alive run.phase × Under n run w

  abbrev pub Turned : ℕ → Turn O R A Fut Sleep × World → Type 0
  Turned n (again run, w) = Going n run w
  Turned n (parked run, w) = Suspended run.phase × Going n run w
  Turned n (resolved outcome run, w) = Over n outcome w
  Turned n (panicked, w) = ⊥

  module _ (n : ℕ) where
    begin-Turned :
        (e : Elapsed) (run : AsyncRun Fut Sleep) (w : World)
        → 1 ≤ run.attempt
        → (run.attempt < u32_max → count w + (b + a) ≡ n + run.attempt * (b + a))
        → Turned n (begin_attempt r wake e run w)
    unfolding begin_attempt read
    begin-Turned e run w pos g =
        let (t, e') = (read r.clock.now e w).0 in
        let w1 = (read r.clock.now e w).1 in
        let s = before_state run.attempt run.previous_delay t in
        let w2 = (r.policies.hooks.before_attempt s w1).1 in
        (pos, tt, λ h. omega (arith, g h, tally.at_now w, tally.at_before s w1, tally.at_call s w2))

    back_off-Turned :
        (run : AsyncRun Fut Sleep) (d : ℕ) (w : World)
        → 1 ≤ run.attempt
        → (run.attempt < u32_max → count w ≡ n + run.attempt * (b + a))
        → Turned n (back_off r wake run d w)
    unfolding back_off
    back_off-Turned run d w pos g = elim (Bool-cases (d == 0)) [
      | inl zero_delay ↦ rw zero_delay (tt, (pos, tt, λ h. omega (arith, g h, tally.at_wake w)))
      | inr nonzero ↦ rw nonzero (pos, tt, λ h. omega (arith, g h, tally.at_wait d w))
    ]

    complete-Turned :
        (e : Elapsed) (run : AsyncRun Fut Sleep) (o : O) (w : World)
        → 1 ≤ run.attempt
        → (run.attempt < u32_max → count w + a ≡ n + run.attempt * (b + a))
        → Turned n (complete_attempt r wake e run o w)
    unfolding complete_attempt after_step read
    complete-Turned e run o w pos g =
        let (post, e') = (read r.clock.now e w).0 in
        let w1 = (read r.clock.now e w).1 in
        let p : Progress = record {
          attempt = run.attempt;
          elapsed = post;
          previous_delay = run.previous_delay;
          total_wait = run.total_wait;
        } in
        go e' p refl _ _ (step-Kept r.policies p o w1) (step-Counted tally.steps p o w1)
          (tally.at_now w)
      where
        go :
            (e' : Elapsed) (p : Progress)
            → p.attempt ≡ run.attempt
            → (s : Step O R A) (v : World) {m : ℕ} → Kept r.policies p s v
            → Counted tally.steps p s v (m + a)
            → m ≡ count w
            → Turned n (after_step r wake (record run { elapsed = some e' }) s v)
        go e' p same (Step.done res st) v {m} k c eq =
            let attempts : st.attempts ≡ run.attempt =
              ap (λ (t : RetryStats). t.attempts) k.0 ∙ same in
            λ h.
              omega
                (arith, c, eq, g (omega (arith, h, attempts)), ap (λ (t : ℕ). t * (b + a)) attempts)
        go e' p same (Step.continue d total) v {m} k c eq =
            back_off-Turned
              (record run { elapsed = some e'; total_wait = total; previous_delay = some d }) d v
              pos (λ h. omega (arith, c, eq, g h))

    next-Turned :
        (e : Elapsed) (run : AsyncRun Fut Sleep) (w : World)
        → 1 ≤ run.attempt
        → (run.attempt < u32_max → count w ≡ n + run.attempt * (b + a))
        → Turned n (again (next_attempt (record run { elapsed = some e })), w)
    unfolding next_attempt
    next-Turned e run w pos g = (
      omega (arith, pos),
      tt,
      λ h.
          let one_more : min (run.attempt + 1) u32_max ≡ suc run.attempt = omega (arith, h) in
          omega (arith, g (omega (arith, h)), ap (λ (t : ℕ). t * (b + a)) one_more),
    )

    polled-Turned :
        (e : Elapsed) (run : AsyncRun Fut Sleep) (f : Fut) (w : World)
        → 1 ≤ run.attempt
        → (run.attempt < u32_max → count w + a ≡ n + run.attempt * (b + a))
        → Turned n (turn_in r wake (polling f) e run w)
    unfolding turn_in
    polled-Turned e run f w pos g = go _ _ (r.op.poll_op f w).1 (tally.at_poll f w)
      where
        go :
            (p : Poll O) (f' : Fut) (v : World)
            → count v ≡ count w
            → let act : Eff World (Turn O R A Fut Sleep) = elim p [
              | pending ↦ pure (parked (record run { phase = polling f'; elapsed = some e }))
              | ready outcome ↦ complete_attempt r wake e run outcome
            ] in
              Turned n (act v)
        go pending f' v same = (tt, (pos, tt, λ h. omega (arith, same, g h)))
        go (ready o) f' v same = complete-Turned e run o v pos (λ h. omega (arith, same, g h))

    slept-Turned :
        (e : Elapsed) (run : AsyncRun Fut Sleep) (f : Sleep) (w : World)
        → 1 ≤ run.attempt
        → (run.attempt < u32_max → count w ≡ n + run.attempt * (b + a))
        → Turned n (turn_in r wake (sleeping f) e run w)
    unfolding turn_in
    slept-Turned e run f w pos g = go _ _ (r.clock.poll_wait f w).1 (tally.at_sleep f w)
      where
        go :
            (p : Poll (Unit {0})) (f' : Sleep) (v : World)
            → count v ≡ count w
            → let act : Eff World (Turn O R A Fut Sleep) = elim p [
              | pending ↦ pure (parked (record run { phase = sleeping f'; elapsed = some e }))
              | ready _ ↦ pure (again (next_attempt (record run { elapsed = some e })))
            ] in
              Turned n (act v)
        go pending f' v same = (tt, (pos, tt, λ h. omega (arith, same, g h)))
        go (ready u) f' v same = next-Turned e run v pos (λ h. omega (arith, same, g h))

    turn_in-Turned :
        (p : Phase Fut Sleep) (e : Elapsed) (run : AsyncRun Fut Sleep) (w : World)
        → 1 ≤ run.attempt
        → Alive p
        → (run.attempt < u32_max → count w + due p ≡ n + run.attempt * (b + a))
        → Turned n (turn_in r wake p e run w)
    turn_in-Turned Phase.done e run w pos h g = absurd h
    turn_in-Turned ready_to_start e run w pos h g = unfold turn_in in begin-Turned e run w pos g
    turn_in-Turned (polling f) e run w pos h g = polled-Turned e run f w pos g
    turn_in-Turned (sleeping f) e run w pos h g =
        slept-Turned e run f w pos (λ k. omega (arith, g k))
    turn_in-Turned yielding e run w pos h g =
        unfold turn_in in next-Turned e run w pos (λ k. omega (arith, g k))

    pub turn-Turned :
        (run : AsyncRun Fut Sleep) (w : World) → Going n run w → Turned n (turn r wake run w)
    unfolding turn start
    turn-Turned run w (pos, alive, g) = based run.elapsed
      where
        based : (e : Option Elapsed) → Turned n (turn r wake (record run { elapsed = e }) w)
        based none =
            turn_in-Turned run.phase _ _ _ pos alive (λ h. omega (arith, g h, tally.at_now w))
        based (some e) = turn_in-Turned run.phase e _ w pos alive g
