-- ===== src/Engine/Async/Lifecycle.antt =====
-- The phases that a poll may leave a run in.
use relentless.Prelude.{ℕ, zero, suc, ◌≡◌, refl, subst, Bool-cases, some, inl, inr, ◌==◌}
use relentless.Effect.{Eff, pure}
use relentless.Clock.{Poll, ready, pending}
use relentless.Engine.Elapsed.{Elapsed, read}
use relentless.Engine.Step.{Step, step}
use relentless.Engine.Sync.{RunOutcome}
use relentless.Engine.Async.{
  AsyncRetry, Phase, ready_to_start, polling, sleeping, yielding, AsyncRun, Turn, again, parked,
  resolved, panicked, Polled, still_pending, is_ready, has_panicked, out_of_fuel, next_attempt,
  begin_attempt, back_off, after_step, complete_attempt, turn_in, turn, poll,
}
use relentless.Engine.Async.Executor.{after_turn, poll_step}

-- The run has not completed.
abbrev pub Alive : {Fut Sleep : Type 0} → Phase Fut Sleep → Type 0
Alive Phase.done = ⊥
Alive ready_to_start = Unit
Alive (polling f) = Unit
Alive (sleeping f) = Unit
Alive yielding = Unit

-- The run waits for a wake-up: in the operation, in a sleep, or between two attempts.
abbrev pub Suspended : {Fut Sleep : Type 0} → Phase Fut Sleep → Type 0
Suspended Phase.done = ⊥
Suspended ready_to_start = ⊥
Suspended (polling f) = Unit
Suspended (sleeping f) = Unit
Suspended yielding = Unit

module _ {World O R A Fut Sleep : Type 0} (r : AsyncRetry World O R A Fut Sleep)
    (wake : Eff World (Unit {0})) where
  abbrev Turned : Turn O R A Fut Sleep → Type 0
  Turned (again run) = Alive run.phase
  Turned (parked run) = Suspended run.phase
  Turned (resolved outcome run) = run.phase ≡ Phase.done
  Turned panicked = ⊥

  -- How a poll of a run that has not completed may end: suspended, complete, or short of fuel.
  abbrev pub Settled : Polled (RunOutcome O R A) Fut Sleep → Type 0
  Settled (still_pending run) = Suspended run.phase
  Settled (is_ready outcome run) = run.phase ≡ Phase.done
  Settled has_panicked = ⊥
  Settled out_of_fuel = Unit

  back_off-Turned :
      (run : AsyncRun Fut Sleep) (d : ℕ) (w : World) → Turned (back_off r wake run d w).0
  unfolding back_off
  back_off-Turned run d w = elim (Bool-cases (d == 0)) [
    | inl zero_delay ↦ rw zero_delay tt
    | inr nonzero ↦ rw nonzero tt
  ]

  after_step-Turned :
      (run : AsyncRun Fut Sleep) (st : Step O R A) (w : World)
      → Turned (after_step r wake run st w).0
  unfolding after_step
  after_step-Turned run (Step.done result stats) w = refl
  after_step-Turned run (Step.continue d total) w =
      back_off-Turned (record run { total_wait = total; previous_delay = some d }) d w

  complete-Turned :
      (e : Elapsed) (run : AsyncRun Fut Sleep) (o : O) (w : World)
      → Turned (complete_attempt r wake e run o w).0
  unfolding complete_attempt
  complete-Turned e run o w =
      let e' = (read r.clock.now e w).0.1 in
      after_step-Turned (record run { elapsed = some e' }) (step r.policies _ o _).0 _

  polled-Turned :
      (e : Elapsed) (run : AsyncRun Fut Sleep) (f : Fut) (w : World)
      → Turned (turn_in r wake (polling f) e run w).0
  unfolding turn_in
  polled-Turned e run f w = go _ _ (r.op.poll_op f w).1
    where
      go :
          (p : Poll O) (f' : Fut) (v : World)
          → let act : Eff World (Turn O R A Fut Sleep) = elim p [
            | pending ↦ pure (parked (record run { phase = polling f'; elapsed = some e }))
            | ready outcome ↦ complete_attempt r wake e run outcome
          ] in
            Turned (act v).0
      go pending f' v = tt
      go (ready o) f' v = complete-Turned e run o v

  slept-Turned :
      (e : Elapsed) (run : AsyncRun Fut Sleep) (f : Sleep) (w : World)
      → Turned (turn_in r wake (sleeping f) e run w).0
  unfolding turn_in next_attempt
  slept-Turned e run f w = go _ _ (r.clock.poll_wait f w).1
    where
      go :
          (p : Poll (Unit {0})) (f' : Sleep) (v : World)
          → let act : Eff World (Turn O R A Fut Sleep) = elim p [
            | pending ↦ pure (parked (record run { phase = sleeping f'; elapsed = some e }))
            | ready _ ↦ pure (again (next_attempt (record run { elapsed = some e })))
          ] in
            Turned (act v).0
      go pending f' v = tt
      go (ready u) f' v = tt

  turn_in-Turned :
      (p : Phase Fut Sleep) (e : Elapsed) (run : AsyncRun Fut Sleep) (w : World)
      → Alive p
      → Turned (turn_in r wake p e run w).0
  turn_in-Turned Phase.done e run w h = absurd h
  turn_in-Turned ready_to_start e run w h = unfold turn_in begin_attempt in tt
  turn_in-Turned (polling f) e run w h = polled-Turned e run f w
  turn_in-Turned (sleeping f) e run w h = slept-Turned e run f w
  turn_in-Turned yielding e run w h = unfold turn_in next_attempt in tt

  turn-Turned :
      (run : AsyncRun Fut Sleep) (w : World) → Alive run.phase → Turned (turn r wake run w).0
  unfolding turn
  turn-Turned run w h = turn_in-Turned run.phase _ run _ h

  after :
      (fuel : ℕ) (t : Turn O R A Fut Sleep) (v : World)
      → Turned t
      → ((run : AsyncRun Fut Sleep) (w : World)
          → Alive run.phase
          → Settled (poll r wake fuel run w).0)
      → Settled (after_turn r wake fuel (t, v)).0
  after fuel (again run) v k rec = rec run v k
  after fuel (parked run) v k rec = k
  after fuel (resolved outcome run) v k rec = k
  after fuel panicked v k rec = k

  -- A poll of a run that has not completed never panics, whatever its fuel; it leaves the run
  -- suspended in the operation, in a sleep or between two attempts where it returns `Pending`, and
  -- done where it returns `Ready`.
  pub poll-Settled :
      (fuel : ℕ) (run : AsyncRun Fut Sleep) (w : World)
      → Alive run.phase
      → Settled (poll r wake fuel run w).0
  poll-Settled zero run w h = unfold poll in tt
  poll-Settled (suc fuel) run w h =
      rw (poll_step r wake fuel run w) (after fuel _ _ (turn-Turned run w h) (poll-Settled fuel))

  done_panics :
      (fuel : ℕ) (run : AsyncRun Fut Sleep) (w : World)
      → run.phase ≡ Phase.done
      → (poll r wake (suc fuel) run w).0 ≡ has_panicked
  unfolding poll turn turn_in
  done_panics fuel run w h = rw h refl

  -- A future that a poll returned `Ready` for panics whenever it is polled again, in any world, if
  -- it had not completed before that poll.
  pub poll_after_ready :
      (fuel more : ℕ) (run run' : AsyncRun Fut Sleep) (outcome : RunOutcome O R A) (w w' v : World)
      → Alive run.phase
      → poll r wake fuel run w ≡ (is_ready outcome run', w')
      → (poll r wake (suc more) run' v).0 ≡ has_panicked
  poll_after_ready fuel more run run' outcome w w' v h e =
      let settled : Settled (is_ready outcome run') =
        subst (λ p. Settled p.0) e (poll-Settled fuel run w h) in
      done_panics more run' v settled
