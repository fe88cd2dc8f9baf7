-- ===== src/Engine/Async/Machine.antt =====
-- The state machine of a future: the moves that a turn may make from one state of the run to the next.
use relentless.Prelude.{
  ℕ, ◌+◌, min, ◌<◌, ◌≡◌, refl, ap, ◌∙◌, some, inl, inr, Bool-cases, ◌==◌, arith,
}
use relentless.Effect.{Eff, pure}
use relentless.Duration.{saturating_add, duration_max}
use relentless.Clock.{Poll, ready, pending}
use relentless.Engine.Elapsed.{Elapsed}
use relentless.Engine.Step.{Progress, Step}
use relentless.Engine.Step.Contract.{Kept, step-Kept}
use relentless.Engine.Async.{
  AsyncRetry, Phase, ready_to_start, polling, sleeping, yielding, AsyncRun, Turn, again, parked,
  resolved, panicked, next_attempt, begin_attempt, back_off, after_step, complete_attempt, turn_in,
  turn,
}

module _ {Fut Sleep : Type 0} where
  pub data Moves (run : AsyncRun Fut Sleep) : AsyncRun Fut Sleep → Type 0 where
    begin :
        (f : Fut) (e : Elapsed)
        → run.phase ≡ ready_to_start
        → Moves run (record run { phase = polling f; elapsed = some e })
    pend :
        (f f' : Fut) (e : Elapsed)
        → run.phase ≡ polling f
        → Moves run (record run { phase = polling f'; elapsed = some e })
    finish :
        (f : Fut) (e : Elapsed)
        → run.phase ≡ polling f
        → Moves run (record run { phase = Phase.done; elapsed = some e })
    lie_down :
        (f : Fut) (s : Sleep) (e : Elapsed) (d total : ℕ)
        → run.phase ≡ polling f
        → 0 < d
        → total ≡ saturating_add run.total_wait d
        → Moves run (record run {
          phase = sleeping s;
          elapsed = some e;
          total_wait = total;
          previous_delay = some d;
        })
    step_aside :
        (f : Fut) (e : Elapsed) (d total : ℕ)
        → run.phase ≡ polling f
        → d ≡ 0
        → total ≡ saturating_add run.total_wait d
        → Moves run (record run {
          phase = yielding;
          elapsed = some e;
          total_wait = total;
          previous_delay = some d;
        })
    sleep_on :
        (s s' : Sleep) (e : Elapsed)
        → run.phase ≡ sleeping s
        → Moves run (record run { phase = sleeping s'; elapsed = some e })
    wake_up :
        (s : Sleep) (e : Elapsed)
        → run.phase ≡ sleeping s
        → Moves run (next_attempt (record run { elapsed = some e }))
    resume :
        (e : Elapsed)
        → run.phase ≡ yielding
        → Moves run (next_attempt (record run { elapsed = some e }))

  pub data Reaches (run : AsyncRun Fut Sleep) : AsyncRun Fut Sleep → Type 0 where
    stay : Reaches run run
    move :
        {run' run'' : AsyncRun Fut Sleep} → Reaches run run' → Moves run' run'' → Reaches run run''

module _ {World O R A Fut Sleep : Type 0} (r : AsyncRetry World O R A Fut Sleep)
    (wake : Eff World (Unit {0})) where
  abbrev pub Moved : AsyncRun Fut Sleep → Turn O R A Fut Sleep → Type 0
  Moved run (again run') = Moves run run'
  Moved run (parked run') = Moves run run'
  Moved run (resolved outcome run') = Moves run run'
  Moved run panicked = run.phase ≡ Phase.done

  module _ (run : AsyncRun Fut Sleep) where
    back_off-Moved :
        (f : Fut) (e : Elapsed) (d total : ℕ) (w : World)
        → run.phase ≡ polling f
        → total ≡ saturating_add run.total_wait d
        → Moved run
            (back_off r wake
              (record run { elapsed = some e; total_wait = total; previous_delay = some d })
              d
              w).0
    unfolding back_off
    back_off-Moved f e d total w h k = elim (Bool-cases (d == 0)) [
      | inl zero_delay ↦ rw zero_delay (step_aside f e d total h (ground arith) k)
      | inr nonzero ↦ rw nonzero (lie_down f _ e d total h (ground arith) k)
    ]

    after_step-Moved :
        (f : Fut) (e : Elapsed) (p : Progress) (s : Step O R A) (v w : World)
        → run.phase ≡ polling f
        → p.total_wait ≡ run.total_wait
        → Kept r.policies p s v
        → Moved run (after_step r wake (record run { elapsed = some e }) s w).0
    unfolding after_step saturating_add
    after_step-Moved f e p (Step.done result stats) v w h same k = finish f e h
    after_step-Moved f e p (Step.continue d total) v w h same k =
        back_off-Moved f e d total w h (k.0 ∙ ap (λ t. min (t + d) duration_max) same)

    complete-Moved :
        (f : Fut) (e : Elapsed) (o : O) (w : World)
        → run.phase ≡ polling f
        → Moved run (complete_attempt r wake e run o w).0
    unfolding complete_attempt
    complete-Moved f e o w h = after_step-Moved f _ _ _ _ _ h refl (step-Kept r.policies _ o _)

    polled-Moved :
        (e : Elapsed) (f : Fut) (w : World)
        → run.phase ≡ polling f
        → Moved run (turn_in r wake (polling f) e run w).0
    unfolding turn_in
    polled-Moved e f w h = go _ _ (r.op.poll_op f w).1
      where
        go :
            (p : Poll O) (f' : Fut) (v : World)
            → let act : Eff World (Turn O R A Fut Sleep) = elim p [
              | pending ↦ pure (parked (record run { phase = polling f'; elapsed = some e }))
              | ready outcome ↦ complete_attempt r wake e run outcome
            ] in
              Moved run (act v).0
        go pending f' v = pend f f' e h
        go (ready o) f' v = complete-Moved f e o v h

    slept-Moved :
        (e : Elapsed) (s : Sleep) (w : World)
        → run.phase ≡ sleeping s
        → Moved run (turn_in r wake (sleeping s) e run w).0
    unfolding turn_in
    slept-Moved e s w h = go _ _ (r.clock.poll_wait s w).1
      where
        go :
            (p : Poll (Unit {0})) (s' : Sleep) (v : World)
            → let act : Eff World (Turn O R A Fut Sleep) = elim p [
              | pending ↦ pure (parked (record run { phase = sleeping s'; elapsed = some e }))
              | ready _ ↦ pure (again (next_attempt (record run { elapsed = some e })))
            ] in
              Moved run (act v).0
        go pending s' v = sleep_on s s' e h
        go (ready u) s' v = wake_up s e h

    turn_in-Moved :
        (p : Phase Fut Sleep) (e : Elapsed) (w : World)
        → run.phase ≡ p
        → Moved run (turn_in r wake p e run w).0
    turn_in-Moved Phase.done e w h = unfold turn_in in h
    turn_in-Moved ready_to_start e w h = unfold turn_in begin_attempt in begin _ _ h
    turn_in-Moved (polling f) e w h = polled-Moved e f w h
    turn_in-Moved (sleeping s) e w h = slept-Moved e s w h
    turn_in-Moved yielding e w h = unfold turn_in in resume e h

    pub turn-Moved : (w : World) → Moved run (turn r wake run w).0
    unfolding turn
    turn-Moved w = turn_in-Moved run.phase _ _ refl
