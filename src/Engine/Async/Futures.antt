-- ===== src/Engine/Async/Futures.antt =====
-- The futures of the operation and of the wait, polled to their ends by the async engine.
use relentless.Prelude.{ℕ, suc, ◌≡◌, refl, ap, ◌∙◌, some, arith}
use relentless.Effect.{Eff}
use relentless.State.{RetryState}
use relentless.Clock.{Poll, ready, pending}
use relentless.Engine.Elapsed.{Elapsed}
use relentless.Engine.Sync.{Retry, RunOutcome}
use relentless.Engine.Async.{
  AsyncRetry, Phase, ready_to_start, polling, sleeping, AsyncRun, Turn, again, parked, next_attempt,
  complete_attempt, turn_in, turn,
}
use relentless.Engine.Async.Executor.{drive, drive_step, go_on}

-- Polled from here, a future pends finitely often, with whatever effect each poll has, and then is
-- ready with this value in this world.
pub data Completes {World A F : Type 0} (poll : F → Eff World (Poll A × F))
    : F → World → A → World → Type 0 where
  now : {f f' : F} {w w' : World} {a : A} → poll f w ≡ ((ready a, f'), w') → Completes poll f w a w'
  later :
      {f f' : F} {w v w' : World} {a : A}
      → poll f w ≡ ((pending, f'), v)
      → Completes poll f' v a w'
      → Completes poll f w a w'

-- The two builders are the same retry: one set of policies, clocks that read alike, and, for each call
-- of the operation and each wait, a future that completes to what the blocking call does. Waking
-- the task does nothing to the world.
pub record Mirrors {World O R A Fut Sleep : Type 0} (s : Retry World O R A)
    (a : AsyncRetry World O R A Fut Sleep) (wake : Eff World (Unit {0})) : Type 0 where
  pub policies : a.policies ≡ s.policies
  pub reads : a.clock.now ≡ s.clock.now
  pub wakes : (w : World) → (wake w).1 ≡ w
  pub op :
      (st : RetryState) (w : World)
      → let (f, v) = a.op.call_op st w in Completes a.op.poll_op f v (s.op st w).0 (s.op st w).1
  pub wait :
      (d : ℕ) (w : World)
      → let (f, v) = a.clock.wait_async d w in
        Completes a.clock.poll_wait f v tt (s.clock.wait d w).1

module _ {World O R A Fut Sleep : Type 0} (a : AsyncRetry World O R A Fut Sleep)
    (wake : Eff World (Unit {0})) where
  abbrev pub Drives : AsyncRun Fut Sleep → World → RunOutcome O R A × World → Type 0
  Drives run w x = (n : ℕ) × (drive a wake n run w ≡ some x)

  abbrev pub GoesOn : Turn O R A Fut Sleep × World → RunOutcome O R A × World → Type 0
  GoesOn t x = (n : ℕ) × (go_on a wake n t ≡ some x)

  Drives-turn :
      (run : AsyncRun Fut Sleep) (w : World) (x : RunOutcome O R A × World)
      → GoesOn (turn a wake run w) x
      → Drives run w x
  Drives-turn run w x (n, e) = (suc n, drive_step a wake n run w ∙ e)

  abbrev pub at_phase : AsyncRun Fut Sleep → Phase Fut Sleep → Elapsed → AsyncRun Fut Sleep
  at_phase run p e = record run { phase = p; elapsed = some e }

  turn_ready :
      {f f' : Fut} {w w' : World} {o : O} (e : Elapsed) (run : AsyncRun Fut Sleep)
      → a.op.poll_op f w ≡ ((ready o, f'), w')
      → turn a wake (at_phase run (polling f) e) w
        ≡ complete_attempt a wake e (at_phase run (polling f) e) o w'
  unfolding turn turn_in
  turn_ready e run p = rw p refl

  turn_pending :
      {f f' : Fut} {w w' : World} (e : Elapsed) (run : AsyncRun Fut Sleep)
      → a.op.poll_op f w ≡ ((pending, f'), w')
      → turn a wake (at_phase run (polling f) e) w ≡ (parked (at_phase run (polling f') e), w')
  unfolding turn turn_in
  turn_pending e run p = ground arith

  -- An operation's future that completes leads to the completed attempt.
  pub Drives-polling :
      {f : Fut} {w w' : World} {o : O} (e : Elapsed) (run : AsyncRun Fut Sleep)
      (x : RunOutcome O R A × World)
      → Completes a.op.poll_op f w o w'
      → ((p : Phase Fut Sleep) → GoesOn (complete_attempt a wake e (at_phase run p e) o w') x)
      → Drives (at_phase run (polling f) e) w x
  Drives-polling {f} e run x (now p) g = Drives-turn _ _ x (rw (turn_ready e run p) (g (polling f)))
  Drives-polling e run x (later p c) g =
      let (n, d) = Drives-polling e run x c g in
      Drives-turn _ _ x (n, ap (go_on a wake n) (turn_pending e run p) ∙ d)

  wait_ready :
      {f f' : Sleep} {w w' : World} {u : Unit {0}} (e : Elapsed) (run : AsyncRun Fut Sleep)
      → a.clock.poll_wait f w ≡ ((ready u, f'), w')
      → turn a wake (at_phase run (sleeping f) e) w
        ≡ (again (next_attempt (at_phase run (sleeping f) e)), w')
  unfolding turn turn_in
  wait_ready e run p = rw p refl

  wait_pending :
      {f f' : Sleep} {w w' : World} (e : Elapsed) (run : AsyncRun Fut Sleep)
      → a.clock.poll_wait f w ≡ ((pending, f'), w')
      → turn a wake (at_phase run (sleeping f) e) w ≡ (parked (at_phase run (sleeping f') e), w')
  unfolding turn turn_in
  wait_pending e run p = ground arith

  -- A sleep's future that completes leads to the next attempt.
  pub Drives-sleeping :
      {f : Sleep} {w w' : World} {u : Unit {0}} (e : Elapsed) (run : AsyncRun Fut Sleep)
      (x : RunOutcome O R A × World)
      → Completes a.clock.poll_wait f w u w'
      → Drives (next_attempt (at_phase run ready_to_start e)) w' x
      → Drives (at_phase run (sleeping f) e) w x
  unfolding next_attempt
  Drives-sleeping e run x (now p) (n, d) =
      Drives-turn _ _ x (n, ap (go_on a wake n) (wait_ready e run p) ∙ d)
  Drives-sleeping e run x (later p c) g =
      let (n, d) = Drives-sleeping e run x c g in
      Drives-turn _ _ x (n, ap (go_on a wake n) (wait_pending e run p) ∙ d)
