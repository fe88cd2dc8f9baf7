-- ===== src/Engine/Async/Parity.antt =====
-- The async engine against the sync engine.
use relentless.Prelude.{
  ℕ, zero, suc, ◌≡◌, refl, sym, ap, ◌∙◌, ◌==◌, true, false, Option, some, inl, inr, Bool-cases,
  arith,
}
use relentless.Effect.{Eff}
use relentless.State.{RetryState}
use relentless.Engine.Elapsed.{Elapsed, start, read}
use relentless.Engine.Step.{Step, step}
use relentless.Engine.Sync.{
  Retry, RetryOp, Cursor, next_cursor, first_cursor, before_state, progress_of, RunOutcome,
  iteration, sleep, run_loop,
}
use relentless.Engine.Sync
use relentless.Engine.Sync.Invariant
use relentless.Engine.Sync.Invariant.{run_loop_step}
use relentless.Engine.Async.{
  AsyncRetry, Phase, ready_to_start, polling, sleeping, yielding, AsyncRun, into_run, again, parked,
  next_attempt, begin_attempt, complete_attempt, after_step, back_off, turn_in, turn, block_on,
}
use relentless.Engine.Async.Executor.{drive, drive_step, go_on, block_on-drive}
use relentless.Engine.Async.Futures.{
  Mirrors, Drives, GoesOn, at_phase, Drives-polling, Drives-sleeping,
}

module _ {World O R A Fut Sleep : Type 0} (s : Retry World O R A)
    (a : AsyncRetry World O R A Fut Sleep) (wake : Eff World (Unit {0}))
    (same : Mirrors s a wake) where
  abbrev run_at : Cursor → AsyncRun Fut Sleep
  run_at c = record {
    phase = ready_to_start;
    attempt = c.attempt;
    previous_delay = c.previous_delay;
    total_wait = c.total_wait;
    elapsed = some c.elapsed;
  }

  abbrev Follows : ℕ → Type 0
  Follows fuel =
      (c : Cursor) (w : World) (x : RunOutcome O R A × World)
      → run_loop s fuel c w ≡ some x
      → Drives a wake (run_at c) w x

  abbrev go_sync : ℕ → Cursor → (Step O R A × Elapsed) × World → Option (RunOutcome O R A × World)
  go_sync = Invariant.go_on s

  -- The run after a step that continues, before the back-off.
  abbrev waiting : Cursor → Elapsed → ℕ → ℕ → Phase Fut Sleep → AsyncRun Fut Sleep
  waiting c e d total p = record (at_phase a wake (run_at c) p e) {
    total_wait = total;
    previous_delay = some d;
  }

  sleep_zero : (d : ℕ) (w : World) → (d == 0) ≡ true → sleep s d w ≡ w
  unfolding sleep
  sleep_zero d w h = ground arith

  sleep_nonzero : (d : ℕ) (w : World) → (d == 0) ≡ false → sleep s d w ≡ (s.clock.wait d w).1
  unfolding sleep
  sleep_nonzero d w h = ground arith

  back_off_zero :
      (c : Cursor) (e : Elapsed) (d total : ℕ) (w : World) (p : Phase Fut Sleep)
      → (d == 0) ≡ true
      → back_off a wake (waiting c e d total p) d w ≡ (parked (waiting c e d total yielding), w)
  unfolding back_off
  back_off_zero c e d total w p h = ground (arith, same.wakes w)

  back_off_nonzero :
      (c : Cursor) (e : Elapsed) (d total : ℕ) (w : World) (p : Phase Fut Sleep)
      → (d == 0) ≡ false
      → let (f, v) = a.clock.wait_async d w in
        back_off a wake (waiting c e d total p) d w ≡ (again (waiting c e d total (sleeping f)), v)
  unfolding back_off
  back_off_nonzero c e d total w p h = ground arith

  turn_yielding :
      (c : Cursor) (e : Elapsed) (d total : ℕ) (w : World)
      → turn a wake (waiting c e d total yielding) w ≡ (again (run_at (next_cursor c e d total)), w)
  unfolding turn turn_in next_attempt next_cursor
  turn_yielding c e d total w = refl

  back_off-Follows :
      (fuel : ℕ) (c : Cursor) (e : Elapsed) (d total : ℕ) (w : World) (x : RunOutcome O R A × World)
      (p : Phase Fut Sleep)
      → Follows fuel
      → run_loop s fuel (next_cursor c e d total) (sleep s d w) ≡ some x
      → GoesOn a wake (back_off a wake (waiting c e d total p) d w) x
  back_off-Follows fuel c e d total w x p ih h = elim (Bool-cases (d == 0)) [
    | inl zero_delay ↦
        let (n, r) = ih (next_cursor c e d total) w x (rw (sleep_zero d w zero_delay) at h) in
        (
          suc n,
          ap (go_on a wake (suc n)) (back_off_zero c e d total w p zero_delay)
              ∙ (drive_step a wake n _ w ∙ (ap (go_on a wake n) (turn_yielding c e d total w) ∙ r)),
        )
    | inr nonzero ↦
        let v = (s.clock.wait d w).1 in
        let later = ih (next_cursor c e d total) v x (rw (sleep_nonzero d w nonzero) at h) in
        let (n, r) =
          Drives-sleeping a wake e
            (record (run_at c) { total_wait = total; previous_delay = some d }) x (same.wait d w)
            (unfold next_attempt next_cursor in later) in
        (n, ap (go_on a wake n) (back_off_nonzero c e d total w p nonzero) ∙ r)
  ]

  after_step-Follows :
      (fuel : ℕ) (c : Cursor) (e : Elapsed) (st : Step O R A) (w : World)
      (x : RunOutcome O R A × World) (p : Phase Fut Sleep)
      → Follows fuel
      → go_sync fuel c ((st, e), w) ≡ some x
      → GoesOn a wake (after_step a wake (at_phase a wake (run_at c) p e) st w) x
  unfolding after_step
  after_step-Follows fuel c e (Step.done result stats) w x p ih h = (0, h)
  after_step-Follows fuel c e (Step.continue d total) w x p ih h =
      back_off-Follows fuel c e d total w x p ih h

  -- The sync pass, from where the operation has been called.
  abbrev finish : Cursor → Elapsed → O → World → (Step O R A × Elapsed) × World
  finish c e o w =
      let ((post, e'), v) = read s.clock.now e w in
      let (st, v') = step s.policies (progress_of c post) o v in ((st, e'), v')

  abbrev view : Cursor → World → RetryState
  view c w = before_state c.attempt c.previous_delay (read s.clock.now c.elapsed w).0.0

  abbrev noticed : Cursor → World → World
  noticed c w = (s.policies.hooks.before_attempt (view c w) (read s.clock.now c.elapsed w).1).1

  abbrev begun : Cursor → World → Elapsed
  begun c w = (read s.clock.now c.elapsed w).0.1

  iteration_parts :
      (c : Cursor) (w : World)
      → iteration s c w ≡ (let (o, v) = s.op (view c w) (noticed c w) in finish c (begun c w) o v)
  unfolding iteration
  iteration_parts c w = refl

  begin_parts :
      (c : Cursor) (w : World)
      → let (f, v) = a.op.call_op (view c w) (noticed c w) in
        turn a wake (run_at c) w ≡ (again (at_phase a wake (run_at c) (polling f) (begun c w)), v)
  unfolding turn turn_in begin_attempt read
  begin_parts c w = rw (same.policies, same.reads) refl

  complete_parts :
      (c : Cursor) (e : Elapsed) (o : O) (w : World) (p : Phase Fut Sleep)
      → let ((st, e'), v) = finish c e o w in
        complete_attempt a wake e (at_phase a wake (run_at c) p e) o w
        ≡ after_step a wake (at_phase a wake (run_at c) p e') st v
  unfolding complete_attempt progress_of read
  complete_parts c e o w p = rw (same.policies, same.reads) refl

  run_loop-Follows : (fuel : ℕ) → Follows fuel
  run_loop-Follows zero c w x h = unfold run_loop in cc
  run_loop-Follows (suc fuel) c w x h =
      let (o, v) = s.op (view c w) (noticed c w) in
      let e = begun c w in
      let ((st, e'), v') = finish c e o v in
      let passed : go_sync fuel c ((st, e'), v') ≡ some x =
        sym (ap (go_sync fuel c) (iteration_parts c w)) ∙ (sym (run_loop_step s fuel c w) ∙ h) in
      let (n, r) = Drives-polling a wake e (run_at c) x (same.op (view c w) (noticed c w)) (λ p.
        let (m, q) = after_step-Follows fuel c e' st v' x p (run_loop-Follows fuel) passed in
        (m, ap (go_on a wake m) (complete_parts c e o v p) ∙ q)) in
      (suc n, drive_step a wake n _ w ∙ (ap (go_on a wake n) (begin_parts c w) ∙ r))

  abbrev started : World → Cursor
  started w = first_cursor (start s.clock.now w).0

  first_turn :
      (w : World)
      → turn a wake into_run w ≡ turn a wake (run_at (started w)) (start s.clock.now w).1
  unfolding turn first_cursor start into_run turn_in begin_attempt
  first_turn w = rw same.reads refl

  -- Where the async retry mirrors the blocking one (the same policies, clocks that read alike,
  -- wake-ups that leave the world alone, and futures of the operation and of each wait that pend
  -- finitely often and then do what the blocking calls do), whatever the blocking `run` returns,
  -- an executor that polls the future to its end returns too: the same result, statistics and
  -- final world, for some number of polls.
  pub block_on-run :
      (fuel : ℕ) (w : World) (x : RunOutcome O R A × World)
      → Sync.run s fuel w ≡ some x
      → (n : ℕ) × (block_on a wake (suc n) n into_run w ≡ some x)
  block_on-run fuel w x h =
      let begun_loop : run_loop s fuel (started w) (start s.clock.now w).1 ≡ some x =
        unfold Sync.run in h in
      let (n, r) = run_loop-Follows fuel (started w) (start s.clock.now w).1 x begun_loop in
      same_start n r
    where
      same_start :
          (n : ℕ)
          → drive a wake n (run_at (started w)) (start s.clock.now w).1 ≡ some x
          → (n : ℕ) × (block_on a wake (suc n) n into_run w ≡ some x)
      same_start zero r = unfold drive in cc
      same_start (suc n) r =
          let driven : drive a wake (suc n) into_run w ≡ some x =
            drive_step a wake n into_run w
            ∙ (ap (go_on a wake n) (first_turn w) ∙ (sym (drive_step a wake n _ _) ∙ r)) in
          (suc n, block_on-drive a wake (suc n) into_run w x driven)
