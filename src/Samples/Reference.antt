-- ===== src/Samples/Reference.antt =====
-- The reference of a retry, on the simulated world: an operation that fails twice and then succeeds.
use relentless.Prelude.{
  ℕ, zero, suc, ◌+◌, ◌-◌, ◌*◌, ◌<◌, ◌≤◌, ◌≡◌, refl, ap, leb, if◌then◌else◌, Option, none, some, [],
  ◌∷◌, arith,
}
use relentless.Decision.{Result, ok, err, Verdict, classify_result}
use relentless.Engine.Termination.{returned, exhausted}
use relentless.Engine.Error.{RetryError}
use relentless.Engine.Sync.{RetryOp, run}
use relentless.Engine.Reference.{Rules, Account, account, account_of}
use relentless.Engine.Reference.Pass.{Plays, on_virtual_clock, policies}
use relentless.Engine.Reference.Refines.{Follows, run-account_of}
use relentless.Engine.Reference.Ends.{delays, costs}
use relentless.Engine.Reference.Schedule.{SucceedsAt, run-delays}
use relentless.Engine.Reference.TimedOut.{clamped, NeverSettles, run-timed_out}
use relentless.Duration.{duration_max, saturating_add}
use relentless.State.{RetryState}
use relentless.Effect.{Eff, ◌>>◌, pure}
use relentless.Clock.{
  Poll, ready, pending, VirtualWait, virtual_async, virtual_sync, poll_virtual, advance,
}
use relentless.Engine.Async.{AsyncRetry, into_run, block_on}
use relentless.Engine.Async.Futures.{now, later, Mirrors}
use relentless.Engine.Reference.Polled.{block_on-account_of}
use relentless.Samples.Sim.{wake, Sim, begin, time_cell, hooks}

-- Delays as the linear strategy says them.
abbrev schedule : ℕ → ℕ
schedule n = 3 + 4 * (n - 1)

abbrev rules : Option ℕ → Rules (Result ℕ ℕ) ℕ ℕ
rules timeout = record {
  classify = classify_result;
  stops = λ s. leb 5 s.attempt;
  delay = λ s. schedule s.attempt;
  timeout = timeout;
}

abbrev answer : ℕ → Result ℕ ℕ
answer n = if leb 3 n then ok 42 else err 7

abbrev cost : ℕ → ℕ
cost n = 2

-- The operation goes by its own number of calls.
abbrev play : RetryOp Sim (Result ℕ ℕ)
play st w =
    (do
      advance time_cell 2
      λ v. (if leb 2 v.calls then ok 42 else err 7, record v { calls = v.calls + 1 }))
      w

abbrev Before : ℕ → Sim → Type 0
Before n w = n ≡ w.calls + 1

same_answer : (n calls : ℕ) → n ≡ calls + 1 → (if leb 2 calls then ok 42 else err 7) ≡ answer n
same_answer n calls h = ground arith

in_time : (t : ℕ) → t + 2 ≤ duration_max → saturating_add t 2 ≡ t + 2
unfolding saturating_add
in_time t fits = omega (arith, fits)

plays : Plays time_cell play hooks answer cost Before
unfolding advance
plays = record {
  at_op = λ s w h. (
    same_answer s.attempt w.calls h,
    λ fits. ap (λ (n : ℕ). record { now = n; waits = w.time.waits }) (in_time w.time.now fits),
    omega (arith, h),
  );
  at_set = λ n t w h. h;
  at_before = λ s w. (refl, λ n h. h);
  at_after = λ s w. (refl, λ n h. h);
  at_exit = λ e w. (refl, λ n h. h);
}

-- The timeout cuts the second delay down.
abbrev cut_off : Account (Result ℕ ℕ) ℕ ℕ
cut_off = record {
  outcome =
      (ok 42, record { attempts = 3; total_elapsed = 12; total_wait = 6; stop_reason = returned });
  waits = 3 ∷ 3 ∷ [];
}

cut_off-account : account_of (rules (some 10)) answer cost 4 ≡ some cut_off
unfolding account_of account classify_result
cut_off-account = refl

run-account_of_example :
    Follows time_cell
      (rules (some 10))
      play
      hooks
      0
      []
      cut_off
      (run (on_virtual_clock time_cell (rules (some 10)) play hooks) 4 begin)
run-account_of_example =
    run-account_of time_cell (rules (some 10)) play hooks plays 4 begin cut_off cut_off-account
      (omega arith) refl (omega arith)

fails : (i : ℕ) → i < 3 → (o : Result ℕ ℕ) × (classify_result (answer i) ≡ Verdict.retry o)
unfolding classify_result
fails i before = (err 7, ground arith)

third : SucceedsAt (rules none) answer cost schedule 3 42
unfolding classify_result
third = record {
  fails = λ i pos before. fails i (omega (arith, before));
  succeeds = refl;
  goes_on = λ s before. ground arith;
  paced = λ s. refl;
  untimed = refl;
}

run-delays_example :
    (w' : Sim) × (run (on_virtual_clock time_cell (rules none) play hooks) 3 begin
      ≡ some (
        (
          ok 42,
          record { attempts = 3; total_elapsed = 16; total_wait = 10; stop_reason = returned },
        ),
        w',
      ))
    × (w'.time ≡ record { now = 16; waits = 3 ∷ 7 ∷ [] })
unfolding delays costs
run-delays_example =
    run-delays (rules none) answer cost schedule 42 time_cell play hooks plays 2 begin third
      (omega arith) refl (omega arith)

-- The same retry as a future, whose operation pends once.
abbrev poll_answer : RetryState × ℕ → Eff Sim (Poll (Result ℕ ℕ) × (RetryState × ℕ))
poll_answer (s, zero) w = ((ready (play s w).0, (s, 0)), (play s w).1)
poll_answer (s, suc n) w = ((pending, (s, n)), w)

abbrev future : AsyncRetry Sim (Result ℕ ℕ) ℕ ℕ (RetryState × ℕ) VirtualWait
future = record {
  op = record { call_op = λ s. pure (s, 1); poll_op = poll_answer };
  clock = virtual_async time_cell;
  policies = policies time_cell (rules (some 10)) play hooks;
}

mirrored : Mirrors (on_virtual_clock time_cell (rules (some 10)) play hooks) future wake
unfolding virtual_async virtual_sync poll_virtual
mirrored = record {
  policies = refl;
  reads = refl;
  wakes = λ w. refl;
  op = λ st w. later refl (now refl);
  wait = λ d w. now refl;
}

block_on-account_of_example :
    (n : ℕ) × Follows time_cell
      (rules (some 10))
      play
      hooks
      0
      []
      cut_off
      (block_on future wake (suc n) n into_run begin)
block_on-account_of_example =
    block_on-account_of time_cell (rules (some 10)) play hooks plays future wake mirrored 4 begin
      cut_off cut_off-account (omega arith) refl (omega arith)

-- An operation that never succeeds and takes no time.
abbrev fail : RetryOp Sim (Result ℕ ℕ)
fail st = pure (err 7)

failing : Plays time_cell fail hooks (λ n. err 7) (λ n. 0) (λ n w. Unit {0})
failing = record {
  at_op = λ s w h.
      (refl, λ fits. ap (λ (n : ℕ). record { now = n; waits = w.time.waits }) (omega arith), tt);
  at_set = λ n t w h. h;
  at_before = λ s w. (refl, λ n h. h);
  at_after = λ s w. (refl, λ n h. h);
  at_exit = λ e w. (refl, λ n h. h);
}

never_settles : NeverSettles (rules (some 12)) (λ n. err 7) (λ n. err 7) (λ n. 0) schedule 4 12
unfolding classify_result
never_settles = record {
  again = λ i pos few. refl;
  instant = λ i pos few. refl;
  goes_on = λ s few. ground arith;
  paced = λ s few. refl;
  positive = λ i pos few. omega arith;
  timed = refl;
}

run-timed_out_example :
    (w' : Sim) × (run (on_virtual_clock time_cell (rules (some 12)) fail hooks) 4 begin
      ≡ some (
        (
          err (RetryError.exhausted (err 7)),
          record { attempts = 4; total_elapsed = 12; total_wait = 12; stop_reason = exhausted },
        ),
        w',
      ))
    × (w'.time ≡ record { now = 12; waits = 3 ∷ 7 ∷ 2 ∷ [] })
unfolding clamped delays
run-timed_out_example =
    run-timed_out (rules (some 12)) (λ n. err 7) (λ n. err 7) (λ n. 0) schedule 4 12 time_cell fail
      hooks failing 3 4 begin never_settles (omega arith) (omega arith) (omega arith) (omega arith)
      tt (omega arith)
