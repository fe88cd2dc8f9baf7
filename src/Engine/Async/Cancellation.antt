-- ===== src/Engine/Async/Cancellation.antt =====
-- What a future has done by any of its polls, and so what one leaves behind that is dropped there.
use relentless.Prelude.{ℕ, zero, suc, ◌+◌, ◌-◌, ◌*◌, ◌≤◌, ◌<◌, ◌≡◌, arith}
use relentless.Duration.{u32_max}
use relentless.Effect.{Eff}
use relentless.Engine.Sync.{RunOutcome}
use relentless.Engine.Async.{
  AsyncRetry, AsyncRun, Turn, again, parked, resolved, panicked, Polled, still_pending, is_ready,
  has_panicked, out_of_fuel, poll, into_run, Phase, ready_to_start, polling, sleeping, yielding,
}
use relentless.Engine.Async.Tallied.{PollTally, due, Going, Over, Turned, turn-Turned}
use relentless.Engine.Async.Lifecycle.{Suspended}
use relentless.Engine.Async.Executor.{after_turn, poll_step}

module _ {World X Fut Sleep : Type 0} where
  abbrev pub poll_again :
      (AsyncRun Fut Sleep → World → Polled X Fut Sleep × World)
      → Polled X Fut Sleep × World
      → Polled X Fut Sleep × World
  poll_again rest (still_pending run, w) = rest run w
  poll_again rest (is_ready x run, w) = (is_ready x run, w)
  poll_again rest (has_panicked, w) = (has_panicked, w)
  poll_again rest (out_of_fuel, w) = (out_of_fuel, w)

-- An owner that polls a future a number of times, and stops where it is ready.
unfoldable pub poll_times :
    {World O R A Fut Sleep : Type 0} (r : AsyncRetry World O R A Fut Sleep)
    (wake : Eff World (Unit {0})) (polls fuel : ℕ)
    → AsyncRun Fut Sleep
    → World
    → Polled (RunOutcome O R A) Fut Sleep × World
poll_times r wake zero fuel run w = (still_pending run, w)
poll_times r wake (suc polls) fuel run w =
    poll_again (poll_times r wake polls fuel) (poll r wake fuel run w)

module _ {World O R A Fut Sleep : Type 0} {r : AsyncRetry World O R A Fut Sleep}
    {wake : Eff World (Unit {0})} {count : World → ℕ} {b a x : ℕ}
    (tally : PollTally r wake count b a x) where
  -- What a future that is pending in an attempt, in this phase, has added to a count that started at
  -- `n`: the operation still owes its after-hook, and nothing else is left to call.
  abbrev pub Pends : ℕ → Phase Fut Sleep → (attempt counted : ℕ) → Type 0
  Pends n ready_to_start attempt counted = ⊥
  Pends n (polling f) attempt counted =
      attempt < u32_max → counted ≡ n + attempt * b + (attempt - 1) * a
  Pends n (sleeping f) attempt counted = attempt < u32_max → counted ≡ n + attempt * b + attempt * a
  Pends n yielding attempt counted = attempt < u32_max → counted ≡ n + attempt * b + attempt * a
  Pends n Phase.done attempt counted = ⊥

  abbrev pub Seen : ℕ → Polled (RunOutcome O R A) Fut Sleep × World → Type 0
  Seen n (still_pending run, w) = (1 ≤ run.attempt) × Pends n run.phase run.attempt (count w)
  Seen n (is_ready (res, st) run, w) =
      st.attempts < u32_max → count w ≡ n + st.attempts * b + st.attempts * a + x
  Seen n (has_panicked, w) = ⊥
  Seen n (out_of_fuel, w) = Unit {0}

  -- The same, as the turns keep it.
  abbrev Held : ℕ → Polled (RunOutcome O R A) Fut Sleep × World → Type 0
  Held n (still_pending run, w) = Suspended run.phase × Going tally n run w
  Held n (is_ready outcome run, w) = Over tally n outcome w
  Held n (has_panicked, w) = ⊥
  Held n (out_of_fuel, w) = Unit {0}

  module _ (n : ℕ) where
    mul_once : (k : ℕ) → 1 ≤ k → k * a ≡ (k - 1) * a + a
    mul_once zero h = absurd (omega (arith, h))
    mul_once (suc k) h = grind arith

    mul_both : (k : ℕ) → k * (b + a) ≡ k * b + k * a
    mul_both k = grind arith

    Pends-Held :
        (phase : Phase Fut Sleep) (run : AsyncRun Fut Sleep) (w : World)
        → 1 ≤ run.attempt
        → Suspended phase
        → (run.attempt < u32_max → count w + due tally phase ≡ n + run.attempt * (b + a))
        → Pends n phase run.attempt (count w)
    Pends-Held ready_to_start run w pos h g = h
    Pends-Held (polling f) run w pos h g =
        λ few. omega (arith, g few, mul_once run.attempt pos, mul_both run.attempt)
    Pends-Held (sleeping f) run w pos h g = λ few. omega (arith, g few, mul_both run.attempt)
    Pends-Held yielding run w pos h g = λ few. omega (arith, g few, mul_both run.attempt)
    Pends-Held Phase.done run w pos h g = h

    Seen-Held : (x : Polled (RunOutcome O R A) Fut Sleep × World) → Held n x → Seen n x
    Seen-Held (still_pending run, w) (h, (pos, alive, g)) =
        (pos, Pends-Held run.phase run w pos h g)
    Seen-Held (is_ready (res, st) run, w) k = λ few. omega (arith, k few, mul_both st.attempts)
    Seen-Held (has_panicked, w) k = k
    Seen-Held (out_of_fuel, w) k = k

    after :
        (fuel : ℕ) (t : Turn O R A Fut Sleep × World)
        → Turned tally n t
        → ((run : AsyncRun Fut Sleep) (w : World)
            → Going tally n run w
            → Held n (poll r wake fuel run w))
        → Held n (after_turn r wake fuel t)
    after fuel (again run, w) k rec = rec run w k
    after fuel (parked run, w) k rec = k
    after fuel (resolved outcome run, w) k rec = k
    after fuel (panicked, w) k rec = k

    poll-Held :
        (fuel : ℕ) (run : AsyncRun Fut Sleep) (w : World)
        → Going tally n run w
        → Held n (poll r wake fuel run w)
    poll-Held zero run w g = unfold poll in tt
    poll-Held (suc fuel) run w g =
        rw (poll_step r wake fuel run w)
          (after fuel _ (turn-Turned tally n run w g) (poll-Held fuel))

    then-Held :
        (polls fuel : ℕ) (x : Polled (RunOutcome O R A) Fut Sleep × World)
        → Held n x
        → ((run : AsyncRun Fut Sleep) (w : World)
            → Held n (still_pending run, w)
            → Held n (poll_times r wake polls fuel run w))
        → Held n (poll_again (poll_times r wake polls fuel) x)
    then-Held polls fuel (still_pending run, w) k rec = rec run w k
    then-Held polls fuel (is_ready outcome run, w) k rec = k
    then-Held polls fuel (has_panicked, w) k rec = k
    then-Held polls fuel (out_of_fuel, w) k rec = k

    -- A run that has been polled is polled on.
    poll_times-Held :
        (polls fuel : ℕ) (run : AsyncRun Fut Sleep) (w : World)
        → Held n (still_pending run, w)
        → Held n (poll_times r wake polls fuel run w)
    unfolding poll_times
    poll_times-Held zero fuel run w k = k
    poll_times-Held (suc polls) fuel run w (h, g) =
        then-Held polls fuel _ (poll-Held fuel run w g) (poll_times-Held polls fuel)

  -- What a future that has been polled leaves behind wherever it is dropped: however often it is
  -- polled, once or more, it never panics before it is ready; where it is pending in attempt n, it is
  -- in the operation, asleep or yielding, has called the before-hook n times, the after-hook n times,
  -- or n - 1 times where it is in the operation, and the exit hook not at all, so that a future
  -- dropped there leaves no exit; and where it is ready after n attempts it has called the two n times
  -- and the exit hook once; as any count of the world shows that goes up by `b`, `a` and `x` at these
  -- hooks and at nothing else, for n below u32::MAX.
  pub poll_times_counts :
      (polls fuel : ℕ) (w : World) → Seen (count w) (poll_times r wake (suc polls) fuel into_run w)
  unfolding into_run poll_times
  poll_times_counts polls fuel w = Seen-Held (count w) _ (
      then-Held (count w) polls fuel _
        (poll-Held (count w) fuel _ w (omega arith, tt, λ h. omega arith))
        (poll_times-Held (count w) polls fuel))
