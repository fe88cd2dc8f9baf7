-- ===== src/Engine/Async/Reach.antt =====
-- The states of a future that polls can reach.
use relentless.Prelude.{ℕ, zero, suc}
use relentless.Effect.{Eff}
use relentless.Engine.Sync.{RunOutcome}
use relentless.Engine.Async.{
  AsyncRetry, AsyncRun, Turn, again, parked, resolved, panicked, Polled, still_pending, is_ready,
  has_panicked, out_of_fuel, poll, into_run,
}
use relentless.Engine.Async.Executor.{after_turn, poll_step}
use relentless.Engine.Async.Cancellation.{poll_times, poll_again}
use relentless.Engine.Async.Sound.{Sound, Reaches-Sound, into_run-Sound}
use relentless.Engine.Async.Machine.{Reaches, stay, move, Moved, turn-Moved}

-- The state in which polls leave a run, where they leave one.
abbrev pub At :
    {O R A Fut Sleep : Type 0}
    → (AsyncRun Fut Sleep → Type 0)
    → Polled (RunOutcome O R A) Fut Sleep
    → Type 0
At P (still_pending run) = P run
At P (is_ready outcome run) = P run
At P has_panicked = Unit {0}
At P out_of_fuel = Unit {0}

module _ {World O R A Fut Sleep : Type 0} (r : AsyncRetry World O R A Fut Sleep)
    (wake : Eff World (Unit {0})) where
  module _ (origin : AsyncRun Fut Sleep) where
    after :
        (fuel : ℕ) (run : AsyncRun Fut Sleep) (t : Turn O R A Fut Sleep) (w : World)
        → Reaches origin run
        → Moved r wake run t
        → ((run : AsyncRun Fut Sleep) (w : World)
            → Reaches origin run
            → At (Reaches origin) (poll r wake fuel run w).0)
        → At (Reaches origin) (after_turn r wake fuel (t, w)).0
    after fuel run (again run') w h m rec = rec run' w (move h m)
    after fuel run (parked run') w h m rec = move h m
    after fuel run (resolved outcome run') w h m rec = move h m
    after fuel run panicked w h m rec = tt

    poll-Reaches :
        (fuel : ℕ) (run : AsyncRun Fut Sleep) (w : World)
        → Reaches origin run
        → At (Reaches origin) (poll r wake fuel run w).0
    poll-Reaches zero run w h = unfold poll in tt
    poll-Reaches (suc fuel) run w h =
        rw (poll_step r wake fuel run w)
          (after fuel run _ _ h (turn-Moved r wake run w) (poll-Reaches fuel))

    then-Reaches :
        (polls fuel : ℕ) (x : Polled (RunOutcome O R A) Fut Sleep × World)
        → At (Reaches origin) x.0
        → ((run : AsyncRun Fut Sleep) (w : World)
            → Reaches origin run
            → At (Reaches origin) (poll_times r wake polls fuel run w).0)
        → At (Reaches origin) (poll_again (poll_times r wake polls fuel) x).0
    then-Reaches polls fuel (still_pending run, w) h rec = rec run w h
    then-Reaches polls fuel (is_ready outcome run, w) h rec = h
    then-Reaches polls fuel (has_panicked, w) h rec = tt
    then-Reaches polls fuel (out_of_fuel, w) h rec = tt

    poll_times-Reaches :
        (polls fuel : ℕ) (run : AsyncRun Fut Sleep) (w : World)
        → Reaches origin run
        → At (Reaches origin) (poll_times r wake polls fuel run w).0
    unfolding poll_times
    poll_times-Reaches zero fuel run w h = h
    poll_times-Reaches (suc polls) fuel run w h =
        then-Reaches polls fuel _ (poll-Reaches fuel run w h) (poll_times-Reaches polls fuel)

  At-map :
      {P Q : AsyncRun Fut Sleep → Type 0} (x : Polled (RunOutcome O R A) Fut Sleep)
      → ((run : AsyncRun Fut Sleep) → P run → Q run)
      → At P x
      → At Q x
  At-map (still_pending run) f h = f run h
  At-map (is_ready outcome run) f h = f run h
  At-map has_panicked f h = h
  At-map out_of_fuel f h = h

  -- The state machine of a future is sound: from the start, however often it is polled, the run has
  -- made only moves of the machine, its attempt lies between 1 and u32::MAX, its total wait within
  -- the range of durations, it has no previous delay only in the first attempt and with nothing
  -- waited, it sleeps only for a delay that is not zero and yields only for one that is, and
  -- it has its time baseline from the first turn on.
  pub poll_times-Sound :
      (polls fuel : ℕ) (w : World)
      → At (λ run. Reaches into_run run × Sound run) (poll_times r wake polls fuel into_run w).0
  poll_times-Sound polls fuel w =
      At-map {P = Reaches into_run} {Q = λ run. Reaches into_run run × Sound run} _
        (λ run reached. (reached, Reaches-Sound into_run run into_run-Sound reached))
        (poll_times-Reaches into_run polls fuel into_run w stay)
