-- ===== src/Examples/AsyncCancel/Stands.antt =====
-- What each turn of the future of examples/async-cancel.rs does, on a timer that rings on time.
use Prim.Native.String.{String}
use relentless.Prelude.{
  ℕ, ◌+◌, ◌≤◌, ◌<◌, min, ◌≡◌, refl, leb, true, false, Option, none, some, if◌then◌else◌, arith,
}
use relentless.Effect.{Eff}
use relentless.Duration.{u32_max, from_millis, saturating_add}
use relentless.State.{for_attempt, with_elapsed, with_previous_delay}
use relentless.Decision.{err, default_classifier, classify_result, result_outcome}
use relentless.Stop.{stop_after_attempts}
use relentless.Wait.{fixed}
use relentless.Clock.{ready, pending}
use relentless.Clock.Runtime.{Timer}
use relentless.Clock.Runtime.Tokio.{TokioClock}
use relentless.Clock.Runtime.Tokio
use relentless.Engine.Elapsed.{Elapsed, start, read, observe}
use relentless.Engine.Hooks.{no_hooks}
use relentless.Engine.Step.{Progress, Step, step, settle, exhaust, back_off, retry_state}
use relentless.Engine.Sync.{before_state}
use relentless.Engine.Async.{
  AsyncRetry, AsyncRun, Phase, ready_to_start, polling, sleeping, Turn, again, parked, Polled,
  still_pending, poll, turn, turn_in, begin_attempt, complete_attempt, after_step, next_attempt,
  into_run,
}
use relentless.Engine.Async as Async
use relentless.Examples.AsyncCancel.{
  Reply, FlakyCall, unpolled, waiting, poll_flaky, flaky_network_call,
}

-- A timer that rings on time: reading it and making a sleep leave the world alone, and a sleep is
-- pending before its end and ready from then on, whoever polls it.
pub record RingsOnTime {World Instant Sleep : Type 0} (timer : Timer World Instant ℕ Sleep)
    (time : World → ℕ) : Type 0 where
  pub until : ℕ → Sleep
  pub since : Instant → World → ℕ
  pub elapses : (o : Instant) (w : World) → timer.elapsed o w ≡ (since o w, w)
  pub starts : (d : ℕ) (w : World) → timer.after d w ≡ (until (time w + d), w)
  pub rings :
      (u : ℕ) (w : World)
      → timer.poll_sleep (until u) w ≡ ((if leb u (time w) then ready tt else pending, until u), w)

module _ {World Instant Sleep : Type 0} (timer : Timer World Instant ℕ Sleep) (message : ℕ → String)
    (tokio : TokioClock timer) (wake : Eff World (Unit {0})) where
  abbrev pub flaky : AsyncRetry World Reply String String (FlakyCall Sleep) Sleep
  flaky = record {
    op = flaky_network_call timer message;
    clock = Tokio.clock timer tokio;
    policies = record {
      classifier = default_classifier;
      stop = stop_after_attempts 10;
      wait = fixed (from_millis 50);
      timeout = none;
      hooks = no_hooks;
    };
  }

  abbrev pub Run : Type 0
  Run = AsyncRun (FlakyCall Sleep) Sleep

  module _ {time : World → ℕ} (on_time : RingsOnTime timer time) where
    open on_time use {until, since}

    abbrev pub standing : Phase (FlakyCall Sleep) Sleep → ℕ → Option ℕ → ℕ → Elapsed → Run
    standing phase n previous waited e = record {
      phase = phase;
      attempt = n;
      previous_delay = previous;
      total_wait = waited;
      elapsed = some e;
    }

    -- In attempt `n`, whose call is over at the time `u`.
    abbrev pub Calling : ℕ → ℕ → Run → Type 0
    Calling n u run =
        (previous : Option ℕ) × (waited : ℕ) × (e : Elapsed) × (run
          ≡ standing (polling (waiting n (until u))) n previous waited e)

    -- After attempt `n`, asleep until the time `u`.
    abbrev pub Asleep : ℕ → ℕ → Run → Type 0
    Asleep n u run =
        (previous : Option ℕ) × (waited : ℕ) × (e : Elapsed) × (run
          ≡ standing (sleeping (until u)) n previous waited e)

    rung_early :
        (u : ℕ) (w : World) → time w < u → timer.poll_sleep (until u) w ≡ ((pending, until u), w)
    rung_early u w early =
        let rung : leb u (time w) ≡ false = ground arith in rw (on_time.rings u w, rung) refl

    rung_late :
        (u : ℕ) (w : World) → u ≤ time w → timer.poll_sleep (until u) w ≡ ((ready tt, until u), w)
    rung_late u w late =
        let rung : leb u (time w) ≡ true = ground arith in rw (on_time.rings u w, rung) refl

    module _ (n u : ℕ) (w : World) where
      flaky_early :
          time w < u
          → poll_flaky timer message (waiting n (until u)) w ≡ ((pending, waiting n (until u)), w)
      unfolding poll_flaky
      flaky_early early = ground (arith, rung_early u w early)

      flaky_late :
          u ≤ time w
          → poll_flaky timer message (waiting n (until u)) w
            ≡ ((ready (err (message n)), waiting n (until u)), w)
      unfolding poll_flaky
      flaky_late late = ground (arith, rung_late u w late)

      flaky_first :
          poll_flaky timer message (unpolled n) w
          ≡ ((pending, waiting n (until (time w + 40_000_000))), w)
      unfolding poll_flaky
      flaky_first =
          ground
            (arith, on_time.starts 40_000_000 w, rung_early (time w + 40_000_000) w (omega arith))

    -- The clock's reading, as the engine keeps it.
    abbrev pub observed : Elapsed → World → Elapsed
    observed e w = (observe e (since tokio.origin w)).1

    reads :
        (e : Elapsed) (w : World)
        → read (timer.elapsed tokio.origin) e w
          ≡ (((observe e (since tokio.origin w)).0, observed e w), w)
    unfolding read
    reads e w = rw (on_time.elapses tokio.origin w) refl

    steps :
        (p : Progress) (m : String) (w : World)
        → p.attempt < 10
        → step flaky.policies p (err m) w
          ≡ (Step.continue 50_000_000 (saturating_add p.total_wait 50_000_000), w)
    unfolding step settle exhaust back_off default_classifier result_outcome classify_result
        stop_after_attempts fixed retry_state for_attempt with_elapsed with_previous_delay
    steps p m w few = let going : leb 10 p.attempt ≡ false = ground arith in rw going refl

    module _ (n u : ℕ) (previous : Option ℕ) (waited : ℕ) (e : Elapsed) (w : World) where
      pub turn_calling :
          time w < u
          → let run = standing (polling (waiting n (until u))) n previous waited e in
            turn flaky wake run w ≡ (parked run, w)
      unfolding turn turn_in flaky_network_call
      turn_calling early = ground (arith, flaky_early n u w early)

      pub turn_asleep :
          time w < u
          → let run = standing (sleeping (until u)) n previous waited e in
            turn flaky wake run w ≡ (parked run, w)
      unfolding turn turn_in Tokio.clock
      turn_asleep early = ground (arith, rung_early u w early)

      pub turn_woken :
          u ≤ time w
          → turn flaky wake (standing (sleeping (until u)) n previous waited e) w
            ≡ (again (standing ready_to_start (min (n + 1) u32_max) previous waited e), w)
      unfolding turn turn_in Tokio.clock next_attempt
      turn_woken late = ground (arith, rung_late u w late)

      pub turn_begins :
          turn flaky wake (standing ready_to_start n previous waited e) w
          ≡ (again (standing (polling (unpolled n)) n previous waited (observed e w)), w)
      unfolding turn turn_in begin_attempt Tokio.clock flaky_network_call before_state for_attempt
          with_elapsed with_previous_delay
      turn_begins = ground (arith, reads e w)

      pub turn_calls : turn flaky wake (standing (polling (unpolled n)) n previous waited e) w ≡ (
        parked (standing (polling (waiting n (until (time w + 40_000_000)))) n previous waited e),
        w,
      )
      unfolding turn turn_in flaky_network_call
      turn_calls = ground (arith, flaky_first n u w)

      pub turn_called :
          u ≤ time w
          → n < 10
          → turn flaky wake (standing (polling (waiting n (until u))) n previous waited e) w ≡ (
            again (
                standing
                  (sleeping (until (time w + 50_000_000)))
                  n
                  (some 50_000_000)
                  (saturating_add waited 50_000_000)
                  (observed e w)),
            w,
          )
      unfolding turn turn_in flaky_network_call complete_attempt after_step Async.back_off
          Tokio.clock
      turn_called late few =
          let p : Progress = record {
            attempt = n;
            elapsed = (observe e (since tokio.origin w)).0;
            previous_delay = previous;
            total_wait = waited;
          } in
          ground (
            arith,
            flaky_late n u w late,
            reads e w,
            steps p (message n) w few,
            on_time.starts 50_000_000 w,
          )

    -- The baseline of the elapsed time, at the first poll.
    abbrev pub baseline : World → Elapsed
    baseline w = record { origin = since tokio.origin w; highest = 0 }

    pub turn_starts :
        (w : World)
        → turn flaky wake into_run w
          ≡ (again (standing (polling (unpolled 1)) 1 none 0 (observed (baseline w) w)), w)
    unfolding turn into_run turn_in begin_attempt Tokio.clock flaky_network_call before_state
        for_attempt with_elapsed with_previous_delay start
    turn_starts w = ground (arith, on_time.elapses tokio.origin w, reads (baseline w) w)
