-- ===== src/Engine/Reference/Schedule.antt =====
-- The account of an operation that fails a number of times and then succeeds.
use relentless.Prelude.{ℕ, suc, ◌+◌, ◌<◌, ◌≡◌, ap, ◌++◌, false, none, some, arith}
use relentless.Effect.{Cell}
use relentless.Duration.{u32_max, IsDuration}
use relentless.State.{RetryState}
use relentless.Decision.{ok, Verdict}
use relentless.Clock.{VirtualTime}
use relentless.Clock.Virtual.{sum}
use relentless.Engine.Termination.{StopReason}
use relentless.Engine.Hooks.{ExecutionHooks}
use relentless.Engine.Sync.{RetryOp, run}
use relentless.Engine.Reference.{Rules, settled}
use relentless.Engine.Reference.Pass.{Plays, on_virtual_clock}
use relentless.Engine.Reference.Ends.{nonzero, delays, costs, EndsAt, run-ends}

module _ {O R A : Type 0} (rules : Rules O R A) (answer : ℕ → O) (cost schedule : ℕ → ℕ) (last : ℕ)
    (v : R) where
  -- The operation answers with failures before the attempt `last`, and there with the value `v`; the stop
  -- strategy lets all these attempts go on, there is no timeout, and the delays go by the attempt.
  pub record SucceedsAt : Type 0 where
    pub fails : (i : ℕ) → 0 < i → i < last → (o : O) × (rules.classify (answer i) ≡ Verdict.retry o)
    pub succeeds : rules.classify (answer last) ≡ Verdict.return v
    pub goes_on : (s : RetryState) → s.attempt < last → rules.stops s ≡ false
    pub paced : (s : RetryState) → rules.delay s ≡ schedule s.attempt
    pub untimed : rules.timeout ≡ none

  ends_well : SucceedsAt → EndsAt rules answer cost schedule last (ok v) StopReason.returned
  ends_well h = record {
    again = h.fails;
    goes_on = h.goes_on;
    ends = λ rest now waited previous.
        ap (settled rules answer cost rest last now waited previous) h.succeeds;
    paced = h.paced;
    untimed = h.untimed;
  }

module _ {O R A : Type 0} (rules : Rules O R A) (answer : ℕ → O) (cost schedule : ℕ → ℕ)
    (v : R) where
  -- An operation that fails before attempt k + 1 and succeeds there is called k + 1 times and waits
  -- by the schedule: on a virtual clock, for an operation that plays such a script, under a stop
  -- strategy that lets these attempts go on, no timeout, delays that go by the attempt, and hooks
  -- that leave the clock and the place in the script alone, from a world that stands before the
  -- script's first attempt, the run returns the value after k + 1
  -- attempts, having waited the delays of attempts 1 to k in order (those that are zero are not
  -- performed), and it reports their sum as its total wait and the sum of these delays and of what
  -- the k + 1 calls cost as its elapsed time, by which the clock has moved; where these lie within
  -- the clock's range and k + 1 within the range of attempt numbers.
  pub run-delays :
      {World : Type 0} (clock : Cell World VirtualTime) (op : RetryOp World O)
      (hooks : ExecutionHooks World O R A) {At : ℕ → World → Type 0}
      → Plays clock op hooks answer cost At
      → (k : ℕ) (w : World) → SucceedsAt rules answer cost schedule (suc k) v
      → suc k < u32_max
      → At 1 w
      → IsDuration ((clock.get w).now + (costs cost k 1 + sum (delays schedule k 1)))
      → (w' : World) × (run (on_virtual_clock clock rules op hooks) (suc k) w
          ≡ some (
            (
              ok v,
              record {
                attempts = suc k;
                total_elapsed = costs cost k 1 + sum (delays schedule k 1);
                total_wait = sum (delays schedule k 1);
                stop_reason = StopReason.returned;
              },
            ),
            w',
          ))
        × (clock.get w' ≡ record {
          now = (clock.get w).now + (costs cost k 1 + sum (delays schedule k 1));
          waits = (clock.get w).waits ++ nonzero (delays schedule k 1);
        })
  run-delays clock op hooks plays k w h =
      run-ends rules answer cost schedule (ok v) StopReason.returned clock op hooks plays k (suc k)
        w (ends_well rules answer cost schedule (suc k) v h) (omega arith)
