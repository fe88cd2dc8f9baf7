-- ===== src/Clock/Runtime/FuturesTimer.antt =====
-- clock/futures_timer_clock.rs.
use relentless.Prelude.{ℕ}
use relentless.Effect.{Eff, ◌>>=◌, pure}
use relentless.Clock.{AsyncClock}
use relentless.Clock.Runtime.{Timer}

module _ {World Instant Delay : Type 0} (timer : Timer World Instant ℕ Delay) where
  pub record FuturesTimerClock : Type 0 where
    pub origin : Instant

  unfoldable pub new : Eff World FuturesTimerClock
  new = do origin ← timer.instant; pure (record { origin = origin })

  unfoldable pub clock : FuturesTimerClock → AsyncClock World Delay
  clock self = record {
    now = timer.elapsed self.origin;
    wait_async = timer.after;
    poll_wait = timer.poll_sleep;
  }
