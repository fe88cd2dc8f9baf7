-- ===== src/Clock/Runtime/Tokio.antt =====
-- clock/tokio_clock.rs.
use relentless.Prelude.{ℕ}
use relentless.Effect.{Eff, ◌>>=◌, pure}
use relentless.Clock.{AsyncClock}
use relentless.Clock.Runtime.{Timer}

module _ {World Instant Sleep : Type 0} (timer : Timer World Instant ℕ Sleep) where
  pub record TokioClock : Type 0 where
    pub origin : Instant

  unfoldable pub new : Eff World TokioClock
  new = do origin ← timer.instant; pure (record { origin = origin })

  unfoldable pub clock : TokioClock → AsyncClock World Sleep
  clock self = record {
    now = timer.elapsed self.origin;
    wait_async = timer.after;
    poll_wait = timer.poll_sleep;
  }
