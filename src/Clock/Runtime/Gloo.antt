-- ===== src/Clock/Runtime/Gloo.antt =====
-- clock/gloo_clock.rs: durations as milliseconds.
use relentless.Prelude.{ℕ, ◌+◌, ◌*◌, ◌≤◌, ◌<◌, ◌≡◌, min, arith}
use relentless.Effect.{Eff}
use relentless.Clock.{Poll, AsyncClock}
use relentless.Duration.{as_millis}

abbrev pub i32_max : ℕ
i32_max = 2147483647

-- The milliseconds that `wait_async` hands to `TimeoutFuture::new`.
unfoldable pub timeout_millis : ℕ → ℕ
timeout_millis dur = min (as_millis dur) i32_max

module _ {World Sleep : Type 0} (timeout_future : ℕ → Eff World Sleep)
    (poll_timeout : Sleep → Eff World (Poll (Unit {0}) × Sleep)) where
  pub record GlooClock : Type 0 where
    pub now : Eff World ℕ

  unfoldable pub with_now : Eff World ℕ → GlooClock
  with_now now = record { now = now }

  unfoldable pub clock : GlooClock → AsyncClock World Sleep
  clock self = record {
    now = self.now;
    wait_async = λ dur. timeout_future (timeout_millis dur);
    poll_wait = poll_timeout;
  }

-- The milliseconds that a wait is handed over as never leave the range of the platform's timer;
-- within that range they are the wait rounded down, so less than a millisecond short of it; and a
-- wait of less than a millisecond is handed over as 0.
pub timeout_millis-near :
    (dur : ℕ)
    → (timeout_millis dur ≤ i32_max)
      × (timeout_millis dur * 1_000_000 ≤ dur)
      × (dur < (i32_max + 1) * 1_000_000 → dur < timeout_millis dur * 1_000_000 + 1_000_000)
      × (dur < 1_000_000 → timeout_millis dur ≡ 0)
unfolding timeout_millis
timeout_millis-near dur = (omega arith, omega arith, λ h. omega (arith, h), λ h. omega (arith, h))
