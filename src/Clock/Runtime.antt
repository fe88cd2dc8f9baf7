-- ===== src/Clock/Runtime.antt =====
-- clock/system_clock.rs, tokio_clock.rs, embassy_clock.rs, gloo_clock.rs and futures_timer_clock.rs:
-- the clocks over a platform's own timers, which are parameters.
pub mod System
pub mod Tokio
pub mod FuturesTimer
pub mod Embassy
pub mod Gloo
use relentless.Effect.{Eff}
use relentless.Clock.{Poll}

-- A runtime's own timer: its instants, the time since one of them, and its sleep future.
pub record Timer (World Instant Length Sleep : Type 0) : Type 0 where
  pub instant : Eff World Instant
  pub elapsed : Instant → Eff World Length
  pub after : Length → Eff World Sleep
  pub poll_sleep : Sleep → Eff World (Poll (Unit {0}) × Sleep)
