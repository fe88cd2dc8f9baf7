-- ===== src/Engine/Elapsed.antt =====
-- engine/elapsed.rs: elapsed time, held to a non-decreasing sequence.
pub mod Watermark
use relentless.Prelude.{ℕ, max, Bool, Option, none, some, leb, if◌then◌else◌}
use relentless.Effect.{Eff, ◌>>=◌, pure}
use relentless.Duration.{saturating_sub}

pub record Elapsed : Type 0 where
  pub origin : ℕ
  pub highest : ℕ

-- What `read` does with a reading of the clock, in a release build.
unfoldable pub observe : Elapsed → ℕ → ℕ × Elapsed
observe e now =
    let seen = saturating_sub now e.origin in
    let highest = max e.highest seen in (highest, record e { highest = highest })

-- In a debug build `none` is the panic of the assertion that the reading has not gone back.
unfoldable pub observe_debug : Elapsed → ℕ → Option (ℕ × Elapsed)
unfolding observe
observe_debug e now =
    if leb e.highest (saturating_sub now e.origin) then some (observe e now) else none

module _ {World : Type 0} (now : Eff World ℕ) where
  unfoldable pub start : Eff World Elapsed
  start = do origin ← now; pure (record { origin = origin; highest = 0 })

  unfoldable pub read : Elapsed → Eff World (ℕ × Elapsed)
  read e = do reading ← now; pure (observe e reading)
