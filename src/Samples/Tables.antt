-- ===== src/Samples/Tables.antt =====
-- The stop strategies, predicates, elapsed readings and the virtual clock, at concrete values.
use relentless.Prelude.{Bool, true, ℕ, ◌+◌, ◌≡◌, refl, none, leb}
use relentless.Effect.{Eff}
use relentless.State.{RetryState}
use relentless.Decision.{result_outcome}
use relentless.Predicate.{Predicate, error}
use relentless.Stop.{Stop, stop_any, stop_all, stop_after_attempts}
use relentless.Stop
use relentless.Stop.Builtin.{Strategy, any, all, interpret, fires}

-- Five attempts, or three once 50 have passed.
abbrev strategy : Strategy
strategy = any (Strategy.attempts 5) (all (Strategy.attempts 3) (Strategy.elapsed 50))

abbrev world : ℕ
world = 0

abbrev at : ℕ → ℕ → RetryState
at attempt elapsed = record { attempt = attempt; elapsed = elapsed; previous_delay = none }

fires_first : fires strategy (at 3 50) world ≡ true
unfolding interpret stop_any stop_all stop_after_attempts Stop.elapsed
fires_first = refl

-- A strategy that counts its calls.
abbrev counting : ℕ → Stop ℕ
counting n = record { should_stop = λ s w. (leb n w, w + 1) }

abbrev small_error : Predicate ℕ ℕ ℕ
small_error = error (λ e w. (leb e 4, w + 1))

abbrev small : ℕ → Eff ℕ Bool
small n w = (leb n 10, w + 1)
