-- ===== src/Examples/Scripted.antt =====
-- What examples/polling-terminal-failure.rs and examples/custom-outcome.rs share: an operation that
-- plays a script, called by a retry on a new virtual clock.
pub mod Decisive
pub mod Call
use relentless.Prelude.{ℕ, zero, suc, ◌+◌, min, Option, none, some, List, [], ◌∷◌, refl}
use relentless.Effect.{Eff, Cell}
use relentless.Decision.{Result}
use relentless.Clock.{VirtualTime, new}
use relentless.Engine.Error.{RetryError}
use relentless.Engine.Sync.{Retry, call}

-- The clock's cells and the poller's `idx`.
pub record Job : Type 0 where
  pub time : VirtualTime
  pub idx : ℕ

abbrev pub time_cell : Cell Job VirtualTime
time_cell = record { get = λ w. w.time; set = λ t w. record w { time = t }; get-set = λ t w. refl }

-- A script has a first element, and `last_index` is `script.len() - 1`. An index past the end panics
-- in the source; the poller never uses one.
pub record Script (O : Type 0) : Type 0 where
  pub first : O
  pub rest : List O

abbrev last_index_of : {O : Type 0} → List O → ℕ
last_index_of [] = 0
last_index_of (x ∷ xs) = suc (last_index_of xs)

unfoldable pub last_index : {O : Type 0} → Script O → ℕ
last_index script = last_index_of script.rest

abbrev nth : {O : Type 0} → O → List O → ℕ → O
nth x xs zero = x
nth x [] (suc i) = x
nth x (y ∷ ys) (suc i) = nth y ys i

unfoldable pub entry : {O : Type 0} → Script O → ℕ → O
entry script i = nth script.first script.rest i

unfoldable pub scripted_poller : {O : Type 0} → Script O → Eff Job O
scripted_poller script w =
    let i = min w.idx (last_index script) in (entry script i, record w { idx = i + 1 })

-- A new clock and a new poller.
abbrev pub fresh : Job
fresh = record { time = new; idx = 0 }
