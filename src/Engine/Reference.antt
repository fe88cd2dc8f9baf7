-- ===== src/Engine/Reference.antt =====
-- What a retry promises, with no clock, no world and no saturation: a plain function of what the
-- operation would answer at each attempt and how long it would take.
pub mod Elapsed
pub mod Pass
pub mod Refines
pub mod Ends
pub mod Schedule
pub mod TimedOut
pub mod Polled
use relentless.Prelude.{
  ℕ, zero, suc, ◌+◌, ◌-◌, min, Bool, true, false, ◌||◌, ◌==◌, Option, none, some, List, [], ◌∷◌,
  leb, if◌then◌else◌,
}
use relentless.State.{RetryState}
use relentless.Decision.{Result, ok, err, Verdict}
use relentless.Engine.Termination.{StopReason, RetryStats}
use relentless.Engine.Error.{RetryError}
use relentless.Engine.Sync.{RunOutcome}

-- A policy without effects.
pub record Rules (O R A : Type 0) : Type 0 where
  pub classify : O → Verdict R A O
  pub stops : RetryState → Bool
  pub delay : RetryState → ℕ
  pub timeout : Option ℕ

-- What a run leaves behind: what it returns, and the waits that it performed.
pub record Account (O R A : Type 0) : Type 0 where
  pub outcome : RunOutcome O R A
  pub waits : List ℕ

-- The part of a wait that fits before the deadline.
abbrev pub fitting : Option ℕ → ℕ → ℕ → ℕ
fitting none now delay = delay
fitting (some t) now delay = min delay (t - now)

abbrev pub is_over : Option ℕ → ℕ → Bool
is_over none now = false
is_over (some t) now = leb t now

-- A zero wait is not performed.
abbrev pub performed : ℕ → List ℕ → List ℕ
performed d ds = if d == 0 then ds else d ∷ ds

abbrev pub waited_first : {O R A : Type 0} → ℕ → Option (Account O R A) → Option (Account O R A)
waited_first d none = none
waited_first d (some a) = some (record a { waits = performed d a.waits })

module _ {O R A : Type 0} (rules : Rules O R A) (answer : ℕ → O) (cost : ℕ → ℕ) where
  abbrev pub ending :
      Result R (RetryError A O) → StopReason → (attempt now waited : ℕ) → Option (Account O R A)
  ending result reason attempt now waited = some (record {
    outcome = (
      result,
      record { attempts = attempt; total_elapsed = now; total_wait = waited; stop_reason = reason },
    );
    waits = [];
  })

  -- What a verdict leads to; `rest` is the account of the attempts after a delay.
  abbrev pub settled :
      (rest : ℕ → Option (Account O R A)) (attempt now waited : ℕ)
      → Option ℕ
      → Verdict R A O
      → Option (Account O R A)
  settled rest attempt now waited last_delay (Verdict.return v) =
      ending (ok v) StopReason.returned attempt now waited
  settled rest attempt now waited last_delay (Verdict.abort a) =
      ending (err (RetryError.aborted a)) StopReason.aborted attempt now waited
  settled rest attempt now waited last_delay (Verdict.retry o) =
      let s : RetryState = record {
        attempt = attempt;
        elapsed = now;
        previous_delay = last_delay;
      } in
      let d = fitting rules.timeout now (rules.delay s) in
      if rules.stops s || is_over rules.timeout now
      then ending (err (RetryError.exhausted o)) StopReason.exhausted attempt now waited
      else waited_first d (rest d)

  -- From an attempt on: how long ago the run started, how long it has waited, and the last delay.
  unfoldable pub account : ℕ → (attempt now waited : ℕ) → Option ℕ → Option (Account O R A)
  account zero attempt now waited last_delay = none
  account (suc fuel) attempt now waited last_delay =
      let after = now + cost attempt in
      settled (λ d. account fuel (suc attempt) (after + d) (waited + d) (some d)) attempt after
        waited last_delay (rules.classify (answer attempt))

  -- A whole run.
  unfoldable pub account_of : ℕ → Option (Account O R A)
  unfolding account
  account_of fuel = account fuel 1 0 0 none
