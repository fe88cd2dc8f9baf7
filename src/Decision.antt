-- ===== src/Decision.antt =====
-- decision.rs: verdicts, the outcome types that classify themselves, and the classifier slot.
use relentless.Prelude.{Option, none, some}
use relentless.Effect.{Eff, ◌>>=◌, pure}

-- Rust's `Result`, `ControlFlow` and `Infallible`.
pub data Result {ℓ κ} (T : Type ℓ) (E : Type κ) : Type (ℓ ⊔ κ) where
  ok : T → Result T E
  err : E → Result T E

pub data ControlFlow {ℓ κ} (B : Type ℓ) (C : Type κ) : Type (ℓ ⊔ κ) where
  break : B → ControlFlow B C
  carry_on : C → ControlFlow B C

abbrev pub Infallible : Type 0
Infallible = ⊥

pub data Decision {ℓ κ} (R : Type ℓ) (O : Type κ) : Type (ℓ ⊔ κ) where
  return : R → Decision R O
  retry : O → Decision R O

pub data Verdict {ℓ κ ι} (R : Type ℓ) (A : Type κ) (O : Type ι) : Type (ℓ ⊔ κ ⊔ ι) where
  return : R → Verdict R A O
  retry : O → Verdict R A O
  abort : A → Verdict R A O

-- The trait `Outcome`: `R` and `A` are its associated types.
pub record Outcome (O R A : Type 0) : Type 0 where
  pub classify : O → Verdict R A O

unfoldable pub classify_result : {T E : Type 0} → Result T E → Verdict T E (Result T E)
classify_result (ok value) = Verdict.return value
classify_result (err e) = Verdict.retry (err e)

unfoldable pub classify_option : {T : Type 0} → Option T → Verdict T Infallible (Option T)
classify_option (some value) = Verdict.return value
classify_option none = Verdict.retry none

unfoldable pub classify_control_flow :
    {B C : Type 0} → ControlFlow B C → Verdict B Infallible (ControlFlow B C)
classify_control_flow (break value) = Verdict.return value
classify_control_flow (carry_on c) = Verdict.retry (carry_on c)

instance unfoldable pub result_outcome : {T E : Type 0} → Outcome (Result T E) T E
unfolding classify_result
result_outcome = record { classify = classify_result }

instance unfoldable pub option_outcome : {T : Type 0} → Outcome (Option T) T Infallible
unfolding classify_option
option_outcome = record { classify = classify_option }

instance unfoldable pub control_flow_outcome :
    {B C : Type 0} → Outcome (ControlFlow B C) B Infallible
unfolding classify_control_flow
control_flow_outcome = record { classify = classify_control_flow }

-- The trait `Decide`, which the retry loop drives. The receiver is `&self`, so a classifier may
-- touch the world through a cell.
pub record Decide (World O R A : Type 0) : Type 0 where
  pub decide : O → Eff World (Verdict R A O)

unfoldable pub default_classifier :
    {World O R A : Type 0} ⦃outcome : Outcome O R A⦄ → Decide World O R A
default_classifier ⦃outcome⦄ = record { decide = λ o. pure (outcome.classify o) }

-- The trait `IntoDecision`.
pub record IntoDecision (D O R A : Type 0) : Type 0 where
  pub into_verdict : D → Verdict R A O

unfoldable pub into_verdict_decision : {R O : Type 0} → Decision R O → Verdict R Infallible O
into_verdict_decision (Decision.return r) = Verdict.return r
into_verdict_decision (Decision.retry o) = Verdict.retry o

instance unfoldable pub decision_into : {R O : Type 0} → IntoDecision (Decision R O) O R Infallible
unfolding into_verdict_decision
decision_into = record { into_verdict = into_verdict_decision }

instance unfoldable pub verdict_into : {R A O : Type 0} → IntoDecision (Verdict R A O) O R A
verdict_into = record { into_verdict = λ v. v }

unfoldable pub closure_classifier :
    {World O R A D : Type 0} ⦃into : IntoDecision D O R A⦄ → (O → Eff World D) → Decide World O R A
closure_classifier ⦃into⦄ closure = record {
  decide = λ o. (do d ← closure o; pure (into.into_verdict d));
}

-- `impl Decide for &C` forwards.
abbrev by_ref_decide : {World O R A : Type 0} → Decide World O R A → Decide World O R A
by_ref_decide inner = record { decide = λ outcome. inner.decide outcome }
