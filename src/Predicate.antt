-- ===== src/Predicate.antt =====
-- predicate/mod.rs and predicate/classifier.rs: predicates over a `Result` outcome, and the
-- classifiers `.when` and `.until` that are built from one.
pub mod Laws
use relentless.Prelude.{◌≡◌, Bool, true, false}
use relentless.Effect.{Eff, ◌>>=◌, pure}
use relentless.Decision.{Result, ok, err, Verdict, Decide}

pub record Predicate (World T E : Type 0) : Type 0 where
  pub should_retry : Result T E → Eff World Bool

abbrev is_err : {T E : Type 0} → Result T E → Bool
is_err (ok _) = false
is_err (err _) = true

abbrev accept : {T E : Type 0} → Result T E → Verdict T E (Result T E)
accept (ok value) = Verdict.return value
accept (err e) = Verdict.abort e

abbrev when_verdict : {T E : Type 0} → Bool → Result T E → Verdict T E (Result T E)
when_verdict true o = Verdict.retry o
when_verdict false o = accept o

abbrev until_verdict : {T E : Type 0} → Bool → Result T E → Verdict T E (Result T E)
until_verdict true o = accept o
until_verdict false o = Verdict.retry o

module _ {World T E : Type 0} where
  -- Any `Fn(&Result<T, E>) -> bool`.
  unfoldable pub closure_predicate : (Result T E → Eff World Bool) → Predicate World T E
  closure_predicate closure = record { should_retry = closure }

  unfoldable pub any_error : Predicate World T E
  any_error = record { should_retry = λ o. pure (is_err o) }

  abbrev match_error : (E → Eff World Bool) → Result T E → Eff World Bool
  match_error matcher (ok _) = pure false
  match_error matcher (err e) = matcher e

  unfoldable pub error : (E → Eff World Bool) → Predicate World T E
  error matcher = record { should_retry = match_error matcher }

  unfoldable pub result : (Result T E → Eff World Bool) → Predicate World T E
  result matcher = record { should_retry = matcher }

  abbrev match_ok : (T → Eff World Bool) → Result T E → Eff World Bool
  match_ok matcher (ok v) = matcher v
  match_ok matcher (err _) = pure false

  unfoldable pub ok_if : (T → Eff World Bool) → Predicate World T E
  ok_if matcher = record { should_retry = match_ok matcher }

  unfoldable pub when : Predicate World T E → Decide World (Result T E) T E
  when p = record { decide = λ o. (do again ← p.should_retry o; pure (when_verdict again o)) }

  unfoldable pub until : Predicate World T E → Decide World (Result T E) T E
  until p = record { decide = λ o. (do reached ← p.should_retry o; pure (until_verdict reached o)) }

-- The impls for boxed predicates forward.
abbrev boxed_predicate : {World T E : Type 0} → Predicate World T E → Predicate World T E
boxed_predicate inner = record { should_retry = λ outcome. inner.should_retry outcome }
