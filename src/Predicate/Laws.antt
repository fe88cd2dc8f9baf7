-- ===== src/Predicate/Laws.antt =====
-- What the predicate classifiers promise: `.when` against `.until`, the default classifier, and
-- what becomes of each outcome.
use relentless.Prelude.{◌≡◌, refl, Bool, true, false, not, arith}
use relentless.Effect.{Eff, ◌>>=◌, pure}
use relentless.Decision.{Result, ok, err, Verdict, default_classifier, result_outcome}
use relentless.Predicate.{Predicate, any_error, error, ok_if, when, until}

-- The verdict keeps the outcome: a returned value, an abort payload and a retried outcome are
-- those of the outcome itself.
abbrev pub Keeps : {T E : Type 0} → Result T E → Verdict T E (Result T E) → Type 0
Keeps o (Verdict.return value) = o ≡ ok value
Keeps o (Verdict.abort e) = o ≡ err e
Keeps o (Verdict.retry o') = o ≡ o'

abbrev pub is_retry : {T E : Type 0} → Verdict T E (Result T E) → Bool
is_retry (Verdict.retry _) = true
is_retry _ = false

module _ {World T E : Type 0} where
  abbrev pub negated : Predicate World T E → Predicate World T E
  negated p = record { should_retry = λ o. (do answer ← p.should_retry o; pure (not answer)) }

  -- `.until(p)` is `.when` of the negated predicate, for every outcome and world, effects included.
  pub until-when-negated :
      (p : Predicate World T E) (o : Result T E) (w : World)
      → (until p).decide o w ≡ (when (negated p)).decide o w
  unfolding until when
  until-when-negated p o w = ground arith

  -- Classifying a `Result` by default is `.when(any_error())`: an `Ok` returns, an `Err` retries,
  -- nothing aborts, and the world is untouched.
  pub default_classifier-when-any_error :
      (o : Result T E) (w : World) → default_classifier.decide o w ≡ (when any_error).decide o w
  unfolding default_classifier result_outcome when any_error
  default_classifier-when-any_error (ok v) w = refl
  default_classifier-when-any_error (err e) w = refl

  when-Keeps_of :
      (p : Predicate World T E) (o : Result T E) (w : World) → Keeps o ((when p).decide o w).0
  unfolding when
  when-Keeps_of p (ok v) w = ground arith
  when-Keeps_of p (err e) w = ground arith

  until-Keeps_of :
      (p : Predicate World T E) (o : Result T E) (w : World) → Keeps o ((until p).decide o w).0
  unfolding until
  until-Keeps_of p (ok v) w = ground arith
  until-Keeps_of p (err e) w = ground arith

  -- `.when` retries exactly when the predicate holds and `.until` exactly when it does not; either
  -- way the verdict carries the outcome's own value, error, or the whole outcome.
  pub when-until_verdicts :
      (p : Predicate World T E) (o : Result T E) (w : World)
      → (is_retry ((when p).decide o w).0 ≡ (p.should_retry o w).0)
        × (is_retry ((until p).decide o w).0 ≡ not (p.should_retry o w).0)
        × Keeps o ((when p).decide o w).0
        × Keeps o ((until p).decide o w).0
  unfolding when until
  when-until_verdicts p (ok v) w =
      (ground arith, ground arith, when-Keeps_of p (ok v) w, until-Keeps_of p (ok v) w)
  when-until_verdicts p (err e) w =
      (ground arith, ground arith, when-Keeps_of p (err e) w, until-Keeps_of p (err e) w)

  -- Polling: `.until(ok(f))` returns an `Ok` that satisfies `f`, retries any other outcome, and
  -- never aborts. `.when(error(f))` returns every `Ok`, retries an `Err` that satisfies `f`, and
  -- aborts with any other error.
  pub polling_table :
      (f : T → Eff World Bool) (g : E → Eff World Bool) (v : T) (e : E) (w : World)
      → ((until (ok_if {E = E} f)).decide (ok v) w
          ≡ (f v >>= λ b. pure (elim b [ true ↦ Verdict.return v | false ↦ Verdict.retry (ok v) ]))
              w)
        × ((until (ok_if {T = T} {E = E} f)).decide (err e) w ≡ (Verdict.retry (err e), w))
        × ((when (error {T = T} g)).decide (ok v) w ≡ (Verdict.return v, w))
        × ((when (error {T = T} g)).decide (err e) w
            ≡ (g e >>= λ b.
                  pure (elim b [ true ↦ Verdict.retry (err e) | false ↦ Verdict.abort e ]))
                w)
  unfolding until when ok_if error
  polling_table f g v e w = (ground arith, refl, refl, ground arith)
