-- ===== src/Engine/Reference/Elapsed.antt =====
-- Time only grows along an account.
use relentless.Prelude.{
  ℕ, zero, suc, ◌+◌, ◌≤◌, ◌≡◌, refl, sym, ap, ◌∙◌, subst, ◌||◌, Option, none, some, inl, inr,
  Bool-cases, arith,
}
use relentless.State.{RetryState}
use relentless.Decision.{Verdict}
use relentless.Engine.Sync.{RunOutcome}
use relentless.Engine.Reference.{
  Rules, Account, fitting, is_over, performed, waited_first, settled, account,
}

module _ {O R A : Type 0} where
  abbrev pub Told : (Account O R A → Type 0) → Option (Account O R A) → Type 0
  Told P none = Unit {0}
  Told P (some a) = P a

  -- A delay put in front of an account keeps its outcome.
  pub waited_first_inv :
      (d : ℕ) (x : Option (Account O R A)) (a : Account O R A)
      → waited_first d x ≡ some a
      → (b : Account O R A) × (x ≡ some b)
        × (b.outcome ≡ a.outcome)
        × (performed d b.waits ≡ a.waits)
  waited_first_inv d none a e = cc
  waited_first_inv d (some b) a e = (
    b,
    refl,
    subst (Told (λ a. b.outcome ≡ a.outcome)) e refl,
    subst (Told (λ a. performed d b.waits ≡ a.waits)) e refl,
  )

module _ {O R A : Type 0} (rules : Rules O R A) (answer : ℕ → O) (cost : ℕ → ℕ) where
  pub settled_elapsed :
      (rest : ℕ → Option (Account O R A)) (n now waited : ℕ) (last : Option ℕ) (v : Verdict R A O)
      (a : Account O R A)
      → ((d : ℕ) (b : Account O R A) → rest d ≡ some b → now + d ≤ b.outcome.1.total_elapsed)
      → settled rules answer cost rest n now waited last v ≡ some a
      → now ≤ a.outcome.1.total_elapsed
  settled_elapsed rest n now waited last (Verdict.return v) a rec e =
      subst (Told (λ a. now ≤ a.outcome.1.total_elapsed)) e (omega arith)
  settled_elapsed rest n now waited last (Verdict.abort v) a rec e =
      subst (Told (λ a. now ≤ a.outcome.1.total_elapsed)) e (omega arith)
  settled_elapsed rest n now waited last (Verdict.retry o) a rec e =
      let s : RetryState = record { attempt = n; elapsed = now; previous_delay = last } in
      let d = fitting rules.timeout now (rules.delay s) in
      elim (Bool-cases (rules.stops s || is_over rules.timeout now)) [
        | inl over ↦
            subst (Told (λ a. now ≤ a.outcome.1.total_elapsed)) (rw over at e) (omega arith)
        | inr more ↦
            let (b, r, same, _) = waited_first_inv d (rest d) a (rw more at e) in
            omega (arith, rec d b r, ap (λ (x : RunOutcome O R A). x.1.total_elapsed) same)
      ]

  -- An account, one attempt on.
  pub account-suc :
      (fuel n now waited : ℕ) (last : Option ℕ)
      → account rules answer cost (suc fuel) n now waited last
        ≡ settled rules answer cost
            (λ d. account rules answer cost fuel (suc n) (now + cost n + d) (waited + d) (some d))
            n
            (now + cost n)
            waited
            last
            (rules.classify (answer n))
  unfolding account
  account-suc fuel n now waited last = refl

  pub account_elapsed :
      (fuel n now waited : ℕ) (last : Option ℕ) (a : Account O R A)
      → account rules answer cost fuel n now waited last ≡ some a
      → now ≤ a.outcome.1.total_elapsed
  account_elapsed zero n now waited last a e = unfold account in cc
  account_elapsed (suc fuel) n now waited last a e =
      let after : now + cost n ≤ a.outcome.1.total_elapsed =
        settled_elapsed _ n (now + cost n) waited last (rules.classify (answer n)) a
          (λ d b. account_elapsed fuel (suc n) (now + cost n + d) (waited + d) (some d) b)
          (sym (account-suc fuel n now waited last) ∙ e) in
      omega (arith, after)
