-- ===== src/Examples/Scripted/Decisive.antt =====
-- The reference of the examples that poll, the first decisive poll, and the account of their retry.
use relentless.Prelude.{
  ℕ, zero, suc, ◌+◌, ◌-◌, ◌*◌, ◌≤◌, ◌<◌, min, ◌≡◌, refl, sym, ap, subst, leb, true, false, Option,
  none, some, ◌∷◌, arith,
}
use relentless.Decision.{Result, ok, err, Verdict, verdict_into, result_outcome}
use relentless.Clock.{advance}
use relentless.Engine.Error.{RetryError}
use relentless.Engine.Hooks.{ExecutionHooks, no_hooks}
use relentless.Engine.Reference.{Rules, Account, account, settled, waited_first}
use relentless.Engine.Reference.Elapsed.{account-suc}
use relentless.Engine.Reference.Pass.{Plays}
use relentless.Examples.Scripted.{Job, time_cell, Script, last_index, entry, scripted_poller, fresh}

abbrev pub Answer : Type 0 → Type 0 → Type 0 → Type 0
Answer O R A = Result R (RetryError A O)

abbrev pub outcome_of : {O R A : Type 0} → (O → Answer O R A) → Verdict R A O → Answer O R A
outcome_of next (Verdict.return v) = ok v
outcome_of next (Verdict.abort e) = err (RetryError.aborted e)
outcome_of next (Verdict.retry o) = next o

module _ {O R A : Type 0} (classify : O → Verdict R A O) (script : Script O) where
  -- The poll with this index; the last entry of the script repeats.
  unfoldable pub poll_at : ℕ → O
  poll_at i = entry script (min i (last_index script))

  -- From the poll `i` on, with `more` polls allowed after it.
  unfoldable pub first_decisive : (more i : ℕ) → Answer O R A
  first_decisive zero i = outcome_of (λ o. err (RetryError.exhausted o)) (classify (poll_at i))
  first_decisive (suc more) i = outcome_of (λ o. first_decisive more (suc i)) (classify (poll_at i))

  abbrev pub rules : Rules O R A
  rules = record {
    classify = classify;
    stops = λ s. leb 10 s.attempt;
    delay = λ s. 10_000_000;
    timeout = none;
  }

  -- The poll of an attempt.
  abbrev answer : ℕ → O
  answer zero = poll_at 0
  answer (suc i) = poll_at i

  abbrev cost : ℕ → ℕ
  cost n = 0

  abbrev At : ℕ → Job → Type 0
  At n w = (1 ≤ n) × (min w.idx (last_index script) ≡ min (n - 1) (last_index script))

  answer_at :
      (n idx : ℕ)
      → At n (record fresh { idx = idx })
      → entry script (min idx (last_index script)) ≡ answer n
  unfolding poll_at
  answer_at zero idx h = absurd (omega (arith, h))
  answer_at (suc i) idx h = ap (entry script) (omega (arith, h))

  abbrev pub hooks : ExecutionHooks Job O R A
  hooks = no_hooks

  pub plays : Plays time_cell (λ s. scripted_poller script) hooks answer cost At
  unfolding scripted_poller advance
  plays = record {
    at_op = λ s w h. (
      answer_at s.attempt w.idx h,
      λ fits. ap (λ (n : ℕ). record { now = n; waits = w.time.waits }) (omega arith),
      (omega arith, omega (arith, h)),
    );
    at_set = λ n t w h. h;
    at_before = λ s w. (refl, λ n h. h);
    at_after = λ s w. (refl, λ n h. h);
    at_exit = λ e w. (refl, λ n h. h);
  }

  -- What the account has to say: this answer, this many waits of 10 ms later at most.
  abbrev Says : Answer O R A → ℕ → Option (Account O R A) → Type 0
  Says result latest x =
      (a : Account O R A) × (x ≡ some a)
      × (a.outcome.0 ≡ result)
      × (a.outcome.1.total_elapsed ≤ latest)

  abbrev Next : Type 0
  Next = ℕ → Option (Account O R A)

  last_poll :
      (rest : Next) (n now waited : ℕ) (previous : Option ℕ) (v : Verdict R A O)
      → 10 ≤ n
      → Says
          (outcome_of (λ o. err (RetryError.exhausted o)) v)
          now
          (settled rules answer cost rest n now waited previous v)
  last_poll rest n now waited previous (Verdict.return v) many = (_, refl, refl, omega arith)
  last_poll rest n now waited previous (Verdict.abort e) many = (_, refl, refl, omega arith)
  last_poll rest n now waited previous (Verdict.retry o) many =
      let over : leb 10 n ≡ true = ground arith in rw over (_, refl, refl, omega arith)

  another_poll :
      (rest : Next) (n now waited later : ℕ) (previous : Option ℕ) (result : Answer O R A)
      (v : Verdict R A O)
      → n < 10
      → now ≤ later
      → Says result later (rest 10_000_000)
      → Says
          (outcome_of (λ o. result) v)
          later
          (settled rules answer cost rest n now waited previous v)
  another_poll rest n now waited later previous result (Verdict.return v) few le said =
      (_, refl, refl, le)
  another_poll rest n now waited later previous result (Verdict.abort e) few le said =
      (_, refl, refl, le)
  another_poll rest n now waited later previous result (Verdict.retry o) few le (a, e, same, time) =
      let more : leb 10 n ≡ false = ground arith in
      rw more
        (record a { waits = 10_000_000 ∷ a.waits }, ap (waited_first 10_000_000) e, same, time)

  pub account-first_decisive :
      (more i now waited : ℕ) (previous : Option ℕ)
      → i + more ≡ 9
      → Says
          (first_decisive more i)
          (now + more * 10_000_000)
          (account rules answer cost (suc more) (suc i) now waited previous)
  unfolding first_decisive
  account-first_decisive zero i now waited previous e =
      subst (Says (first_decisive 0 i) (now + 0))
        (sym (account-suc rules answer cost 0 (suc i) now waited previous))
        (last_poll
          (λ d. account rules answer cost 0 (suc (suc i)) (now + 0 + d) (waited + d) (some d))
          (suc i) (now + 0) waited previous (classify (poll_at i)) (omega (arith, e)))
  account-first_decisive (suc more) i now waited previous e =
      let later : now + 0 + 10_000_000 + more * 10_000_000 ≡ now + suc more * 10_000_000 =
        omega arith in
      let said =
        account-first_decisive more (suc i) (now + 0 + 10_000_000) (waited + 10_000_000)
          (some 10_000_000) (omega (arith, e)) in
      subst (Says (first_decisive (suc more) i) (now + suc more * 10_000_000))
        (sym (account-suc rules answer cost (suc more) (suc i) now waited previous))
        (another_poll
          (λ d.
            account rules answer cost (suc more) (suc (suc i)) (now + 0 + d) (waited + d) (some d))
          (suc i) (now + 0) waited (now + suc more * 10_000_000) previous
          (first_decisive more (suc i)) (classify (poll_at i)) (omega (arith, e)) (omega arith)
          (subst
            (λ latest. Says (first_decisive more (suc i)) latest (
              account rules answer cost (suc more) (suc (suc i)) (now + 0 + 10_000_000)
                (waited + 10_000_000) (some 10_000_000)))
            later said))
