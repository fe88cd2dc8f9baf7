-- ===== src/Engine/Reference/Refines.antt =====
-- The blocking engine on a virtual clock computes the reference.
use mathlib.Core.List.{append_assoc, append-nil}
use relentless.Prelude.{
  ℕ, zero, suc, ◌+◌, ◌≤◌, ◌<◌, min, ◌≡◌, refl, sym, ap, ◌∙◌, subst, ◌||◌, ◌==◌, Option, some, List,
  [], ◌∷◌, ◌++◌, inl, inr, Bool-cases, arith,
}
use relentless.Effect.{Cell}
use relentless.Duration.{duration_max, u32_max, saturating_add, IsDuration}
use relentless.State.{RetryState, for_attempt, with_elapsed, with_previous_delay}
use relentless.Decision.{Verdict}
use relentless.Clock.{VirtualTime, virtual_sync}
use relentless.Engine.Elapsed.{Elapsed, start}
use relentless.Engine.Hooks.{ExecutionHooks}
use relentless.Engine.Step.{continue, stats_for, retry_state}
use relentless.Engine.Sync.{
  Retry, RetryOp, Cursor, next_cursor, first_cursor, progress_of, run_loop, run, sleep, RunOutcome,
}
use relentless.Engine.Sync.Invariant.{go_on, run_loop_step}
use relentless.Engine.Reference.{
  Rules, Account, fitting, is_over, performed, settled, account, account_of,
}
use relentless.Engine.Reference.Elapsed.{
  account-suc, Told, waited_first_inv, settled_elapsed, account_elapsed,
}
use relentless.Engine.Reference.Pass.{
  Plays, on_virtual_clock, decided, slept, slept-stands, pass_virtual,
}

performed-append : (d : ℕ) (ds bs : List ℕ) → (ds ++ performed d []) ++ bs ≡ ds ++ performed d bs
performed-append d ds bs = elim (Bool-cases (d == 0)) [
  | inl zero_delay ↦ rw (zero_delay, append-nil) refl
  | inr longer ↦ rw longer (append_assoc ds (d ∷ []) bs)
]

module _ {World O R A : Type 0} (clock : Cell World VirtualTime) (rules : Rules O R A)
    (op : RetryOp World O) (hooks : ExecutionHooks World O R A) where
  abbrev on_clock : Retry World O R A
  on_clock = on_virtual_clock clock rules op hooks

  -- What the loop does as an account says: it returns the account's outcome, at the account's time,
  -- having recorded the account's waits.
  abbrev pub Follows : ℕ → List ℕ → Account O R A → Option (RunOutcome O R A × World) → Type 0
  Follows since ds a x =
      (w : World) × (x ≡ some (a.outcome, w))
      × (clock.get w ≡ record { now = since + a.outcome.1.total_elapsed; waits = ds ++ a.waits })

  module _ {answer : ℕ → O} {cost : ℕ → ℕ} {At : ℕ → World → Type 0}
      (plays : Plays clock op hooks answer cost At) where
    abbrev Rest : ℕ → Type 0
    Rest fuel =
        (c : Cursor) (w : World) (now : ℕ) (ds : List ℕ) (a : Account O R A)
        → account rules answer cost fuel c.attempt now c.total_wait c.previous_delay ≡ some a
        → clock.get w ≡ record { now = c.elapsed.origin + now; waits = ds }
        → At c.attempt w
        → c.elapsed.highest ≤ now
        → c.total_wait ≤ now
        → c.attempt + fuel ≤ u32_max
        → IsDuration (c.elapsed.origin + a.outcome.1.total_elapsed)
        → Follows c.elapsed.origin ds a (run_loop on_clock fuel c w)

    module _ (fuel : ℕ) (c : Cursor) (after : ℕ) (ds : List ℕ) (rec : Rest fuel) where
      abbrev rest : ℕ → Option (Account O R A)
      rest d =
          account rules answer cost fuel (suc c.attempt) (after + d) (c.total_wait + d) (some d)

      abbrev seen : Elapsed
      seen = record { origin = c.elapsed.origin; highest = after }

      ended :
          (o : RunOutcome O R A) (v : World) (a : Account O R A)
          → clock.get v ≡ record { now = c.elapsed.origin + o.1.total_elapsed; waits = ds }
          → some (record { outcome = o; waits = [] }) ≡ some a
          → Follows c.elapsed.origin ds a (some (o, v))
      ended o v a at e =
          subst (Told (λ a. Follows c.elapsed.origin ds a (some (o, v)))) e
            (v, refl, rw append-nil at)

      -- The attempts after a delay.
      follow_on :
          (d : ℕ) (v : World) (a b : Account O R A)
          → clock.get v ≡ record { now = c.elapsed.origin + after; waits = ds }
          → At (suc c.attempt) v
          → rest d ≡ some b
          → b.outcome ≡ a.outcome
          → performed d b.waits ≡ a.waits
          → c.total_wait ≤ after
          → c.attempt + suc fuel ≤ u32_max
          → IsDuration (c.elapsed.origin + a.outcome.1.total_elapsed)
          → Follows c.elapsed.origin ds a
              (go_on on_clock fuel c ((continue d (saturating_add c.total_wait d), seen), v))
      unfolding next_cursor saturating_add
      follow_on d v a b at here e same waited below room fits =
          let ends = ap (λ (x : RunOutcome O R A). x.1.total_elapsed) same in
          let grows =
            account_elapsed rules answer cost fuel (suc c.attempt) (after + d) (c.total_wait + d)
              (some d) b e in
          let attempt : suc c.attempt ≡ min (c.attempt + 1) u32_max = omega (arith, room) in
          let total : c.total_wait + d ≡ min (c.total_wait + d) duration_max =
            omega (arith, grows, ends, fits, below) in
          let c' : Cursor = record {
            attempt = suc c.attempt;
            previous_delay = some d;
            total_wait = c.total_wait + d;
            elapsed = seen;
          } in
          let next : c' ≡ next_cursor c seen d (saturating_add c.total_wait d) = λ i. record {
            attempt = attempt i;
            previous_delay = some d;
            total_wait = total i;
            elapsed = seen;
          } in
          let there =
            slept clock rules op hooks d c.elapsed.origin after ds v at
              (omega (arith, grows, ends, fits)) in
          let (w, x, y) =
            rec c' _ (after + d) (ds ++ performed d []) b e there
              (slept-stands clock rules op hooks plays (suc c.attempt) d v here) (omega arith)
              (omega (arith, below)) (omega (arith, room)) (omega (arith, ends, fits)) in
          (
            w,
            ap (λ (n : Cursor). run_loop on_clock fuel n (sleep on_clock d v)) (sym next)
                ∙ (x ∙ ap (λ (o : RunOutcome O R A). some (o, w)) same),
            y ∙ (λ i. record {
              now = c.elapsed.origin + ends i;
              waits = (performed-append d ds b.waits ∙ ap (λ (bs : List ℕ). ds ++ bs) waited) i;
            }),
          )

      by_verdict :
          (verdict : Verdict R A O) (v : World) (a : Account O R A)
          → clock.get v ≡ record { now = c.elapsed.origin + after; waits = ds }
          → At (suc c.attempt) v
          → settled rules answer cost rest c.attempt after c.total_wait c.previous_delay verdict
            ≡ some a
          → c.total_wait ≤ after
          → c.attempt + suc fuel ≤ u32_max
          → IsDuration (c.elapsed.origin + a.outcome.1.total_elapsed)
          → Follows c.elapsed.origin ds a (
              go_on on_clock fuel c
                ((decided clock rules op hooks (progress_of c after) verdict, seen), v))
      unfolding stats_for progress_of retry_state for_attempt with_elapsed with_previous_delay
      by_verdict (Verdict.return value) v a at here e below room fits = ended _ v a at e
      by_verdict (Verdict.abort last) v a at here e below room fits = ended _ v a at e
      by_verdict (Verdict.retry last) v a at here e below room fits =
          let s : RetryState = record {
            attempt = c.attempt;
            elapsed = after;
            previous_delay = c.previous_delay;
          } in
          let d = fitting rules.timeout after (rules.delay s) in
          elim (Bool-cases (rules.stops s || is_over rules.timeout after)) [
            | inl over ↦ rw over (ended _ v a at (rw over at e))
            | inr more ↦
                let (b, e', same, waited) = waited_first_inv d (rest d) a (rw more at e) in
                rw more (follow_on d v a b at here e' same waited below room fits)
          ]

    follows : (fuel : ℕ) → Rest fuel
    follows zero c w now ds a e at here recent below room fits = unfold account in cc
    follows (suc fuel) c w now ds a e at here recent below room fits =
        let after = now + cost c.attempt in
        let verdict = rules.classify (answer c.attempt) in
        let e' =
          sym (account-suc rules answer cost fuel c.attempt now c.total_wait c.previous_delay)
          ∙ e in
        let ends =
          settled_elapsed rules answer cost _ c.attempt after c.total_wait c.previous_delay verdict
            a
            (λ d b.
              account_elapsed rules answer cost fuel (suc c.attempt) (after + d) (c.total_wait + d)
                (some d) b)
            e' in
        subst (Follows c.elapsed.origin ds a) (sym (run_loop_step on_clock fuel c w)) (
          pass_virtual clock rules op hooks plays
            (λ x. Follows c.elapsed.origin ds a (go_on on_clock fuel c x)) c w now here
            (ap (λ (t : VirtualTime). t.now) at) recent (omega (arith, ends, fits))
            (λ v there stands.
              by_verdict fuel c after ds (follows fuel) verdict v a
                (there
                  ∙ ap
                      (λ (t : VirtualTime). record {
                        now = c.elapsed.origin + after;
                        waits = t.waits;
                      })
                      at)
                stands e' (omega (arith, below)) room fits))

    -- A run on a virtual clock is the account of its rules: let the operation play a script, that
    -- is, whatever else it does to the world, answer at attempt n as the script says and take the
    -- time that the script says, while the hooks leave the clock and the place in the script
    -- alone; from a world that stands before the script's first attempt, whenever the account, a
    -- plain function of the script, comes to an end on some fuel within the range of attempt
    -- numbers, and the end lies within the clock's range, the run returns on the same fuel what the
    -- account says (the result and all four statistics, unsaturated), the clock has moved by exactly
    -- the elapsed time it reports, and the waits that it recorded are the account's, in order; for
    -- all rules and scripts.
    pub run-account_of :
        (fuel : ℕ) (w : World) (a : Account O R A)
        → account_of rules answer cost fuel ≡ some a
        → fuel < u32_max
        → At 1 w
        → IsDuration ((clock.get w).now + a.outcome.1.total_elapsed)
        → Follows (clock.get w).now (clock.get w).waits a (run on_clock fuel w)
    unfolding run start first_cursor account_of virtual_sync
    run-account_of fuel w a e room here fits =
        follows fuel _ w 0 (clock.get w).waits a e
          (ap (λ (n : ℕ). record { now = n; waits = (clock.get w).waits }) (omega arith)) here
          (omega arith) (omega arith) (omega (arith, room)) fits
