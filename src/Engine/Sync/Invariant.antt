-- ===== src/Engine/Sync/Invariant.antt =====
-- The rules by which the loop's properties are proved: an invariant of each pass, and a bound.
use relentless.Prelude.{
  ℕ, zero, suc, ◌+◌, ◌≤◌, ◌<◌, ◌≡◌, refl, sym, subst, ◌∙◌, Option, none, some, arith,
}
use relentless.Duration.{u32_max}
use relentless.Decision.{Result}
use relentless.Engine.Elapsed.{Elapsed}
use relentless.Engine.Termination.{RetryStats}
use relentless.Engine.Error.{RetryError}
use relentless.Engine.Step.{Step, done, continue}
use relentless.Engine.Sync.{Retry, Cursor, next_cursor, RunOutcome, iteration, sleep, run_loop}

module _ {World O R A : Type 0} (r : Retry World O R A) where
  -- What a pass has to establish: the result's property where it is done, the invariant after the
  -- sleep where it continues.
  abbrev pub Passes :
      (Cursor → World → Type 0)
      → (Result R (RetryError A O) → RetryStats → World → Type 0)
      → Cursor
      → (Step O R A × Elapsed) × World
      → Type 0
  Passes I Q c ((done res st, e), w) = Q res st w
  Passes I Q c ((continue d total, e), w) = I (next_cursor c e d total) (sleep r d w)

  -- What follows a pass.
  abbrev pub go_on : ℕ → Cursor → (Step O R A × Elapsed) × World → Option (RunOutcome O R A × World)
  go_on fuel c ((done res st, e), w) = some ((res, st), w)
  go_on fuel c ((continue d total, e), w) = run_loop r fuel (next_cursor c e d total) (sleep r d w)

  pub run_loop_step :
      (fuel : ℕ) (c : Cursor) (w : World)
      → run_loop r (suc fuel) c w ≡ go_on fuel c (iteration r c w)
  unfolding run_loop
  run_loop_step fuel c w = ground arith

  abbrev pub Ends :
      (Result R (RetryError A O) → RetryStats → World → Type 0)
      → Option (RunOutcome O R A × World)
      → Type 0
  Ends Q none = Unit {0}
  Ends Q (some ((res, st), w)) = Q res st w

  pub ends_at :
      {o : Option (RunOutcome O R A × World)} {res : Result R (RetryError A O)} {st : RetryStats}
      {w : World} (Q : Result R (RetryError A O) → RetryStats → World → Type 0)
      → o ≡ some ((res, st), w)
      → Ends Q o
      → Q res st w
  ends_at Q e q = subst (Ends Q) e q

  module _ (I : Cursor → World → Type 0)
      (Q : Result R (RetryError A O) → RetryStats → World → Type 0)
      (pass : (c : Cursor) (w : World) → I c w → Passes I Q c (iteration r c w)) where
    after :
        (fuel : ℕ) (c : Cursor) (x : (Step O R A × Elapsed) × World)
        → Passes I Q c x
        → ((c : Cursor) (w : World) → I c w → Ends Q (run_loop r fuel c w))
        → Ends Q (go_on fuel c x)
    after fuel c ((done res st, e), w) q rec = q
    after fuel c ((continue d total, e), w) i rec = rec _ _ i

    -- The invariant rule: if each pass keeps `I` and ends in `Q`, so does the loop.
    pub run_loop-Ends : (fuel : ℕ) (c : Cursor) (w : World) → I c w → Ends Q (run_loop r fuel c w)
    run_loop-Ends zero c w i = unfold run_loop in tt
    run_loop-Ends (suc fuel) c w i =
        rw (run_loop_step fuel c w)
          (after fuel c (iteration r c w) (pass c w i) (run_loop-Ends fuel))

  more :
      (fuel : ℕ) (c : Cursor) (x : RunOutcome O R A × World) (y : (Step O R A × Elapsed) × World)
      → ((c : Cursor) (w : World) (x : RunOutcome O R A × World)
          → run_loop r fuel c w ≡ some x
          → run_loop r (suc fuel) c w ≡ some x)
      → go_on fuel c y ≡ some x
      → go_on (suc fuel) c y ≡ some x
  more fuel c x ((done res st, e), w) rec h = h
  more fuel c x ((continue d total, e), w) rec h = rec _ _ _ h

  -- More fuel changes no result.
  pub run_loop_more :
      (fuel : ℕ) (c : Cursor) (w : World) (x : RunOutcome O R A × World)
      → run_loop r fuel c w ≡ some x
      → run_loop r (suc fuel) c w ≡ some x
  run_loop_more zero c w x e = unfold run_loop in cc
  run_loop_more (suc fuel) c w x e =
      rw (run_loop_step (suc fuel) c w)
        (more fuel c x (iteration r c w) (run_loop_more fuel) (sym (run_loop_step fuel c w) ∙ e))

  -- The bound rule: where a pass that continues has spent one of `limit` attempts, the loop returns.
  module _ (limit : ℕ) (fits : limit ≤ u32_max)
      (pass : (c : Cursor) (w : World)
        → Passes (λ c' _. suc c.attempt ≤ limit) (λ _ _ _. Unit {0}) c (iteration r c w)) where
    abbrev ResultAt : ℕ → Cursor → World → Type 0
    ResultAt fuel c w = (x : RunOutcome O R A × World) × (run_loop r fuel c w ≡ some x)

    next :
        (fuel : ℕ) (c : Cursor) (y : (Step O R A × Elapsed) × World)
        → c.attempt ≤ limit
        → limit < suc fuel + c.attempt
        → Passes (λ c' _. suc c.attempt ≤ limit) (λ _ _ _. Unit {0}) c y
        → ((c : Cursor) (w : World)
            → c.attempt ≤ limit
            → limit < fuel + c.attempt
            → ResultAt fuel c w)
        → (x : RunOutcome O R A × World) × (go_on fuel c y ≡ some x)
    next fuel c ((done res st, e), w) h k p rec = (((res, st), w), refl)
    next fuel c ((continue d total, e), w) h k p rec =
        let c' = next_cursor c e d total in
        let spent : c'.attempt ≡ suc c.attempt = unfold next_cursor in omega arith in
        rec c' (sleep r d w) (omega (arith, spent)) (omega (arith, spent))

    pub run_loop_returns :
        (fuel : ℕ) (c : Cursor) (w : World)
        → c.attempt ≤ limit
        → limit < fuel + c.attempt
        → ResultAt fuel c w
    run_loop_returns zero c w h k = absurd (omega arith)
    run_loop_returns (suc fuel) c w h k =
        let (x, e) = next fuel c (iteration r c w) h k (pass c w) (run_loop_returns fuel) in
        (x, run_loop_step fuel c w ∙ e)
