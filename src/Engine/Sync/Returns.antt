-- ===== src/Engine/Sync/Returns.antt =====
-- When the loop returns, and with what.
use native.Mathlib.Nat.{zero-add, suc-add}
use relentless.Prelude.{
  ℕ, zero, suc, ap, subst, ◌-◌, ◌+◌, ◌≤◌, ◌≡◌, refl, sym, ◌∙◌, true, some, arith,
}
use relentless.Duration.{u32_max}
use relentless.State.{RetryState}
use relentless.Decision.{Result, ok, err}
use relentless.Engine.Elapsed.{Elapsed, start}
use relentless.Engine.Termination.{RetryStats}
use relentless.Engine.Termination
use relentless.Engine.Error.{RetryError}
use relentless.Stop.Builtin.{Strategy, interpret, attempt_bound, fires-at_bound}
use relentless.Engine.Step.{Step, done, continue}
use relentless.Engine.Step.Contract.{
  Kept, seen, Exited, reason_of, shown_reason-reason_of, exit_of, step-Kept,
}
use relentless.Engine.Sync.{
  Retry, Cursor, next_cursor, first_cursor, progress_of, RunOutcome, iteration, run_loop, run,
}
use relentless.Engine.Sync.Invariant.{
  Passes, ends_at, run_loop-Ends, run_loop_returns, run_loop_more,
}

module _ {World O R A : Type 0} (r : Retry World O R A) where
  -- A pass seen through its step: the step's contract holds of it.
  pass_of_Kept :
      (I : Cursor → World → Type 0) (Q : Result R (RetryError A O) → RetryStats → World → Type 0)
      (c : Cursor)
      → ((post : ℕ) (s : Step O R A) (e : Elapsed) (w : World)
          → Kept r.policies (progress_of c post) s w
          → Passes r I Q c ((s, e), w))
      → (w : World) → Passes r I Q c (iteration r c w)
  unfolding iteration
  pass_of_Kept I Q c h w = h _ _ _ _ (step-Kept r.policies _ _ _)

  -- The strategy gives up at the latest after `limit` attempts.
  abbrev pub StopsBy : ℕ → Type 0
  StopsBy limit =
      (s : RetryState) (w : World) → limit ≤ s.attempt → (r.policies.stop.should_stop s w).0 ≡ true

  spends :
      (limit : ℕ)
      → StopsBy limit
      → (c : Cursor) (w : World)
      → Passes r (λ c' _. suc c.attempt ≤ limit) (λ _ _ _. Unit {0}) c (iteration r c w)
  spends limit stops c = pass_of_Kept (λ _ _. suc c.attempt ≤ limit) _ c per_step
    where
      per_step :
          (post : ℕ) (s : Step O R A) (e : Elapsed) (w : World)
          → Kept r.policies (progress_of c post) s w
          → Passes r (λ c' _. suc c.attempt ≤ limit) (λ _ _ _. Unit {0}) c ((s, e), w)
      per_step post (done res st) e w k = tt
      per_step post (continue d total) e w k =
          let s = seen r.policies (progress_of c post) in
          let same : s.attempt ≡ c.attempt = unfold progress_of in refl in
          grind (arith, stops s k.2.0, same)

  within :
      (limit : ℕ)
      → limit ≤ u32_max
      → StopsBy limit
      → (c : Cursor) (w : World) → (1 ≤ c.attempt) × (c.attempt ≤ limit)
      → Passes r
          (λ c' _. (1 ≤ c'.attempt) × (c'.attempt ≤ limit))
          (λ _ st _. (1 ≤ st.attempts) × (st.attempts ≤ limit))
          c
          (iteration r c w)
  within limit fits stops c w (pos, le) =
      pass_of_Kept (λ c' _. (1 ≤ c'.attempt) × (c'.attempt ≤ limit)) _ c per_step w
    where
      per_step :
          (post : ℕ) (s : Step O R A) (e : Elapsed) (w : World)
          → Kept r.policies (progress_of c post) s w
          → Passes r
              (λ c' _. (1 ≤ c'.attempt) × (c'.attempt ≤ limit))
              (λ _ st _. (1 ≤ st.attempts) × (st.attempts ≤ limit))
              c
              ((s, e), w)
      per_step post (done res st) e w k =
          let same : st.attempts ≡ c.attempt =
            ap (λ (t : RetryStats). t.attempts) k.0 ∙ (unfold progress_of in refl) in
          (omega (arith, same), omega (arith, same))
      per_step post (continue d total) e w k =
          let s = seen r.policies (progress_of c post) in
          let same : s.attempt ≡ c.attempt = unfold progress_of in refl in
          let more : suc c.attempt ≤ limit = grind (arith, stops s k.2.0, same) in
          unfold next_cursor in (omega arith, omega arith)

  run_loop_more_by :
      (k fuel : ℕ) (c : Cursor) (w : World) (x : RunOutcome O R A × World)
      → run_loop r fuel c w ≡ some x
      → run_loop r (k + fuel) c w ≡ some x
  run_loop_more_by zero fuel c w x e = rw zero-add e
  run_loop_more_by (suc k) fuel c w x e =
      rw suc-add (run_loop_more r (k + fuel) c w x (run_loop_more_by k fuel c w x e))

  builtin-StopsBy :
      (e : Strategy) (limit : ℕ)
      → r.policies.stop ≡ interpret e
      → attempt_bound e ≡ some limit
      → StopsBy limit
  builtin-StopsBy e limit same bound s w h =
      rw same (fires-at_bound e s w (rw bound (ground arith)))

  -- Under a strategy built of the crate's own that has an attempt bound (1 to u32::MAX), the retry
  -- returns, whatever the operation, classifier, hooks, wait, timeout and clock do: with fuel for the
  -- attempts of the bound or more it returns the outcome that it returns with fuel for just these,
  -- after at least one attempt and at most the bound.
  pub run_returns :
      (e : Strategy) (limit fuel : ℕ) (w : World)
      → r.policies.stop ≡ interpret e
      → attempt_bound e ≡ some limit
      → 1 ≤ limit
      → limit ≤ u32_max
      → limit ≤ fuel
      → (x : RunOutcome O R A × World) × (run r fuel w ≡ some x)
        × (run r limit w ≡ some x)
        × (1 ≤ x.0.1.attempts)
        × (x.0.1.attempts ≤ limit)
  unfolding run
  run_returns e limit fuel w same bound pos fits enough =
      let stops = builtin-StopsBy e limit same bound in
      let c = first_cursor (start r.clock.now w).0 in
      let v = (start r.clock.now w).1 in
      let one : c.attempt ≡ 1 = unfold first_cursor in refl in
      let (x, e) =
        run_loop_returns r limit fits (spends limit stops) limit c v (omega (arith, one))
          (omega (arith, one)) in
      let counted =
        ends_at r (λ _ st _. (1 ≤ st.attempts) × (st.attempts ≤ limit)) e
          (run_loop-Ends r (λ c' _. (1 ≤ c'.attempt) × (c'.attempt ≤ limit)) _
            (within limit fits stops) limit c v (omega (arith, one), omega (arith, one))) in
      (
        x,
        subst (λ n. run_loop r n c v ≡ some x) (omega arith)
            (run_loop_more_by (fuel - limit) limit c v x e),
        e,
        counted.0,
        counted.1,
      )

  -- What a result, its statistics and the final world have in common.
  abbrev pub Reported : Result R (RetryError A O) → RetryStats → World → Type 0
  Reported res st w =
      (st.stop_reason ≡ reason_of res)
      × (Termination.stop_reason (exit_of st res) ≡ st.stop_reason)
      × Exited r.policies res st w

  exit_reason :
      (st : RetryStats) (res : Result R (RetryError A O))
      → Termination.stop_reason (exit_of st res) ≡ reason_of res
  exit_reason st (ok v) = refl
  exit_reason st (err (RetryError.aborted a)) = refl
  exit_reason st (err (RetryError.exhausted o)) = refl

  step-Reported :
      (c : Cursor) (post : ℕ) (s : Step O R A) (e : Elapsed) (w : World)
      → Kept r.policies (progress_of c post) s w
      → Passes r (λ _ _. Unit {0}) Reported c ((s, e), w)
  step-Reported c post (done res st) e w k =
      let same : st.stop_reason ≡ reason_of res =
        ap (λ (t : RetryStats). t.stop_reason) k.0 ∙ shown_reason-reason_of res in
      (same, exit_reason st res ∙ sym same, k.1)
  step-Reported c post (continue d total) e w k = tt

  -- Every outcome that the loop returns, under any strategy, fits its statistics: their reason is
  -- the one that the result (and the error, and the exit view) shows, and the last thing that was done
  -- is the `on_exit` call on exactly this result, its attempt number and its elapsed time.
  pub run-Exited :
      (fuel : ℕ) (w w' : World) (res : Result R (RetryError A O)) (st : RetryStats)
      → run r fuel w ≡ some ((res, st), w')
      → (st.stop_reason ≡ reason_of res)
        × (Termination.stop_reason (exit_of st res) ≡ st.stop_reason)
        × Exited r.policies res st w'
  unfolding run
  run-Exited fuel w w' res st e = ends_at r Reported e (
      run_loop-Ends r (λ _ _. Unit {0}) Reported
        (λ c v _. pass_of_Kept (λ _ _. Unit {0}) Reported c (step-Reported c) v) fuel _ _ tt)
