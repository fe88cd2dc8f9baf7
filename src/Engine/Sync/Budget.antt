-- ===== src/Engine/Sync/Budget.antt =====
-- The waits of a run against the time that passes and the timeout.
use relentless.Prelude.{ℕ, ◌+◌, ◌≤◌, ◌≡◌, refl, ap, ◌∙◌, Option, none, some, arith}
use relentless.Decision.{Result}
use relentless.Engine.Elapsed.{Elapsed, start}
use relentless.Engine.Error.{RetryError}
use relentless.Engine.Termination.{RetryStats}
use relentless.Engine.Step.{Step, done, continue}
use relentless.Engine.Step.Contract.{Kept, InTime}
use relentless.Engine.Sync.{Retry, Cursor, next_cursor, first_cursor, progress_of, iteration, run}
use relentless.Engine.Sync.Invariant.{Passes, Ends, ends_at, run_loop-Ends}
use relentless.Engine.Sync.Timed.{Coherent, Reached, sleep_takes, pass_timed}

-- No more than a timeout, where there is one.
abbrev pub NoMoreThan : Option ℕ → ℕ → Type 0
NoMoreThan none n = Unit {0}
NoMoreThan (some t) n = n ≤ t

InTime-NoMoreThan :
    (timeout : Option ℕ) (elapsed delay total : ℕ)
    → InTime timeout elapsed delay
    → total ≤ elapsed + delay
    → NoMoreThan timeout total
InTime-NoMoreThan none elapsed delay total h k = tt
InTime-NoMoreThan (some t) elapsed delay total h k = omega arith

NoMoreThan-zero : (timeout : Option ℕ) → NoMoreThan timeout 0
NoMoreThan-zero none = tt
NoMoreThan-zero (some t) = omega arith

module _ {World O R A : Type 0} {r : Retry World O R A} {time : World → ℕ}
    (coherent : Coherent r time) where
  -- What has been waited so far has passed, and is within the timeout.
  abbrev Spent : Cursor → World → Type 0
  Spent c w =
      Reached coherent c.elapsed w
      × (c.total_wait + c.elapsed.origin ≤ time w)
      × NoMoreThan r.policies.timeout c.total_wait

  abbrev pub WithinBudget : RetryStats → Type 0
  WithinBudget st = (st.total_wait ≤ st.total_elapsed) × NoMoreThan r.policies.timeout st.total_wait

  pass-Spent :
      (c : Cursor) (w : World)
      → Spent c w
      → Passes r Spent (λ _ st _. WithinBudget st) c (iteration r c w)
  pass-Spent c w g =
      pass_timed coherent (Passes r Spent (λ _ st _. WithinBudget st) c) c w g.0 per_step
    where
      per_step :
          (post : ℕ) (s : Step O R A) (e : Elapsed) (v : World)
          → Kept r.policies (progress_of c post) s v
          → e.origin ≡ c.elapsed.origin
          → time w ≤ e.origin + post
          → e.origin + post ≤ time v
          → Reached coherent e v
          → Passes r Spent (λ _ st _. WithinBudget st) c ((s, e), v)
      per_step post (done res st) e v k same since now reach =
          let waited : st.total_wait ≡ c.total_wait =
            ap (λ (t : RetryStats). t.total_wait) k.0 ∙ (unfold progress_of in refl) in
          let passed : st.total_elapsed ≡ post =
            ap (λ (t : RetryStats). t.total_elapsed) k.0 ∙ (unfold progress_of in refl) in
          (omega (arith, waited, passed, since, same, g.1), rw waited g.2)
      per_step post (continue d total) e v k same since now reach =
          let added : total ≤ c.total_wait + d = rw k.0 (unfold progress_of in omega arith) in
          unfold next_cursor in
          (
            omega (arith, reach, sleep_takes coherent d v),
            omega (arith, added, now, since, same, g.1, sleep_takes coherent d v),
            InTime-NoMoreThan r.policies.timeout post d total (unfold progress_of in k.1)
                (omega (arith, added, since, same, g.1)),
          )

  pub run-Ends : (fuel : ℕ) (w : World) → Ends r (λ _ st _. WithinBudget st) (run r fuel w)
  unfolding run start first_cursor
  run-Ends fuel w =
      let h = coherent.reads w in
      run_loop-Ends r Spent _ pass-Spent fuel _ _
        (omega (arith, h), omega (arith, h), NoMoreThan-zero r.policies.timeout)

  -- Over a clock whose readings lie between the times before and after them and whose waits take
  -- at least as long as they are told to, with time that goes back nowhere, the waits that a
  -- returned run has asked for sum to at most the elapsed time it reports, and, where there is a
  -- timeout, to at most the timeout.
  pub run-WithinBudget :
      (fuel : ℕ) (w w' : World) (res : Result R (RetryError A O)) (st : RetryStats)
      → run r fuel w ≡ some ((res, st), w')
      → WithinBudget st
  run-WithinBudget fuel w w' res st e = ends_at r _ e (run-Ends fuel w)
