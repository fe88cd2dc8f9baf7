-- ===== src/Engine/Step/Contract.antt =====
-- What one step promises the loop that drives it.
use relentless.Prelude.{
  ℕ, ◌+◌, ◌≤◌, ◌<◌, ◌≡◌, refl, false, Option, none, some, arith, inl, inr, Bool-cases, ◌||◌, ◌-◌,
  min,
}
use relentless.Duration.{saturating_add, duration_max}
use relentless.State.{RetryState, for_attempt, with_elapsed, with_previous_delay}
use relentless.Decision.{Result, ok, err, Verdict}
use relentless.Engine.Termination.{
  StopReason, returned, Exit, exit_returned, exit_aborted, exit_exhausted, RetryStats,
}
use relentless.Engine.Error.{RetryError}
use relentless.Engine.Error
use relentless.Engine.Step.{
  Progress, Step, done, continue, Policies, stats_for, retry_state, timeout_exceeded, clamp_delay,
  exhaust, back_off, settle, step,
}

-- The reason that a result shows, and the view of it that `on_exit` is due.
abbrev pub reason_of : {O R A : Type 0} → Result R (RetryError A O) → StopReason
reason_of (ok v) = returned
reason_of (err e) = Error.stop_reason e

-- The same, result by result.
abbrev pub shown_reason : {O R A : Type 0} → Result R (RetryError A O) → StopReason
shown_reason (ok v) = returned
shown_reason (err (RetryError.aborted a)) = StopReason.aborted
shown_reason (err (RetryError.exhausted o)) = StopReason.exhausted

pub shown_reason-reason_of :
    {O R A : Type 0} (res : Result R (RetryError A O)) → shown_reason res ≡ reason_of res
shown_reason-reason_of (ok v) = refl
shown_reason-reason_of (err (RetryError.aborted a)) = refl
shown_reason-reason_of (err (RetryError.exhausted o)) = refl

abbrev pub exit_of : {O R A : Type 0} → RetryStats → Result R (RetryError A O) → Exit R A O
exit_of st (ok v) = exit_returned st.attempts st.total_elapsed v
exit_of st (err (RetryError.aborted a)) = exit_aborted st.attempts st.total_elapsed a
exit_of st (err (RetryError.exhausted o)) = exit_exhausted st.attempts st.total_elapsed o

-- The exit hook ran last, on the view of the result.
abbrev pub Exited :
    {World O R A : Type 0}
    → Policies World O R A
    → Result R (RetryError A O)
    → RetryStats
    → World
    → Type 0
Exited {World} policies res st w' =
    (w : World) × (w' ≡ (policies.hooks.on_exit (exit_of st res) w).1)

-- A timeout has not passed, and does not pass during the delay.
abbrev pub InTime : Option ℕ → ℕ → ℕ → Type 0
InTime none elapsed delay = Unit {0}
InTime (some t) elapsed delay = (elapsed < t) × (elapsed + delay ≤ t)

-- What the wait strategy said, cut down to what is left of a timeout.
abbrev pub CutDown : Option ℕ → ℕ → ℕ → ℕ → Type 0
CutDown none elapsed said delay = delay ≡ said
CutDown (some t) elapsed said delay = delay ≡ min said (t - elapsed)

clamp-CutDown :
    (timeout : Option ℕ) (elapsed d : ℕ) → CutDown timeout elapsed d (clamp_delay timeout elapsed d)
clamp-CutDown none elapsed d = refl
clamp-CutDown (some t) elapsed d = refl

clamp-InTime :
    (timeout : Option ℕ) (elapsed d : ℕ)
    → timeout_exceeded timeout elapsed ≡ false
    → InTime timeout elapsed (clamp_delay timeout elapsed d)
clamp-InTime none elapsed d h = tt
clamp-InTime (some t) elapsed d h = (ground arith, ground arith)

module _ {World O R A : Type 0} (policies : Policies World O R A) (p : Progress) where
  -- The statistics of this attempt under a reason, and its view for the stop and wait strategies.
  abbrev pub stats : StopReason → RetryStats
  stats reason = record {
    attempts = p.attempt;
    total_elapsed = p.elapsed;
    total_wait = p.total_wait;
    stop_reason = reason;
  }

  abbrev pub seen : RetryState
  seen = record { attempt = p.attempt; elapsed = p.elapsed; previous_delay = p.previous_delay }

  -- What holds of a step's outcome: where it is done, the statistics are those of this attempt,
  -- their reason is the result's, and the last thing done was the exit hook on the same result;
  -- where it continues, the delay is added to the running total, a timeout has not been reached and
  -- is not passed by the delay, the stop strategy was asked and said no, and the delay is what the
  -- wait strategy said, cut down to what is left of the timeout.
  abbrev pub Kept : Step O R A → World → Type 0
  Kept (done res st) w = (st ≡ stats (shown_reason res)) × Exited policies res st w
  Kept (continue d total) w =
      (total ≡ min (p.total_wait + d) duration_max)
      × InTime policies.timeout p.elapsed d
      × ((w0 : World) × ((policies.stop.should_stop seen w0).0 ≡ false))
      × ((w1 : World) × CutDown policies.timeout p.elapsed (policies.wait.next_wait seen w1).0 d)

  exhaust-Kept :
      (last : O) (w : World) → Kept (exhaust policies p last w).0 (exhaust policies p last w).1
  unfolding exhaust stats_for
  exhaust-Kept last w = (refl, (w, refl))

  back_off-Kept :
      (w : World)
      → timeout_exceeded policies.timeout p.elapsed ≡ false
      → ((w0 : World) × ((policies.stop.should_stop seen w0).0 ≡ false))
      → Kept (back_off policies p w).0 (back_off policies p w).1
  unfolding back_off saturating_add retry_state for_attempt with_elapsed with_previous_delay
  back_off-Kept w h u = (
    refl,
    clamp-InTime policies.timeout p.elapsed _ h,
    u,
    (w, clamp-CutDown policies.timeout p.elapsed _),
  )

  settle-Kept :
      (v : Verdict R A O) (w : World) → Kept (settle policies p v w).0 (settle policies p v w).1
  unfolding settle stats_for retry_state for_attempt with_elapsed with_previous_delay
  settle-Kept (Verdict.return value) w = (refl, (w, refl))
  settle-Kept (Verdict.abort last) w = (refl, (w, refl))
  settle-Kept (Verdict.retry last) w =
      let stopped = (policies.stop.should_stop seen w).0 in
      let w' = (policies.stop.should_stop seen w).1 in
      elim (Bool-cases (stopped || timeout_exceeded policies.timeout p.elapsed)) [
        | inl over ↦ rw over (exhaust-Kept last w')
        | inr more ↦ rw more (back_off-Kept w' (ground arith) (w, ground arith))
      ]

  -- Whatever the verdict, a step that ends the loop reports the attempt, the elapsed time and the
  -- total wait that it was handed, under the result's own reason, having last called the exit hook
  -- on that result; and a step that continues was let go on by the stop strategy, waits as the wait
  -- strategy said, cut down to what is left of the timeout, adds that delay to the total, up to
  -- Duration::MAX, and stays within the timeout; both strategies having been shown this attempt.
  pub step-Kept : (o : O) (w : World) → Kept (step policies p o w).0 (step policies p o w).1
  unfolding step
  step-Kept o w = settle-Kept _ _
