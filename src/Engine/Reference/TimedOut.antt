-- ===== src/Engine/Reference/TimedOut.antt =====
-- The account of an operation that never settles and takes no time, under a timeout.
use relentless.Prelude.{
  ℕ, zero, suc, ◌+◌, ◌-◌, ◌<◌, ◌≤◌, min, ◌≡◌, ap, ◌∙◌, true, false, ◌==◌, Option, none, some, List,
  [], ◌∷◌, ◌++◌, length, leb, if◌then◌else◌, inl, inr, Bool-cases, arith,
}
use relentless.Effect.{Cell}
use relentless.Duration.{u32_max, IsDuration}
use relentless.State.{RetryState}
use relentless.Decision.{err, Verdict}
use relentless.Clock.{VirtualTime}
use relentless.Clock.Virtual.{sum}
use relentless.Engine.Termination.{StopReason}
use relentless.Engine.Error.{RetryError}
use relentless.Engine.Hooks.{ExecutionHooks}
use relentless.Engine.Sync.{RetryOp, run}
use relentless.Engine.Reference.{Rules, Account, waited_first, settled, account, account_of}
use relentless.Engine.Reference.Elapsed.{account-suc}
use relentless.Engine.Reference.Pass.{Plays, on_virtual_clock}
use relentless.Engine.Reference.Refines.{run-account_of}
use relentless.Engine.Reference.Ends.{delays}

-- The scheduled delays from attempt `n` on, cut off where their sum reaches `left`.
unfoldable pub clamped : (schedule : ℕ → ℕ) (k n left : ℕ) → List ℕ
clamped schedule zero n left = []
clamped schedule (suc k) n left =
    let later = clamped schedule k (suc n) (left - schedule n) in
    if left == 0 then [] else min (schedule n) left ∷ later

module _ {O R A : Type 0} (rules : Rules O R A) (answer last : ℕ → O) (cost schedule : ℕ → ℕ)
    (most t : ℕ) where
  -- Up to the attempt `most` the operation is retried, at no cost, the stop strategy goes on, and
  -- the delays go by the attempt and are positive; the timeout is `t`.
  pub record NeverSettles : Type 0 where
    pub again : (i : ℕ) → 0 < i → i ≤ most → rules.classify (answer i) ≡ Verdict.retry (last i)
    pub instant : (i : ℕ) → 0 < i → i ≤ most → cost i ≡ 0
    pub goes_on : (s : RetryState) → s.attempt ≤ most → rules.stops s ≡ false
    pub paced : (s : RetryState) → s.attempt ≤ most → rules.delay s ≡ schedule s.attempt
    pub positive : (i : ℕ) → 0 < i → i ≤ most → 0 < schedule i
    pub timed : rules.timeout ≡ some t

  abbrev pub timed_out : (attempts waited : ℕ) → List ℕ → Account O R A
  timed_out attempts waited ds = record {
    outcome = (
      err (RetryError.exhausted (last attempts)),
      record {
        attempts = attempts;
        total_elapsed = t;
        total_wait = waited;
        stop_reason = StopReason.exhausted;
      },
    );
    waits = ds;
  }

  module _ (h : NeverSettles) (rest : ℕ → Option (Account O R A)) (n now waited : ℕ)
      (previous : Option ℕ) (inside : n ≤ most) where
    settled_at_deadline :
        now ≡ t
        → settled rules answer cost rest n now waited previous (Verdict.retry (last n))
          ≡ some (timed_out n waited [])
    settled_at_deadline here =
        let s : RetryState = record { attempt = n; elapsed = t; previous_delay = previous } in
        let over : leb t t ≡ true = ground arith in simp (here, h.goes_on s inside, h.timed, over)

    settled_before :
        now < t
        → settled rules answer cost rest n now waited previous (Verdict.retry (last n))
          ≡ waited_first (min (schedule n) (t - now)) (rest (min (schedule n) (t - now)))
    settled_before before =
        let s : RetryState = record { attempt = n; elapsed = now; previous_delay = previous } in
        let going : leb t now ≡ false = ground arith in
        simp (h.goes_on s inside, h.timed, going, h.paced s inside)

  ended_at :
      (h : NeverSettles) (fuel n now waited : ℕ) (previous : Option ℕ)
      → 0 < n
      → n ≤ most
      → now ≡ t
      → account rules answer cost (suc fuel) n now waited previous ≡ some (timed_out n waited [])
  ended_at h fuel n now waited previous pos inside here =
      account-suc rules answer cost fuel n now waited previous
      ∙ rw (h.again n pos inside, h.instant n pos inside)
          (settled_at_deadline h
            (λ d. account rules answer cost fuel (suc n) (now + 0 + d) (waited + d) (some d)) n
            (now + 0) waited previous inside (omega (arith, here)))

  -- The deadline is reached: no delay is left.
  over_now :
      (n now waited : ℕ)
      → now ≡ t
      → some (timed_out n waited []) ≡ some (timed_out (n + 0) (waited + (t - now)) [])
  over_now n now waited here =
      let attempts : n ≡ n + 0 = omega arith in
      let waits : waited ≡ waited + (t - now) = omega (arith, here) in
      λ i. some (timed_out (attempts i) (waits i) [])

  account_before :
      (h : NeverSettles) (fuel n now waited : ℕ) (previous : Option ℕ)
      → 0 < n
      → n ≤ most
      → now < t
      → let d = min (schedule n) (t - now) in
        account rules answer cost (suc fuel) n now waited previous
        ≡ waited_first d (account rules answer cost fuel (suc n) (now + d) (waited + d) (some d))
  account_before h fuel n now waited previous pos inside before =
      let here : now + 0 ≡ now = omega arith in
      account-suc rules answer cost fuel n now waited previous
      ∙ rw (h.again n pos inside, h.instant n pos inside, here)
          (settled_before h
            (λ d. account rules answer cost fuel (suc n) (now + d) (waited + d) (some d)) n now
            waited previous inside before)

  after_wait :
      (n waited d later left : ℕ) (ds : List ℕ)
      → d + later ≡ left
      → some (timed_out (suc n + length ds) (waited + d + later) (d ∷ ds))
        ≡ some (timed_out (n + suc (length ds)) (waited + left) (d ∷ ds))
  after_wait n waited d later left ds e =
      let attempts : suc n + length ds ≡ n + suc (length ds) = omega arith in
      let waits : waited + d + later ≡ waited + left = omega (arith, e) in
      λ i. some (timed_out (attempts i) (waits i) (d ∷ ds))

  account-timed_out :
      (h : NeverSettles) (k fuel n now waited : ℕ) (previous : Option ℕ)
      → k < fuel
      → 0 < n
      → n + k ≤ most
      → now ≤ t
      → t ≤ now + sum (delays schedule k n)
      → let ds = clamped schedule k n (t - now) in
        account rules answer cost fuel n now waited previous
        ≡ some (timed_out (n + length ds) (waited + (t - now)) ds)
  unfolding clamped delays
  account-timed_out h k zero n now waited previous few pos inside le enough =
      absurd (omega (arith, few))
  account-timed_out h zero (suc fuel) n now waited previous few pos inside le enough =
      let at_deadline : now ≡ t = omega (arith, le, enough) in
      ended_at h fuel n now waited previous pos (omega (arith, inside)) at_deadline
      ∙ over_now n now waited at_deadline
  account-timed_out h (suc k) (suc fuel) n now waited previous few pos inside le enough =
      elim (Bool-cases (t - now == 0)) [
        | inl over ↦
            let at_deadline : now ≡ t = ground (arith, le) in
            rw over (
              ended_at h fuel n now waited previous pos (omega (arith, inside)) at_deadline
              ∙ over_now n now waited at_deadline)
        | inr more ↦
            let before : now < t = ground (arith, le) in
            let d = min (schedule n) (t - now) in
            let lasting = h.positive n pos (omega (arith, inside)) in
            let long : (d == 0) ≡ false = ground (arith, lasting) in
            let left : t - (now + d) ≡ t - now - schedule n = omega arith in
            let again =
              account-timed_out h k fuel (suc n) (now + d) (waited + d) (some d)
                (omega (arith, few)) (omega arith) (omega (arith, inside)) (omega (arith, le))
                (omega (arith, enough)) in
            rw more (
              account_before h fuel n now waited previous pos (omega (arith, inside)) before
              ∙ (ap (waited_first d) again
                  ∙ rw (long, left)
                      (after_wait n waited d (t - now - schedule n) (t - now)
                        (clamped schedule k (suc n) (t - now - schedule n)) (omega arith))))
      ]

  -- A timeout ends a run on a virtual clock to the nanosecond, whatever the operation's errors:
  -- where the operation plays a script, and, up to an attempt number `most` above k, the script is
  -- retried and takes no time, the stop strategy goes on and the delays go by the attempt and are
  -- positive, a timeout `t` that the first k delays reach ends the run as exhausted, with the
  -- outcome of its last attempt, when exactly `t` has passed, all of it waited; the waits are the
  -- scheduled delays with the last of them cut to what is left, and there is one attempt more than
  -- there are waits. The hooks leave the clock and the place in the script alone, the world stands
  -- before the script's first attempt, the end lies within the clock's range, and any fuel for k +
  -- 1 attempts within the range of attempt numbers will do.
  pub run-timed_out :
      {World : Type 0} (clock : Cell World VirtualTime) (op : RetryOp World O)
      (hooks : ExecutionHooks World O R A) {At : ℕ → World → Type 0}
      → Plays clock op hooks answer cost At
      → (k fuel : ℕ) (w : World) → NeverSettles
      → k < fuel
      → fuel < u32_max
      → k < most
      → t ≤ sum (delays schedule k 1)
      → At 1 w
      → IsDuration ((clock.get w).now + t)
      → let ds = clamped schedule k 1 t in
        (w' : World) × (run (on_virtual_clock clock rules op hooks) fuel w
          ≡ some (
            (
              err (RetryError.exhausted (last (1 + length ds))),
              record {
                attempts = 1 + length ds;
                total_elapsed = t;
                total_wait = t;
                stop_reason = StopReason.exhausted;
              },
            ),
            w',
          ))
        × (clock.get w' ≡ record { now = (clock.get w).now + t; waits = (clock.get w).waits ++ ds })
  unfolding account_of
  run-timed_out clock op hooks plays k fuel w h few room inside enough here fits =
      let left : t - 0 ≡ t = omega arith in
      let again =
        account-timed_out h k fuel 1 0 0 none few (omega arith) (omega (arith, inside))
          (omega arith) (omega (arith, enough)) in
      let waited : 0 + (t - 0) ≡ t = omega arith in
      let told : account_of rules answer cost fuel
          ≡ some (timed_out (1 + length (clamped schedule k 1 t)) t (clamped schedule k 1 t)) =
        again ∙ (λ i.
          let ds = clamped schedule k 1 (left i) in
          some (timed_out (1 + length ds) (waited i) ds)) in
      run-account_of clock rules op hooks plays fuel w _ told room here (omega (arith, fits))
