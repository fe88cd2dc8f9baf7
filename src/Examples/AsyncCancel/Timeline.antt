-- ===== src/Examples/AsyncCancel/Timeline.antt =====
-- Where the future of examples/async-cancel.rs stands at a time, and one nanosecond later.
use Prim.Native.String.{String}
use relentless.Prelude.{
  ℕ, suc, ◌+◌, ◌*◌, ◌/◌, ◌%◌, ◌≤◌, ◌<◌, ◌≡◌, subst, leb, ◌⊎◌, inl, inr, Bool-cases, arith,
}
use relentless.Effect.{Eff}
use relentless.Clock.Runtime.{Timer}
use relentless.Clock.Runtime.Tokio.{TokioClock}
use relentless.Decision.{result_outcome}
use relentless.Examples.AsyncCancel.Stands.{RingsOnTime, Run, Calling, Asleep}
use relentless.Examples.AsyncCancel.Polls.{
  Pends, poll_in_call, poll_in_sleep, poll_called, poll_woken,
}

module _ {World Instant Sleep : Type 0} (timer : Timer World Instant ℕ Sleep) (message : ℕ → String)
    (tokio : TokioClock timer) (wake : Eff World (Unit {0})) {time : World → ℕ}
    (on_time : RingsOnTime timer time) (pass : World → World)
    (passes : (w : World) → time (pass w) ≡ suc (time w)) where
  -- The time is `t` ns after `begun`: in attempt t / 90 ms + 1 the call is on in the first 40 ms, and
  -- the future sleeps in the other 50.
  abbrev pub StandsAt : (begun t : ℕ) → Run timer message tokio wake → Type 0
  StandsAt begun t run =
      let n = suc (t / 90_000_000) in
      let began = begun + 90_000_000 * (t / 90_000_000) in
      ((t % 90_000_000 < 40_000_000)
        × Calling timer message tokio wake on_time n (began + 40_000_000) run)
      ⊎ ((40_000_000 ≤ t % 90_000_000)
          × Asleep timer message tokio wake on_time n (began + 90_000_000) run)

  module _ (begun t : ℕ) (run : Run timer message tokio wake) where
    pub stand_in_call :
        (n u : ℕ)
        → t % 90_000_000 < 40_000_000
        → n ≡ suc (t / 90_000_000)
        → u ≡ begun + 90_000_000 * (t / 90_000_000) + 40_000_000
        → Calling timer message tokio wake on_time n u run
        → StandsAt begun t run
    stand_in_call n u early same_attempt same_end h = inl (
      early,
      subst (λ (u : ℕ). Calling timer message tokio wake on_time (suc (t / 90_000_000)) u run)
          same_end
          (subst (λ (n : ℕ). Calling timer message tokio wake on_time n u run) same_attempt h),
    )

    pub stand_in_sleep :
        (n u : ℕ)
        → 40_000_000 ≤ t % 90_000_000
        → n ≡ suc (t / 90_000_000)
        → u ≡ begun + 90_000_000 * (t / 90_000_000) + 90_000_000
        → Asleep timer message tokio wake on_time n u run
        → StandsAt begun t run
    stand_in_sleep n u late same_attempt same_end h = inr (
      late,
      subst (λ (u : ℕ). Asleep timer message tokio wake on_time (suc (t / 90_000_000)) u run)
          same_end
          (subst (λ (n : ℕ). Asleep timer message tokio wake on_time n u run) same_attempt h),
    )

  -- One nanosecond on.
  pub next_stands :
      (fuel begun t : ℕ) (run : Run timer message tokio wake) (w : World)
      → StandsAt begun t run
      → time w ≡ begun + suc t
      → suc t < 850_000_000
      → Pends timer message tokio wake on_time (suc (suc (suc fuel))) run w (StandsAt begun (suc t))
  next_stands fuel begun t run w (inl (early, calling)) at_time inside =
      let n = suc (t / 90_000_000) in
      let u = begun + 90_000_000 * (t / 90_000_000) + 40_000_000 in
      elim (Bool-cases (leb 39_999_999 (t % 90_000_000))) [
        | inl last ↦
            let over : u ≤ time w = ground (arith, last, at_time) in
            let (run', polled, h) =
              poll_called timer message tokio wake on_time fuel w n u run calling over
                (omega (arith, inside)) in
            (
              run',
              polled,
              stand_in_sleep begun (suc t) run' n (time w + 50_000_000)
                  (ground (arith, last, at_time)) (ground (arith, last, at_time))
                  (ground (arith, last, at_time)) h,
            )
        | inr more ↦
            let on : time w < u = ground (arith, more, at_time) in
            let (run', polled, h) =
              poll_in_call timer message tokio wake on_time fuel w n u run calling on in
            (
              run',
              polled,
              stand_in_call begun (suc t) run' n u (ground (arith, more, at_time))
                  (ground (arith, more, at_time)) (ground (arith, more, at_time)) h,
            )
      ]
  next_stands fuel begun t run w (inr (late, asleep)) at_time inside =
      let n = suc (t / 90_000_000) in
      let u = begun + 90_000_000 * (t / 90_000_000) + 90_000_000 in
      elim (Bool-cases (leb 89_999_999 (t % 90_000_000))) [
        | inl last ↦
            let over : u ≤ time w = ground (arith, last, at_time) in
            let (run', polled, h) =
              poll_woken timer message tokio wake on_time fuel w n u run asleep over
                (omega (arith, inside, late)) in
            (
              run',
              polled,
              stand_in_call begun (suc t) run' (suc n) (time w + 40_000_000)
                  (ground (arith, last, at_time)) (ground (arith, last, at_time))
                  (ground (arith, last, at_time)) h,
            )
        | inr more ↦
            let on : time w < u = ground (arith, more, at_time) in
            let (run', polled, h) =
              poll_in_sleep timer message tokio wake on_time fuel w n u run asleep on in
            (
              run',
              polled,
              stand_in_sleep begun (suc t) run' n u (ground (arith, more, at_time))
                  (ground (arith, more, at_time)) (ground (arith, more, at_time)) h,
            )
      ]
