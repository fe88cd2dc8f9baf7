-- ===== src/Examples/AsyncCancel/Polls.antt =====
-- What each poll of the future of examples/async-cancel.rs does, on a timer that rings on time.
use Prim.Native.String.{String}
use relentless.Prelude.{
  ℕ, suc, ◌+◌, ◌≤◌, ◌<◌, min, ◌≡◌, refl, sym, subst, ap, ◌∙◌, none, some, arith,
}
use relentless.Effect.{Eff}
use relentless.Duration.{u32_max, saturating_add}
use relentless.Decision.{result_outcome}
use relentless.Clock.Runtime.{Timer}
use relentless.Clock.Runtime.Tokio.{TokioClock}
use relentless.Engine.Async.{
  AsyncRetry, polling, sleeping, again, parked, still_pending, poll, turn, into_run,
}
use relentless.Engine.Async.Executor.{after_turn, poll_step}
use relentless.Examples.AsyncCancel.{Reply, FlakyCall, waiting}
use relentless.Examples.AsyncCancel.Stands.{
  RingsOnTime, flaky, Run, standing, Calling, Asleep, observed, baseline, turn_calling, turn_asleep,
  turn_woken, turn_begins, turn_calls, turn_called, turn_starts,
}

module _ {World Instant Sleep : Type 0} (timer : Timer World Instant ℕ Sleep) (message : ℕ → String)
    (tokio : TokioClock timer) (wake : Eff World (Unit {0})) {time : World → ℕ}
    (on_time : RingsOnTime timer time) where
  open on_time use {until, since}

  abbrev retry : AsyncRetry World Reply String String (FlakyCall Sleep) Sleep
  retry = flaky timer message tokio wake

  module _ (w : World) where
    then_polled :
        (k : ℕ) (run run' : Run timer message tokio wake)
        → turn retry wake run w ≡ (again run', w)
        → poll retry wake (suc k) run w ≡ poll retry wake k run' w
    then_polled k run run' e = poll_step retry wake k run w ∙ ap (after_turn retry wake k) e

    then_parked :
        (k : ℕ) (run run' : Run timer message tokio wake)
        → turn retry wake run w ≡ (parked run', w)
        → poll retry wake (suc k) run w ≡ (still_pending run', w)
    then_parked k run run' e = poll_step retry wake k run w ∙ ap (after_turn retry wake k) e

  -- A poll that leaves the future pending, where it stands so.
  abbrev pub Pends :
      ℕ → Run timer message tokio wake → World → (Run timer message tokio wake → Type 0) → Type 0
  Pends fuel run w Stands =
      (run' : Run timer message tokio wake) × (poll retry wake fuel run w ≡ (still_pending run', w))
      × Stands run'

  module _ (fuel : ℕ) (w : World) where
    abbrev three : ℕ
    three = suc (suc (suc fuel))

    pub poll_first :
        Pends three into_run w (Calling timer message tokio wake on_time 1 (time w + 40_000_000))
    poll_first =
        let e =
          observed timer message tokio wake on_time (baseline timer message tokio wake on_time w)
            w in
        (
          standing timer message tokio wake on_time
              (polling (waiting 1 (until (time w + 40_000_000)))) 1 none 0 e,
          then_polled w (suc (suc fuel)) _ _ (turn_starts timer message tokio wake on_time w)
              ∙ then_parked w (suc fuel) _ _
                  (turn_calls timer message tokio wake on_time 1 0 none 0 e w),
          (none, 0, e, refl),
        )

    module _ (n u : ℕ) (run : Run timer message tokio wake) where
      pub poll_in_call :
          Calling timer message tokio wake on_time n u run
          → time w < u
          → Pends three run w (Calling timer message tokio wake on_time n u)
      poll_in_call (previous, waited, e, same) early = (
        run,
        then_parked w (suc (suc fuel)) run run (
            subst (λ (r : Run timer message tokio wake). turn retry wake r w ≡ (parked r, w))
              (sym same)
              (turn_calling timer message tokio wake on_time n u previous waited e w early)),
        (previous, waited, e, same),
      )

      pub poll_in_sleep :
          Asleep timer message tokio wake on_time n u run
          → time w < u
          → Pends three run w (Asleep timer message tokio wake on_time n u)
      poll_in_sleep (previous, waited, e, same) early = (
        run,
        then_parked w (suc (suc fuel)) run run (
            subst (λ (r : Run timer message tokio wake). turn retry wake r w ≡ (parked r, w))
              (sym same)
              (turn_asleep timer message tokio wake on_time n u previous waited e w early)),
        (previous, waited, e, same),
      )

      pub poll_called :
          Calling timer message tokio wake on_time n u run
          → u ≤ time w
          → n < 10
          → Pends three run w (Asleep timer message tokio wake on_time n (time w + 50_000_000))
      poll_called (previous, waited, e, same) late few =
          let later = saturating_add waited 50_000_000 in
          (
            standing timer message tokio wake on_time (sleeping (until (time w + 50_000_000))) n
                (some 50_000_000) later (observed timer message tokio wake on_time e w),
            ap (λ (r : Run timer message tokio wake). poll retry wake three r w) same
                ∙ (then_polled w (suc (suc fuel)) _ _ (
                      turn_called timer message tokio wake on_time n u previous waited e w late few)
                    ∙ then_parked w (suc fuel) _ _ (
                        turn_asleep timer message tokio wake on_time n (time w + 50_000_000)
                          (some 50_000_000) later (observed timer message tokio wake on_time e w) w
                          (omega arith))),
            (some 50_000_000, later, observed timer message tokio wake on_time e w, refl),
          )

      pub poll_woken :
          Asleep timer message tokio wake on_time n u run
          → u ≤ time w
          → n < 10
          → Pends three run w
              (Calling timer message tokio wake on_time (suc n) (time w + 40_000_000))
      poll_woken (previous, waited, e, same) late few =
          let m = min (n + 1) u32_max in
          let next : m ≡ suc n = omega (arith, few) in
          let e' = observed timer message tokio wake on_time e w in
          let here =
            standing timer message tokio wake on_time
              (polling (waiting m (until (time w + 40_000_000)))) m previous waited e' in
          (
            here,
            ap (λ (r : Run timer message tokio wake). poll retry wake three r w) same
                ∙ (then_polled w (suc (suc fuel)) _ _
                      (turn_woken timer message tokio wake on_time n u previous waited e w late)
                    ∙ (then_polled w (suc fuel) _ _
                          (turn_begins timer message tokio wake on_time m u previous waited e w)
                        ∙ then_parked w fuel _ _ (
                            turn_calls timer message tokio wake on_time m u previous waited e' w))),
            subst (λ (i : ℕ). Calling timer message tokio wake on_time i (time w + 40_000_000) here)
                next (previous, waited, e', refl),
          )
