-- ===== src/Engine/Async/Sound.antt =====
-- What holds of a run's state along the moves of its machine.
use relentless.Prelude.{ℕ, ◌≤◌, ◌<◌, ◌≡◌, refl, subst, some, none, Option, arith}
use relentless.Duration.{saturating_add, u32_max, duration_max}
use relentless.Engine.Elapsed.{Elapsed}
use relentless.Engine.Async.{
  Phase, ready_to_start, polling, sleeping, yielding, AsyncRun, next_attempt, into_run,
}
use relentless.Engine.Async.Machine.{
  Moves, begin, pend, finish, lie_down, step_aside, sleep_on, wake_up, resume, Reaches, stay, move,
}

-- No delay has been decided before the end of the first attempt.
abbrev pub FirstSound : Option ℕ → (attempt total_wait : ℕ) → Type 0
FirstSound none attempt total_wait = (attempt ≡ 1) × (total_wait ≡ 0)
FirstSound (some d) attempt total_wait = Unit {0}

-- A run that sleeps does so for a delay that is not zero, and one that yields does so for a zero delay.
abbrev pub RestSound : {Fut Sleep : Type 0} → Phase Fut Sleep → Option ℕ → Type 0
RestSound (sleeping s) (some d) = 0 < d
RestSound (sleeping s) none = ⊥
RestSound yielding (some d) = d ≡ 0
RestSound yielding none = ⊥
RestSound ready_to_start d = Unit {0}
RestSound (polling f) d = Unit {0}
RestSound Phase.done d = Unit {0}

pub record Sound {Fut Sleep : Type 0} (run : AsyncRun Fut Sleep) : Type 0 where
  pub counted : (1 ≤ run.attempt) × (run.attempt ≤ u32_max)
  pub capped : run.total_wait ≤ duration_max
  pub first : FirstSound run.previous_delay run.attempt run.total_wait
  pub rests : RestSound run.phase run.previous_delay
  pub baseline : run.elapsed ≡ none → run.phase ≡ ready_to_start

module _ {Fut Sleep : Type 0} where
  -- A run at rest has decided a delay.
  awake :
      (p : Phase Fut Sleep) (s : Sleep) (d : Option ℕ) (m l : ℕ)
      → p ≡ sleeping s
      → RestSound p d
      → FirstSound d m l
  awake p s none m l e h = absurd (subst (λ p. RestSound p none) e h)
  awake p s (some d) m l e h = tt

  resumed :
      (p : Phase Fut Sleep) (d : Option ℕ) (m l : ℕ)
      → p ≡ yielding
      → RestSound p d
      → FirstSound d m l
  resumed p none m l e h = absurd (subst (λ p. RestSound p none) e h)
  resumed p (some d) m l e h = tt

  still_asleep :
      (p : Phase Fut Sleep) (s s' : Sleep) (d : Option ℕ)
      → p ≡ sleeping s
      → RestSound p d
      → RestSound {Fut = Fut} (sleeping s') d
  still_asleep p s s' none e h = absurd (subst (λ p. RestSound p none) e h)
  still_asleep p s s' (some d) e h = subst (λ p. RestSound p (some d)) e h

  module _ (run : AsyncRun Fut Sleep) (h : Sound run) (e : Elapsed) where
    kept :
        (p : Phase Fut Sleep)
        → RestSound p run.previous_delay
        → Sound (record run { phase = p; elapsed = some e })
    kept p rests = record {
      counted = h.counted;
      capped = h.capped;
      first = h.first;
      rests = rests;
      baseline = λ q. cc;
    }

    renewed :
        ((m l : ℕ) → FirstSound run.previous_delay m l)
        → Sound (next_attempt (record run { elapsed = some e }))
    unfolding next_attempt
    renewed first = record {
      counted = (omega (arith, h.counted), omega arith);
      capped = h.capped;
      first = first _ _;
      rests = tt;
      baseline = λ q. cc;
    }

    delayed :
        (p : Phase Fut Sleep) (d total : ℕ)
        → RestSound p (some d)
        → total ≡ saturating_add run.total_wait d
        → Sound (record run {
          phase = p;
          elapsed = some e;
          total_wait = total;
          previous_delay = some d;
        })
    unfolding saturating_add
    delayed p d total rests k = record {
      counted = h.counted;
      capped = omega (arith, k);
      first = tt;
      rests = rests;
      baseline = λ q. cc;
    }

  move-Sound : (run run' : AsyncRun Fut Sleep) → Sound run → Moves run run' → Sound run'
  move-Sound run run' h (begin f e p) = kept run h e (polling f) tt
  move-Sound run run' h (pend f f' e p) = kept run h e (polling f') tt
  move-Sound run run' h (finish f e p) = kept run h e Phase.done tt
  move-Sound run run' h (lie_down f s e d total p pos k) =
      delayed run h e (sleeping s) d total pos k
  move-Sound run run' h (step_aside f e d total p z k) = delayed run h e yielding d total z k
  move-Sound run run' h (sleep_on s s' e p) =
      kept run h e (sleeping s') (still_asleep run.phase s s' run.previous_delay p h.rests)
  move-Sound run run' h (wake_up s e p) =
      renewed run h e (λ m l. awake run.phase s run.previous_delay m l p h.rests)
  move-Sound run run' h (resume e p) =
      renewed run h e (λ m l. resumed run.phase run.previous_delay m l p h.rests)

  pub Reaches-Sound : (run run' : AsyncRun Fut Sleep) → Sound run → Reaches run run' → Sound run'
  Reaches-Sound run run' h stay = h
  Reaches-Sound run run' h (move r m) = move-Sound _ run' (Reaches-Sound run _ h r) m

  pub into_run-Sound : Sound (into_run {Fut = Fut} {Sleep = Sleep})
  unfolding into_run
  into_run-Sound = record {
    counted = (omega arith, omega arith);
    capped = omega arith;
    first = (refl, refl);
    rests = tt;
    baseline = λ e. refl;
  }
