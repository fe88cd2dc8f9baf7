-- ===== src/Engine/Async/Executor.antt =====
-- Turn by turn, with no regard to where one poll ends and the next begins.
use relentless.Prelude.{ℕ, zero, suc, ◌≤◌, ◌≡◌, sym, ap, ◌∙◌, Option, none, some, arith}
use relentless.Effect.{Eff}
use relentless.Engine.Sync.{RunOutcome}
use relentless.Engine.Async.{
  AsyncRetry, AsyncRun, Turn, again, parked, resolved, panicked, Polled, still_pending, is_ready,
  has_panicked, out_of_fuel, turn, poll, block_on,
}

module _ {World O R A Fut Sleep : Type 0} (r : AsyncRetry World O R A Fut Sleep)
    (wake : Eff World (Unit {0})) where
  unfoldable pub drive : ℕ → AsyncRun Fut Sleep → World → Option (RunOutcome O R A × World)
  drive zero run w = none
  drive (suc n) run w =
      let (t, w') = turn r wake run w in
      elim t [
        | again run' ↦ drive n run' w'
        | parked run' ↦ drive n run' w'
        | resolved outcome run' ↦ some (outcome, w')
        | panicked ↦ none
      ]

  abbrev pub go_on : ℕ → Turn O R A Fut Sleep × World → Option (RunOutcome O R A × World)
  go_on n (again run, w) = drive n run w
  go_on n (parked run, w) = drive n run w
  go_on n (resolved outcome run, w) = some (outcome, w)
  go_on n (panicked, w) = none

  pub drive_step :
      (n : ℕ) (run : AsyncRun Fut Sleep) (w : World)
      → drive (suc n) run w ≡ go_on n (turn r wake run w)
  unfolding drive
  drive_step n run w = ground arith

  -- The rest of a poll, and then the executor.
  abbrev rest :
      ℕ → ℕ → Polled (RunOutcome O R A) Fut Sleep × World → Option (RunOutcome O R A × World)
  rest polls fuel (still_pending run, w) = block_on r wake polls fuel run w
  rest polls fuel (is_ready outcome run, w) = some (outcome, w)
  rest polls fuel (has_panicked, w) = none
  rest polls fuel (out_of_fuel, w) = none

  block_on_step :
      (polls fuel : ℕ) (run : AsyncRun Fut Sleep) (w : World)
      → block_on r wake (suc polls) fuel run w ≡ rest polls fuel (poll r wake fuel run w)
  unfolding block_on
  block_on_step polls fuel run w = ground arith

  abbrev pub after_turn :
      ℕ → Turn O R A Fut Sleep × World → Polled (RunOutcome O R A) Fut Sleep × World
  after_turn fuel (again run, w) = poll r wake fuel run w
  after_turn fuel (parked run, w) = (still_pending run, w)
  after_turn fuel (resolved outcome run, w) = (is_ready outcome run, w)
  after_turn fuel (panicked, w) = (has_panicked, w)

  pub poll_step :
      (fuel : ℕ) (run : AsyncRun Fut Sleep) (w : World)
      → poll r wake (suc fuel) run w ≡ after_turn fuel (turn r wake run w)
  unfolding poll
  poll_step fuel run w = ground arith

  abbrev Agrees : ℕ → Type 0
  Agrees n =
      (polls left fuel : ℕ) (run : AsyncRun Fut Sleep) (w : World) (x : RunOutcome O R A × World)
      → n ≤ polls
      → n ≤ left
      → n ≤ fuel
      → drive n run w ≡ some x
      → rest polls fuel (poll r wake left run w) ≡ some x

  drive-rest : (n : ℕ) → Agrees n
  drive-rest zero polls left fuel run w x hp hl hf e = unfold drive in cc
  drive-rest (suc n) polls zero fuel run w x hp hl hf e = absurd (omega arith)
  drive-rest (suc n) polls (suc left) fuel run w x hp hl hf e =
      rw (poll_step left run w)
        (split (drive-rest n) (turn r wake run w) (sym (drive_step n run w) ∙ e))
    where
      parked_case :
          (m : ℕ) (run : AsyncRun Fut Sleep) (v : World)
          → suc n ≤ m
          → Agrees n
          → drive n run v ≡ some x
          → block_on r wake m fuel run v ≡ some x
      parked_case zero run v h ih e = absurd (omega arith)
      parked_case (suc m) run v h ih e =
          block_on_step m fuel run v
          ∙ ih m fuel fuel run v x (omega arith) (omega arith) (omega arith) e

      split :
          Agrees n
          → (t : Turn O R A Fut Sleep × World) → go_on n t ≡ some x
          → rest polls fuel (after_turn left t) ≡ some x
      split ih (again run', v) e =
          ih polls left fuel run' v x (omega arith) (omega arith) (omega arith) e
      split ih (parked run', v) e = parked_case polls run' v hp ih e
      split ih (resolved outcome run', v) e = e
      split ih (panicked, v) e = cc

  -- What the turns yield, an executor yields, with as many polls and as much fuel as there are turns.
  pub block_on-drive :
      (n : ℕ) (run : AsyncRun Fut Sleep) (w : World) (x : RunOutcome O R A × World)
      → drive n run w ≡ some x
      → block_on r wake (suc n) n run w ≡ some x
  block_on-drive n run w x e =
      block_on_step n n run w
      ∙ drive-rest n n n n run w x (omega arith) (omega arith) (omega arith) e

  abbrev Driven : AsyncRun Fut Sleep → World → RunOutcome O R A × World → Type 0
  Driven run w x = (n : ℕ) × (drive n run w ≡ some x)

  rest-Driven :
      (polls fuel left : ℕ) (run : AsyncRun Fut Sleep) (w : World) (x : RunOutcome O R A × World)
      → ((run : AsyncRun Fut Sleep) (w : World)
          → block_on r wake polls fuel run w ≡ some x
          → Driven run w x)
      → rest polls fuel (poll r wake left run w) ≡ some x
      → Driven run w x
  rest-Driven polls fuel zero run w x ih e = unfold poll in cc
  rest-Driven polls fuel (suc left) run w x ih e =
      let (n, d) =
        split (turn r wake run w) (λ run v. rest-Driven polls fuel left run v x ih)
          (ap (rest polls fuel) (sym (poll_step left run w)) ∙ e) in
      (suc n, drive_step n run w ∙ d)
    where
      split :
          (t : Turn O R A Fut Sleep × World)
          → ((run : AsyncRun Fut Sleep) (v : World)
              → rest polls fuel (poll r wake left run v) ≡ some x
              → Driven run v x)
          → rest polls fuel (after_turn left t) ≡ some x
          → (n : ℕ) × (go_on n t ≡ some x)
      split (again run', v) rec e = rec run' v e
      split (parked run', v) rec e = ih run' v e
      split (resolved outcome run', v) rec e = (0, e)
      split (panicked, v) rec e = cc

  -- What an executor yields, the turns yield.
  pub block_on-Driven :
      (polls fuel : ℕ) (run : AsyncRun Fut Sleep) (w : World) (x : RunOutcome O R A × World)
      → block_on r wake polls fuel run w ≡ some x
      → (n : ℕ) × (drive n run w ≡ some x)
  block_on-Driven zero fuel run w x e = unfold block_on in cc
  block_on-Driven (suc polls) fuel run w x e =
      rest-Driven polls fuel fuel run w x (λ run v. block_on-Driven polls fuel run v x)
        (sym (block_on_step polls fuel run w) ∙ e)

  -- The turns yield one outcome, whatever their number.
  pub drive_unique :
      (n m : ℕ) (run : AsyncRun Fut Sleep) (w : World) (x y : RunOutcome O R A × World)
      → drive n run w ≡ some x
      → drive m run w ≡ some y
      → x ≡ y
  drive_unique zero m run w x y e f = unfold drive in cc
  drive_unique (suc n) zero run w x y e f = unfold drive in cc
  drive_unique (suc n) (suc m) run w x y e f =
      split (turn r wake run w) (λ run v. drive_unique n m run v x y) (sym (drive_step n run w) ∙ e)
        (sym (drive_step m run w) ∙ f)
    where
      split :
          (t : Turn O R A Fut Sleep × World)
          → ((run : AsyncRun Fut Sleep) (v : World)
              → drive n run v ≡ some x
              → drive m run v ≡ some y
              → x ≡ y)
          → go_on n t ≡ some x
          → go_on m t ≡ some y
          → x ≡ y
      split (again run', v) rec e f = rec run' v e f
      split (parked run', v) rec e f = rec run' v e f
      split (resolved outcome run', v) rec e f = cc
      split (panicked, v) rec e f = cc
