-- ===== src/Examples/VirtualClock.antt =====
-- examples/testing-with-virtual-clock.rs: a retry that takes its clock as a parameter.
use Prim.Native.String.{String}
use native.Mathlib.Nat.{pow-le-pow_right, one-le-pow}
use relentless.Prelude.{
  ℕ, ◌+◌, ◌-◌, ◌*◌, ◌^◌, ◌≤◌, ◌<◌, min, ◌≡◌, refl, ap, ◌∙◌, false, Option, none, some, [], ◌∷◌,
  arith,
}
use relentless.Effect.{Eff, Cell}
use relentless.Duration.{u32_max, from_millis}
use relentless.State.{RetryState}
use relentless.Decision.{Result, err, classify_result, result_outcome, default_classifier}
use relentless.Stop.{attempts, stop_after_attempts, never}
use relentless.Wait.{Wait, cap}
use relentless.Wait.Exponential.{Float, FloatLaws, exponential, exponential_wait}
use relentless.Wait.Exponential.Bounds.{exponential_wait-exact}
use relentless.Clock.{SyncClock, VirtualTime, new, virtual_sync, advance}
use relentless.Engine.Error.{RetryError}
use relentless.Engine.Hooks.{ExecutionHooks, no_hooks}
use relentless.Engine.Sync.{Retry}
use relentless.Engine.Sync.Builder.{from_parts, set_wait, set_stop, set_clock, set_timeout}
use relentless.Engine.Reference.{Rules}
use relentless.Engine.Reference.Pass.{Plays, on_virtual_clock}
use relentless.Engine.Reference.Ends.{delays}
use relentless.Engine.Reference.TimedOut.{clamped, NeverSettles, run-timed_out}
use relentless.Policy.{retry_op, default_stop, default_wait}
use relentless.Examples.Calls.{call_built, call_built-run, unmoved}

abbrev pub initial_backoff : ℕ
initial_backoff = from_millis 100

abbrev pub backoff_cap : ℕ
backoff_cap = 5_000_000_000

abbrev pub budget : ℕ
budget = from_millis 400

-- `fl` and `system` are the defaults' floats and clock, which are replaced.
module _ {World : Type 0} (fl : Float) (system : SyncClock World) where
  unfoldable pub fetch_retry :
      Eff World (Result ℕ String)
      → SyncClock World
      → Option (Retry World (Result ℕ String) ℕ String)
  fetch_retry operation clock = elim (retry_op fl system (λ state. operation)) [
    | none ↦ none
    | some r ↦ some (
        set_timeout
          (set_clock
            (set_stop
              (set_wait r (cap (exponential_wait fl (exponential fl initial_backoff)) backoff_cap))
              never)
            clock)
          budget)
  ]

  unfoldable pub fetch_with_retries :
      Eff World (Result ℕ String)
      → SyncClock World
      → ℕ
      → World
      → Option (Result ℕ (RetryError String (Result ℕ String)) × World)
  unfolding fetch_retry
  fetch_with_retries operation clock = call_built (fetch_retry operation clock)

-- The operations: each answers by the number of its call.
pub record Service : Type 0 where
  pub time : VirtualTime
  pub calls : ℕ

abbrev pub time_cell : Cell Service VirtualTime
time_cell = record { get = λ w. w.time; set = λ t w. record w { time = t }; get-set = λ t w. refl }

abbrev pub fresh : Service
fresh = record { time = new; calls = 0 }

abbrev pub answering : (ℕ → Result ℕ String) → Eff Service (Result ℕ String)
answering answer w = (answer (w.calls + 1), record w { calls = w.calls + 1 })

abbrev hooks : ExecutionHooks Service (Result ℕ String) ℕ String
hooks = no_hooks

plays :
    (answer : ℕ → Result ℕ String)
    → Plays time_cell (λ s. answering answer) hooks answer (λ n. 0) (λ n w. n ≡ w.calls + 1)
unfolding advance
plays answer = record {
  at_op = λ s w h. (ap answer (omega (arith, h)), λ fits. unmoved w.time, omega (arith, h));
  at_set = λ n t w h. h;
  at_before = λ s w. (refl, λ n h. h);
  at_after = λ s w. (refl, λ n h. h);
  at_exit = λ e w. (refl, λ n h. h);
}

module _ (fl : Float) (laws : FloatLaws fl) (system : SyncClock Service) where
  abbrev backoff : RetryState → ℕ
  backoff s =
      let wait : Wait Service =
        cap (exponential_wait fl (exponential fl initial_backoff)) backoff_cap in
      (wait.next_wait s fresh).0

  abbrev rules : Rules (Result ℕ String) ℕ String
  rules = record {
    classify = classify_result;
    stops = λ s. false;
    delay = backoff;
    timeout = some budget;
  }

  built :
      (answer : ℕ → Result ℕ String)
      → fetch_retry fl system (answering answer) (virtual_sync time_cell)
        ≡ some (on_virtual_clock time_cell rules (λ s. answering answer) hooks)
  unfolding fetch_retry retry_op default_stop default_wait attempts stop_after_attempts from_parts
      set_stop set_wait set_clock set_timeout default_classifier result_outcome never cap
      exponential_wait
  built answer = refl

  doubling : ℕ → ℕ
  doubling n = 100_000_000 * 2 ^ (n - 1)

  small : (n : ℕ) → n ≤ 4 → doubling n ≤ 800_000_000
  unfolding doubling
  small n h =
      let few : n - 1 ≤ 3 = omega (arith, h) in
      let top : 2 ^ (n - 1) ≤ 2 ^ 3 = pow-le-pow_right (omega arith) few in omega (arith, top)

  paced : (s : RetryState) → s.attempt ≤ 4 → backoff s ≡ doubling s.attempt
  unfolding doubling cap exponential
  paced s h =
      let fits = small s.attempt h in
      let exact =
        exponential_wait-exact fl laws initial_backoff 2 s fresh (omega arith) (omega arith)
          (omega (arith, fits)) in
      ap (λ (d : ℕ × Service). min d.0 backoff_cap) exact ∙ omega (arith, fits)

  never_settles :
      (answer : ℕ → Result ℕ String) (last : ℕ → String)
      → ((i : ℕ) → 0 < i → i ≤ 4 → answer i ≡ err (last i))
      → NeverSettles rules answer (λ i. err (last i)) (λ i. 0) doubling 4 budget
  unfolding classify_result doubling
  never_settles answer last fails = record {
    again = λ i pos few. ap classify_result (fails i pos few);
    instant = λ i pos few. refl;
    goes_on = λ s few. refl;
    paced = paced;
    positive = λ i pos few. omega (arith, one-le-pow (i - 1) 2 (omega arith));
    timed = refl;
  }

  -- The virtual-clock example: an operation that takes no time and fails at its first four calls,
  -- each with an error of its own, whatever it would answer later, is called four times under the
  -- budget of 400 ms: the retry is exhausted with the fourth error, the clock has recorded waits of
  -- 100, 200 and 100 ms, the last of them cut to what was left, and it reads 400 ms. Floats obey the
  -- laws that they have on whole numbers up to 2 ^ 53, and any fuel for four attempts within the range
  -- of attempt numbers will do.
  pub fetch_with_retries-timed_out :
      (answer : ℕ → Result ℕ String) (last : ℕ → String) (fuel : ℕ)
      → ((i : ℕ) → 0 < i → i ≤ 4 → answer i ≡ err (last i))
      → 4 ≤ fuel
      → fuel < u32_max
      → (w : Service) × (fetch_with_retries fl system
            (answering answer)
            (virtual_sync time_cell)
            fuel
            fresh
          ≡ some (err (RetryError.exhausted (err (last 4))), w))
        × (w.time
            ≡ record { now = 400_000_000; waits = 100_000_000 ∷ 200_000_000 ∷ 100_000_000 ∷ [] })
  unfolding fetch_with_retries clamped delays doubling
  fetch_with_retries-timed_out answer last fuel fails few room =
      let (w, ran, there) =
        run-timed_out rules answer (λ i. err (last i)) (λ i. 0) doubling 4 budget time_cell
          (λ s. answering answer) hooks (plays answer) 3 fuel fresh
          (never_settles answer last fails) (omega (arith, few)) room (omega arith) (omega arith)
          refl (omega arith) in
      (w, call_built-run _ _ fuel _ _ (built answer) ran, there)
