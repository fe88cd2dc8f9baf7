-- ===== src/Samples/Waits.antt =====
-- The wait strategies, at concrete states and generator states.
use relentless.Prelude.{ℕ, ◌≤◌, min, ◌≡◌, ◌≢◌, ◌==◌, refl, some, if◌then◌else◌, arith}
use relentless.Effect.{Cell}
use relentless.Duration.{IsDuration, duration_max, saturating_mul}
use relentless.State.{RetryState}
use relentless.Wait.{fixed}
use relentless.Wait.Exact.{Schedule, interpret, exact, next_wait-exact}
use relentless.Wait.Exact
use relentless.Wait.Rng.Laws.{after_draws, after_draws_distinct}
use relentless.Wait.Jitter.{decorrelated, Jittered, jittered_wait}
use relentless.Wait.Jitter.Bounds.{jittered_wait_bounds}
use relentless.Wait.Exponential.{exponential_wait, pow_nonnegative_f64}
use relentless.Wait.Exponential.Power.{pow_nonnegative_f64-exact}
use relentless.Wait.Exponential.Bounds.{float_delay, exponential_wait_total, exponential_wait-exact}
use relentless.Samples.Reals.{whole, inf, reals, reals-FloatLaws}

abbrev world : ℕ
world = 0

abbrev fourth : RetryState
fourth = record { attempt = 4; elapsed = 90; previous_delay = some 30 }

-- Linear growth, capped, for three attempts, and then a fixed delay next to the largest one.
abbrev schedule : Schedule
schedule =
    Exact.chain (Exact.cap (Exact.linear 10 20) 45)
      (Exact.add (Exact.fixed duration_max) (Exact.fixed 5)) 3

next_wait-exact_example :
    (interpret schedule).next_wait fourth world ≡ (min (exact schedule 4) duration_max, world)
next_wait-exact_example =
    next_wait-exact schedule fourth world
      ((((omega arith, omega arith), omega arith)), (omega arith, omega arith))

-- A generator whose state is the whole world.
abbrev whole_world : Cell ℕ ℕ
whole_world = record { get = λ w. w; set = λ a w. a; get-set = λ a w. refl }

abbrev jittered : Jittered ℕ
jittered = record { inner = fixed 40; kind = decorrelated; seed = 7; rng = whole_world }

jittered_wait_bounds_example :
    (40 ≤ ((jittered_wait jittered).next_wait fourth 99).0)
    × (((jittered_wait jittered).next_wait fourth 99).0 ≤ 90)
unfolding fixed saturating_mul
jittered_wait_bounds_example = jittered_wait_bounds jittered fourth 99 (unfold fixed in omega arith)

after_draws_distinct_example : after_draws whole_world 3 12345 ≢ after_draws whole_world 5 12345
after_draws_distinct_example =
    after_draws_distinct whole_world 3 5 12345 (omega arith) (omega arith) (omega arith)

pow_nonnegative_f64-exact_example : pow_nonnegative_f64 reals (whole 3) 5 ≡ whole 243
pow_nonnegative_f64-exact_example =
    pow_nonnegative_f64-exact reals reals-FloatLaws 3 5 (omega arith) (omega arith)

exponential_wait-exact_example :
    (exponential_wait reals (record { initial = 100; base = whole 3 })).next_wait fourth world
    ≡ (2700, world)
exponential_wait-exact_example =
    exponential_wait-exact reals reals-FloatLaws 100 3 fourth world (omega arith) (omega arith)
      (omega arith)

exponential_wait_total_example :
    let delay =
      ((exponential_wait reals (record { initial = 100; base = inf })).next_wait fourth world).0 in
    IsDuration delay
    × (delay ≡ (
        if 100 == 0
        then 0
        else if reals.le
            (whole duration_max)
            (float_delay reals (record { initial = 100; base = inf }) fourth)
        then duration_max
        else reals.to_nat (float_delay reals (record { initial = 100; base = inf }) fourth)))
exponential_wait_total_example =
    exponential_wait_total reals reals-FloatLaws (record { initial = 100; base = inf }) fourth world
