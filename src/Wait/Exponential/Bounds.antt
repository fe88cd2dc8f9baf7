-- ===== src/Wait/Exponential/Bounds.antt =====
-- What exponential backoff promises: it always yields a duration, stays at zero from zero, follows
-- the formula where floats are exact, and its builder keeps the base at one or more.
use native.Mathlib.Nat.{one-le-pow}
use relentless.Prelude.{
  ℕ, ◌-◌, ◌*◌, ◌^◌, ◌≤◌, ◌≡◌, refl, ap, ◌==◌, false, max, if◌then◌else◌, arith, inl, inr,
  Bool-cases,
}
use relentless.Duration.{IsDuration, duration_max}
use relentless.State.{RetryState}
use relentless.Wait.Exponential.{
  Float, FloatLaws, WaitExponential, duration_of_nanos, saturating_duration_mul_f64,
  pow_nonnegative_f64, with_base, exponential, exponential_wait,
}
use relentless.Wait.Exponential.Power.{pow_nonnegative_f64-exact, le-mul_left, one-pow}

module _ (fl : Float) where
  open fl use {F64, mul, of_nat}

  -- The product that the code computes in floats.
  abbrev pub float_delay : WaitExponential fl → RetryState → F64
  float_delay e s = mul (of_nat e.initial) (pow_nonnegative_f64 fl e.base (s.attempt - 1))

module _ (fl : Float) (laws : FloatLaws fl) where
  open fl use {F64, le, is_finite, larger, of_nat, to_nat}

  duration_of_nanos-below : (n : ℕ) → IsDuration n → duration_of_nanos fl n ≡ n
  unfolding duration_of_nanos
  duration_of_nanos-below n h = omega arith

  -- Exponential backoff is total, for any initial delay, any base, NaN and infinity included, and
  -- any attempt: from a zero initial delay it yields zero; otherwise, where the float product is
  -- at least the largest duration it yields that, and else the product truncated to nanoseconds,
  -- which the split into u64 seconds and nanoseconds does not change. The result is always a
  -- duration, if a float that is not at least the largest duration truncates to one.
  pub exponential_wait_total :
      {World : Type 0} (e : WaitExponential fl) (s : RetryState) (w : World)
      → let delay = ((exponential_wait fl e).next_wait s w).0 in
        IsDuration delay
        × (delay ≡ (
            if e.initial == 0
            then 0
            else if le (of_nat duration_max) (float_delay fl e s)
            then duration_max
            else to_nat (float_delay fl e s)))
  unfolding exponential_wait saturating_duration_mul_f64 duration_of_nanos
  exponential_wait_total e s w = elim (Bool-cases (le (of_nat duration_max) (float_delay fl e s))) [
    | inl over ↦ (ground arith, ground arith)
    | inr under ↦ (
      ground (arith, laws.to_nat-below (float_delay fl e s) under),
      ground (arith, laws.to_nat-below (float_delay fl e s) under),
    )
  ]

  -- Where `initial * base ^ (attempt - 1)` is at most 2 ^ 53 nanoseconds (104 days), for a whole
  -- base and an initial delay of at least one, the delay is exactly that, under the laws that
  -- floats have on whole numbers up to 2 ^ 53.
  pub exponential_wait-exact :
      {World : Type 0} (initial base : ℕ) (s : RetryState) (w : World)
      → 1 ≤ initial
      → 1 ≤ base
      → initial * base ^ (s.attempt - 1) ≤ 2 ^ 53
      → (exponential_wait fl (record { initial = initial; base = of_nat base })).next_wait s w
        ≡ (initial * base ^ (s.attempt - 1), w)
  unfolding exponential_wait saturating_duration_mul_f64
  exponential_wait-exact initial base s w hi hb fits =
      let k = s.attempt - 1 in
      let power : base ^ k ≤ 2 ^ 53 = omega (arith, le-mul_left (base ^ k) initial hi, fits) in
      let first : initial ≤ 2 ^ 53 =
        omega (arith, le-mul_left initial (base ^ k) (one-le-pow k base hb), fits) in
      ground (
        arith,
        pow_nonnegative_f64-exact fl laws base k hb power,
        laws.mul-of_nat initial (base ^ k) first power fits,
        laws.max-of_nat (initial * base ^ k) fits,
        laws.to_nat-of_nat (initial * base ^ k) fits,
        duration_of_nanos-below (initial * base ^ k) (omega (arith, fits)),
      )

  -- `.base(n)` for a whole number n up to 2 ^ 53 takes 1 for 0 and n otherwise: where the product
  -- with that base is at most 2 ^ 53 nanoseconds, for an initial delay of at least one, the delay
  -- is exactly it, under the laws that floats have on whole numbers up to 2 ^ 53.
  pub with_base-exact :
      {World : Type 0} (initial n : ℕ) (s : RetryState) (w : World)
      → n ≤ 2 ^ 53
      → 1 ≤ initial
      → initial * max n 1 ^ (s.attempt - 1) ≤ 2 ^ 53
      → (exponential_wait fl (with_base fl (exponential fl initial) (of_nat n))).next_wait s w
        ≡ (initial * max n 1 ^ (s.attempt - 1), w)
  unfolding with_base exponential
  with_base-exact initial n s w hn pos fits = ground (
    arith,
    laws.is_finite-of_nat n hn,
    laws.larger-of_nat n hn,
    exponential_wait-exact initial (max n 1) s w pos (omega arith) fits,
  )

  -- `.base(x)` for an infinite or NaN base gives a constant backoff, under the laws that floats
  -- have on whole numbers up to 2 ^ 53: the initial delay, where that is 1 to 2 ^ 53 nanoseconds,
  -- at each attempt.
  pub with_base-not_finite :
      {World : Type 0} (e : WaitExponential fl) (x : F64) (s : RetryState) (w : World)
      → 1 ≤ e.initial
      → e.initial ≤ 2 ^ 53
      → is_finite x ≡ false
      → (exponential_wait fl (with_base fl e x)).next_wait s w ≡ (e.initial, w)
  unfolding with_base
  with_base-not_finite e x s w pos hi wild =
      let k = s.attempt - 1 in
      let unit : e.initial * 1 ^ k ≡ e.initial =
        omega (arith, ap (λ (t : ℕ). e.initial * t) (one-pow 1 k refl)) in
      ground (
        arith,
        exponential_wait-exact e.initial 1 s w pos (omega arith) (omega (arith, unit)),
        unit,
      )
