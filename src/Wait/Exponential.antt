-- ===== src/Wait/Exponential.antt =====
-- wait/strategies.rs, from line 85: exponential backoff. `f64` is the parameter `Float`, with what
-- the code uses of it; what IEEE 754 says of those operations is `FloatLaws`.
pub mod Power
pub mod Bounds
use mathlib.Core.Logic.{dite}
use mathlib.Core.WellFounded.{Acc, WellFounded}
use native.Mathlib.Decide.{dec_lt}
use relentless.Prelude.{
  ℕ, zero, suc, ◌+◌, ◌-◌, ◌*◌, ◌/◌, ◌%◌, ◌^◌, ◌≤◌, ◌<◌, ◌≡◌, ◌==◌, Bool, true, false, not, leb, max,
  if◌then◌else◌, ◌&&◌, arith,
}
use relentless.Effect.{Eff, pure}
use relentless.Duration.{duration_max, nanos_per_sec, IsDuration}
use relentless.State.{RetryState}
use relentless.Wait.{Wait}
use relentless.Wait.Rng.{u64}

pub record Float : Type 1 where
  pub F64 : Type 0
  pub infinity : F64
  pub mul : F64 → F64 → F64
  -- `a <= b`; false where a side is NaN.
  pub le : F64 → F64 → Bool
  pub is_finite : F64 → Bool
  -- `f64::max`.
  pub larger : F64 → F64 → F64
  -- `n as f64` for a u128, and `x as u128`.
  pub of_nat : ℕ → F64
  pub to_nat : F64 → ℕ

Acc-below : (k n : ℕ) → n < k → Acc ◌<◌ n
Acc-below zero n h = elim h [ ]
Acc-below (suc k) n h = Acc.intro n (λ m hm. Acc-below k m (omega arith))

unfoldable pub lt_wf : WellFounded ◌<◌
unfolding Acc-below
lt_wf = record { apply = λ n. Acc-below (suc n) n (omega arith) }

module _ (fl : Float) where
  open fl use {F64, infinity, mul, le, is_finite, larger, of_nat, to_nat}

  abbrev pub one : F64
  one = of_nat 1

  -- IEEE 754 binary64: integers up to 2 ^ 53 are exact, comparison and multiplication are exact on
  -- them, and a value that is not at least `Duration::MAX` as a float truncates to a duration.
  pub record FloatLaws : Type 0 where
    pub to_nat-of_nat : (n : ℕ) → n ≤ 2 ^ 53 → to_nat (of_nat n) ≡ n
    pub mul-of_nat :
        (a b : ℕ)
        → a ≤ 2 ^ 53
        → b ≤ 2 ^ 53
        → a * b ≤ 2 ^ 53
        → mul (of_nat a) (of_nat b) ≡ of_nat (a * b)
    pub le-of_nat : (a b : ℕ) → a ≤ 2 ^ 53 → b ≤ 2 ^ 53 → le (of_nat a) (of_nat b) ≡ leb a b
    pub is_finite-of_nat : (n : ℕ) → n ≤ 2 ^ 53 → is_finite (of_nat n) ≡ true
    pub larger-of_nat : (n : ℕ) → n ≤ 2 ^ 53 → larger (of_nat n) (of_nat 1) ≡ of_nat (max n 1)
    pub max-of_nat : (n : ℕ) → n ≤ 2 ^ 53 → le (of_nat duration_max) (of_nat n) ≡ false
    pub to_nat-below : (x : F64) → le (of_nat duration_max) x ≡ false → to_nat x ≤ duration_max

  -- MIN_EXPONENTIAL_BASE is 1.0.
  unfoldable pub clamp_exponential_base : F64 → F64
  clamp_exponential_base base = if not (is_finite base) then one else larger base one

  -- The loop, which ends since `remaining` is halved: squaring, with the odd bits multiplied in.
  unfoldable pub pow_loop : F64 → F64 → (remaining : ℕ) → Acc ◌<◌ remaining → F64
  pow_loop result factor remaining (Acc.intro _ smaller) =
      let odd = remaining % 2 == 1 in
      let result' = if odd then mul result factor else result in
      let square = mul factor factor in
      let factor' = if is_finite square then square else infinity in
      let rest =
        dite (dec_lt 0 (remaining / 2))
          (λ h. pow_loop result' factor' (remaining / 2) (smaller (remaining / 2) (omega arith)))
          (λ _. result') in
      if odd && not (is_finite result') then infinity else rest

  unfoldable pub pow_nonnegative_f64 : F64 → ℕ → F64
  pow_nonnegative_f64 base exponent =
      if exponent == 0
      then one
      else if le base one
      then one
      else pow_loop one base exponent (lt_wf.apply exponent)

  -- `Duration::new(secs, nanos)` with nanos below one second.
  unfoldable pub duration_of_nanos : ℕ → ℕ
  duration_of_nanos total_nanos =
      u64 (total_nanos / nanos_per_sec) * nanos_per_sec + total_nanos % nanos_per_sec

  unfoldable pub saturating_duration_mul_f64 : ℕ → F64 → ℕ
  unfolding duration_of_nanos
  saturating_duration_mul_f64 dur factor =
      let nanos = mul (of_nat dur) factor in
      if dur == 0
      then 0
      else if le (of_nat duration_max) nanos
      then duration_max
      else duration_of_nanos (to_nat nanos)

  pub record WaitExponential : Type 0 where
    pub initial : ℕ
    pub base : F64

  unfoldable pub exponential : ℕ → WaitExponential
  exponential initial = record { initial = initial; base = of_nat 2 }

  -- The builder method `.base(f)`.
  unfoldable pub with_base : WaitExponential → F64 → WaitExponential
  unfolding clamp_exponential_base
  with_base e base = record e { base = clamp_exponential_base base }

  unfoldable pub exponential_wait : {World : Type 0} → WaitExponential → Wait World
  exponential_wait e = record {
    next_wait = λ s.
        pure (saturating_duration_mul_f64 e.initial (pow_nonnegative_f64 e.base (s.attempt - 1)));
  }
