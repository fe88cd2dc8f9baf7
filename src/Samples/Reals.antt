-- ===== src/Samples/Reals.antt =====
-- Floats that are exact on whole numbers, with infinity and NaN.
use relentless.Prelude.{ℕ, ◌*◌, ◌≤◌, max, ◌≡◌, refl, Bool, true, false, leb, arith}
use relentless.Duration.{duration_max}
use relentless.Wait.Exponential.{Float, FloatLaws}

pub data Real : Type 0 where
  whole : ℕ → Real
  inf nan : Real

abbrev pub times : Real → Real → Real
times (whole a) (whole b) = whole (a * b)
times nan y = nan
times x nan = nan
times _ _ = inf

abbrev pub at_most : Real → Real → Bool
at_most (whole a) (whole b) = leb a b
at_most nan y = false
at_most x nan = false
at_most x inf = true
at_most inf (whole b) = false

abbrev pub finite : Real → Bool
finite (whole a) = true
finite _ = false

abbrev pub maximum : Real → Real → Real
maximum (whole a) (whole b) = whole (max a b)
maximum nan y = y
maximum x nan = x
maximum _ _ = inf

abbrev pub truncated : Real → ℕ
truncated (whole a) = a
truncated inf = 340282366920938463463374607431768211455
truncated nan = 0

abbrev pub reals : Float
reals = record {
  F64 = Real;
  infinity = inf;
  mul = times;
  le = at_most;
  is_finite = finite;
  larger = maximum;
  of_nat = whole;
  to_nat = truncated;
}

truncated-below : (x : Real) → at_most (whole duration_max) x ≡ false → truncated x ≤ duration_max
truncated-below (whole a) h = ground arith
truncated-below inf h = cc
truncated-below nan h = omega arith

pub reals-FloatLaws : FloatLaws reals
reals-FloatLaws = record {
  to_nat-of_nat = λ n h. refl;
  mul-of_nat = λ a b h k l. refl;
  le-of_nat = λ a b h k. refl;
  is_finite-of_nat = λ n h. refl;
  larger-of_nat = λ n h. refl;
  max-of_nat = λ n h. ground arith;
  to_nat-below = truncated-below;
}
