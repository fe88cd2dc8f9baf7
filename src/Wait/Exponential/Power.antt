-- ===== src/Wait/Exponential/Power.antt =====
-- The loop of `pow_nonnegative_f64` raises to a power, in the window where floats are exact.
use mathlib.Core.WellFounded.{Acc}
use native.Mathlib.Decide.{dec_lt}
use native.Mathlib.Nat.{pow-suc, one-le-pow, one-le-mul, mul_assoc, mul_comm}
use native.Mathlib.Numerals.{unary_clauses}
use relentless.Prelude.{
  ℕ, zero, suc, ◌+◌, ◌*◌, ◌/◌, ◌%◌, ◌^◌, ◌≤◌, ◌<◌, ◌≡◌, sym, ap, ◌∙◌, true, leb, arith, inl, inr,
  Bool-cases, ◌⊎◌,
}
use relentless.Wait.Exponential.{Float, FloatLaws, pow_loop, pow_nonnegative_f64, lt_wf}

pow-zero : (f : ℕ) → f ^ 0 ≡ 1
pow-zero f = simp unary_clauses

pow-double : (f k : ℕ) → f ^ (k + k) ≡ (f * f) ^ k
pow-double f zero = simp unary_clauses
pow-double f (suc k) = grind (
  arith,
  pow-double f k,
  pow-suc (f * f) k,
  pow-suc f (k + k),
  pow-suc f (suc (k + k)),
  ap (λ (t : ℕ). f ^ t) (let e : suc k + suc k ≡ suc (suc (k + k)) = omega arith in e),
)

pow-even : (f n : ℕ) → n % 2 ≡ 0 → f ^ n ≡ (f * f) ^ (n / 2)
pow-even f n h = ap (λ (t : ℕ). f ^ t) (omega arith) ∙ pow-double f (n / 2)

pow-odd : (f n : ℕ) → n % 2 ≡ 1 → f ^ n ≡ f * (f * f) ^ (n / 2)
pow-odd f n h =
    ap (λ (t : ℕ). f ^ t) (let e : n ≡ suc (n / 2 + n / 2) = omega arith in e)
    ∙ (pow-suc f (n / 2 + n / 2)
        ∙ (ap (λ (t : ℕ). t * f) (pow-double f (n / 2)) ∙ mul_comm ((f * f) ^ (n / 2)) f))

-- Each factor of a product of positive numbers is at most the product.
pub le-mul_left : (a b : ℕ) → 1 ≤ b → a ≤ a * b
le-mul_left a b h = grind arith

record InWindow (r f n : ℕ) : Type 0 where
  pub r_pos : 1 ≤ r
  pub f_pos : 1 ≤ f
  pub n_pos : 1 ≤ n
  pub fits : r * f ^ n ≤ 2 ^ 53

base_fits : (r f n : ℕ) → InWindow r f n → r * f ≤ 2 ^ 53
base_fits r f zero v = absurd (omega (arith, v.n_pos))
base_fits r f (suc m) v = omega (
  arith,
  ap (λ (t : ℕ). r * t) (pow-suc f m),
  le-mul_left (r * f) (f ^ m) (one-le-pow m f v.f_pos),
  v.fits,
)

even_next : (r f n : ℕ) → InWindow r f n → n % 2 ≡ 0 → InWindow r (f * f) (n / 2)
even_next r f n v h = record {
  r_pos = v.r_pos;
  f_pos = one-le-mul v.f_pos v.f_pos;
  n_pos = omega (arith, v.n_pos);
  fits = omega (arith, ap (λ (t : ℕ). r * t) (pow-even f n h), v.fits);
}

odd_next : (r f n : ℕ) → InWindow r f n → n % 2 ≡ 1 → 0 < n / 2 → InWindow (r * f) (f * f) (n / 2)
odd_next r f n v h more = record {
  r_pos = one-le-mul v.r_pos v.f_pos;
  f_pos = one-le-mul v.f_pos v.f_pos;
  n_pos = more;
  fits = omega (arith, ap (λ (t : ℕ). r * t) (pow-odd f n h), v.fits);
}

pow_at_one : (f n : ℕ) → n ≡ 1 → f ^ n ≡ f
pow_at_one f n h = rw h (rw pow-suc (omega (arith, ap (λ (t : ℕ). t * f) (pow-zero f))))

le-square : (f : ℕ) → f ≤ f * f
le-square zero = omega arith
le-square (suc m) = le-mul_left (suc m) (suc m) (omega arith)

square_fits : (f r k : ℕ) → InWindow r (f * f) k → f * f ≤ 2 ^ 53
square_fits f r k v = omega (arith, base_fits r (f * f) k v, le-mul_left (f * f) r v.r_pos)

pub one-pow : (b n : ℕ) → b ≡ 1 → b ^ n ≡ 1
one-pow b zero h = simp unary_clauses
one-pow b (suc n) h = omega (arith, pow-suc b n, ap (λ (t : ℕ). b ^ n * t) h, one-pow b n h)

even_value : (r f n : ℕ) → n % 2 ≡ 0 → r * (f * f) ^ (n / 2) ≡ r * f ^ n
even_value r f n h = ap (λ (t : ℕ). r * t) (sym (pow-even f n h))

odd_value : (r f n : ℕ) → n % 2 ≡ 1 → r * f * (f * f) ^ (n / 2) ≡ r * f ^ n
odd_value r f n h = mul_assoc r f _ ∙ ap (λ (t : ℕ). r * t) (sym (pow-odd f n h))

mod_cases : (n : ℕ) → (n % 2 ≡ 0) ⊎ (n % 2 ≡ 1)
mod_cases n = ground arith

-- One round of the loop, in each of its three ways.
module _ (fl : Float) (result factor : fl.F64) (n : ℕ) (smaller : (m : ℕ) → m < n → Acc ◌<◌ m) where
  abbrev round : fl.F64
  round = pow_loop fl result factor n (Acc.intro n smaller)

  round-even :
      (value : fl.F64)
      → n % 2 ≡ 0
      → 0 < n / 2
      → fl.is_finite (fl.mul factor factor) ≡ true
      → ((p : n / 2 < n)
          → pow_loop fl result (fl.mul factor factor) (n / 2) (smaller (n / 2) p) ≡ value)
      → round ≡ value
  unfolding pow_loop
  round-even value e more fin rest = grind arith

  round-odd :
      (value : fl.F64)
      → n % 2 ≡ 1
      → 0 < n / 2
      → fl.is_finite (fl.mul result factor) ≡ true
      → fl.is_finite (fl.mul factor factor) ≡ true
      → ((p : n / 2 < n)
          → pow_loop fl (fl.mul result factor) (fl.mul factor factor) (n / 2) (smaller (n / 2) p)
            ≡ value)
      → round ≡ value
  unfolding pow_loop
  round-odd value e more fin fin' rest = grind arith

  round_last : n ≡ 1 → fl.is_finite (fl.mul result factor) ≡ true → round ≡ fl.mul result factor
  unfolding pow_loop
  round_last e fin = grind arith

module _ (fl : Float) (laws : FloatLaws fl) where
  open fl use {mul, is_finite, of_nat}

  -- The square of the factor, where more rounds follow, and the product are exact.
  square :
      (f r k : ℕ)
      → InWindow r (f * f) k
      → (mul (of_nat f) (of_nat f) ≡ of_nat (f * f))
        × (is_finite (mul (of_nat f) (of_nat f)) ≡ true)
  square f r k v =
      let small = square_fits f r k v in
      let below : f ≤ 2 ^ 53 = omega (arith, le-square f) in
      let e = laws.mul-of_nat f f below below small in
      (e, rw e (laws.is_finite-of_nat (f * f) small))

  times :
      (r f n : ℕ)
      → InWindow r f n
      → (mul (of_nat r) (of_nat f) ≡ of_nat (r * f))
        × (is_finite (mul (of_nat r) (of_nat f)) ≡ true)
  times r f n v =
      let small = base_fits r f n v in
      let e =
        laws.mul-of_nat r f (omega (arith, le-mul_left r f v.f_pos))
          (omega (arith, le-mul_left f r v.r_pos)) small in
      (e, rw e (laws.is_finite-of_nat (r * f) small))

  pow_loop-exact :
      (r f n : ℕ) (w : Acc ◌<◌ n)
      → InWindow r f n
      → pow_loop fl (of_nat r) (of_nat f) n w ≡ of_nat (r * f ^ n)
  pow_loop-exact r f n (Acc.intro _ smaller) v = elim (mod_cases n) [
    | inl h ↦
        let next = even_next r f n v h in
        let (e, fin) = square f r (n / 2) next in
        round-even fl _ _ n smaller _ h (omega (arith, v.n_pos)) fin λ p.
          ap (λ x. pow_loop fl (of_nat r) x (n / 2) (smaller (n / 2) p)) e
          ∙ (pow_loop-exact r (f * f) (n / 2) (smaller (n / 2) p) next
              ∙ ap of_nat (even_value r f n h))
    | inr h ↦ elim (dec_lt 0 (n / 2)) [
      | yes more ↦
          let next = odd_next r f n v h more in
          let (e, fin) = square f (r * f) (n / 2) next in
          let (d, fin') = times r f n v in
          round-odd fl _ _ n smaller _ h more fin' fin λ p.
            ap (λ x. pow_loop fl x (mul (of_nat f) (of_nat f)) (n / 2) (smaller (n / 2) p)) d
            ∙ (ap (λ x. pow_loop fl (of_nat (r * f)) x (n / 2) (smaller (n / 2) p)) e
                ∙ (pow_loop-exact (r * f) (f * f) (n / 2) (smaller (n / 2) p) next
                    ∙ ap of_nat (odd_value r f n h)))
      | no over ↦
          let (d, fin) = times r f n v in
          round_last fl _ _ n smaller (omega (arith, v.n_pos)) fin
          ∙ (d ∙ ap (λ (t : ℕ). of_nat (r * t)) (sym (pow_at_one f n (omega (arith, v.n_pos)))))
    ]
  ]

  compare_one :
      (base k : ℕ) → base ^ suc k ≤ 2 ^ 53 → 1 ≤ base → fl.le (of_nat base) (of_nat 1) ≡ leb base 1
  compare_one base k fits pos =
      laws.le-of_nat base 1
        (omega (arith, pow-suc base k, le-mul_left base (base ^ k) (one-le-pow k base pos)))
        (omega arith)

  -- For a whole base of at least one and a power of at most 2 ^ 53, repeated squaring returns the
  -- power itself, under the laws that floats have on whole numbers up to 2 ^ 53.
  pub pow_nonnegative_f64-exact :
      (base exponent : ℕ)
      → 1 ≤ base
      → base ^ exponent ≤ 2 ^ 53
      → pow_nonnegative_f64 fl (of_nat base) exponent ≡ of_nat (base ^ exponent)
  unfolding pow_nonnegative_f64
  pow_nonnegative_f64-exact base zero pos fits = ap of_nat (sym (pow-zero base))
  pow_nonnegative_f64-exact base (suc k) pos fits = elim (Bool-cases (leb base 1)) [
    | inl small ↦ ground (arith, compare_one base k fits pos, one-pow base (suc k))
    | inr big ↦ ground (
      arith,
      compare_one base k fits pos,
      pow_loop-exact 1 base (suc k) (lt_wf.apply (suc k))
          (record { r_pos = omega arith; f_pos = pos; n_pos = omega arith; fits = omega arith }),
    )
  ]
