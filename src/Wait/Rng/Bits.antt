-- ===== src/Wait/Rng/Bits.antt =====
-- Exclusive or stays within the width of its arguments.
use Prim.Native.Nat.{bit_xor, bit_xor-bitwise, digits, differ}
use native.Mathlib.Nat.{pow-suc}
use relentless.Prelude.{ℕ, zero, suc, ◌/◌, ◌%◌, ◌^◌, ◌<◌, arith}

abbrev xor_digits : ℕ → ℕ → ℕ → ℕ
xor_digits n a b = digits (λ b. b) differ n a b

differ-lt : (a b : ℕ) → a < 2 → b < 2 → differ a b < 2
differ-lt zero b h k = k
differ-lt (suc zero) zero h k = h
differ-lt (suc zero) (suc zero) h k = omega arith
differ-lt (suc zero) (suc (suc b)) h k = absurd (omega arith)
differ-lt (suc (suc a)) b h k = absurd (omega arith)

-- Whatever the count of digits allowed, k digits in give k digits out.
xor_digits-lt : (k n a b : ℕ) → a < 2 ^ k → b < 2 ^ k → xor_digits n a b < 2 ^ k
xor_digits-lt k zero a b h g = g
xor_digits-lt k (suc n) zero b h g = g
xor_digits-lt zero (suc n) (suc a) b h g = absurd (omega arith)
xor_digits-lt (suc k) (suc n) (suc a) b h g = omega (
  arith,
  pow-suc 2 k,
  differ-lt (suc a % 2) (b % 2) (omega arith) (omega arith),
  xor_digits-lt k n (suc a / 2) (b / 2) (omega (arith, pow-suc 2 k)) (omega (arith, pow-suc 2 k)),
)

pub bit_xor-lt : (k a b : ℕ) → a < 2 ^ k → b < 2 ^ k → bit_xor a b < 2 ^ k
bit_xor-lt k a b h g = rw (bit_xor-bitwise a b) (xor_digits-lt k a a b h g)
