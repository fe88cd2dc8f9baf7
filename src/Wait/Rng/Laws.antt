-- ===== src/Wait/Rng/Laws.antt =====
-- The generator's outputs fit a u64, its bounded draws keep their bound, and its states do not
-- repeat within 2 ^ 64 draws.
use relentless.Prelude.{ℕ, zero, suc, ◌+◌, ◌*◌, ◌^◌, ◌≤◌, ◌<◌, ◌≡◌, ◌≢◌, refl, arith}
use relentless.Effect.{Cell, ◌>>=◌, pure}
use relentless.Duration.{u64_max}
use relentless.Wait.Rng.{
  u64, gamma, mix, advance, advance_cell_accesses, alone, next_u64, next_bounded,
}
use relentless.Wait.Rng.Bits.{bit_xor-lt}

pub mix-lt : (s : ℕ) → mix s < 2 ^ 64
unfolding mix
mix-lt s = bit_xor-lt 64 _ _ (omega arith) (omega arith)

module _ {World : Type 0} (state : Cell World ℕ) where
  -- On one thread a draw is an advance and the scrambling of what it returns.
  next_u64-advance : (w : World) → next_u64 state w ≡ (do z ← advance state; pure (mix z)) w
  unfolding next_u64 advance
  next_u64-advance w = refl

  -- Nor can one thread tell the two ways of advancing apart.
  advance-cell : (w : World) → alone state advance_cell_accesses w ≡ advance state w
  unfolding advance
  advance-cell w = refl

  -- A draw for a u64 bound is at most the bound.
  pub next_bounded-le : (max : ℕ) (w : World) → max ≤ u64_max → (next_bounded state max w).0 ≤ max
  unfolding next_bounded next_u64
  next_bounded-le max w h = ground (arith, mix-lt (u64 (state.get w + gamma)))

  -- The world after k draws.
  abbrev pub after_draws : ℕ → World → World
  after_draws zero w = w
  after_draws (suc k) w = (next_u64 state (after_draws k w)).1

  state-after_draws :
      (k : ℕ) (w : World)
      → state.get w < 2 ^ 64
      → state.get (after_draws k w) ≡ u64 (state.get w + k * gamma)
  unfolding next_u64
  state-after_draws zero w h = omega arith
  state-after_draws (suc k) w h = omega (
    arith,
    state.get-set (u64 (state.get (after_draws k w) + gamma)) (after_draws k w),
    state-after_draws k w h,
  )

  -- From any u64 state, the generator's states after j draws and after k draws differ, for j < k <
  -- 2 ^ 64: the stream has full period, so no two of its draws see one state.
  pub after_draws_distinct :
      (j k : ℕ) (w : World)
      → state.get w < 2 ^ 64
      → j < k
      → k < 2 ^ 64
      → state.get (after_draws j w) ≢ state.get (after_draws k w)
  after_draws_distinct j k w h hj hk e =
      odd_step (state.get w) j k hj hk
        (omega (arith, e, state-after_draws j w h, state-after_draws k w h))
    where
      odd_step : (s a b : ℕ) → a < b → b < 2 ^ 64 → u64 (s + a * gamma) ≢ u64 (s + b * gamma)
      odd_step s a b ha hb p = omega arith
