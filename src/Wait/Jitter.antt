-- ===== src/Wait/Jitter.antt =====
-- wait/jitter.rs, from line 122: jitter over an inner strategy.
pub mod Bounds
pub mod Seeds
use Prim.Native.Nat.{bit_xor}
use relentless.Prelude.{ℕ, ◌+◌, ◌-◌, ◌/◌, min, ◌==◌, Bool, if◌then◌else◌}
use relentless.Effect.{Eff, Cell, ◌>>=◌, ◌>>◌, pure}
use relentless.Duration.{u64_max, saturating_add, saturating_sub, saturating_mul}
use relentless.State.{RetryState}
use relentless.Wait.{Wait, fixed, unwrap_or}
use relentless.Wait.Rng.{
  default_jitter_seed, seeded_rng, derive_nonce, next_bounded, next_jitter_nonce,
}

pub data JitterKind : Type 0 where
  additive : ℕ → JitterKind
  full equal decorrelated : JitterKind

-- The generator is owned: `rng` is the cell that holds its state.
pub record Jittered (World : Type 0) : Type 0 where
  pub inner : Wait World
  pub kind : JitterKind
  pub seed : ℕ
  pub rng : Cell World ℕ

module _ {World : Type 0} where
  unfoldable pub random_duration_in : ℕ → ℕ → Cell World ℕ → Eff World ℕ
  random_duration_in lower upper rng =
      let range = saturating_sub upper lower in
      if range == 0
      then pure lower
      else (do random ← next_bounded rng (min range u64_max); pure (saturating_add lower random))

  unfoldable pub random_jitter_duration : ℕ → Cell World ℕ → Eff World ℕ
  unfolding random_duration_in
  random_jitter_duration max_jitter rng = random_duration_in 0 max_jitter rng

  unfoldable pub jitter_by : JitterKind → Cell World ℕ → ℕ → RetryState → Eff World ℕ
  unfolding random_jitter_duration
  jitter_by (additive max_jitter) rng base s = do
    jitter ← random_jitter_duration max_jitter rng
    pure (saturating_add base jitter)
  jitter_by full rng base s = random_jitter_duration base rng
  jitter_by equal rng base s = do
    jitter ← random_jitter_duration (base / 2) rng
    pure (saturating_add (base / 2) jitter)
  jitter_by decorrelated rng base s =
      random_duration_in base (saturating_mul (unwrap_or s.previous_delay base) 3) rng

  unfoldable pub jitter_from : Jittered World → ℕ → RetryState → Eff World ℕ
  unfolding jitter_by
  jitter_from j base s = jitter_by j.kind j.rng base s

  unfoldable pub jittered_wait : Jittered World → Wait World
  unfolding jitter_from
  jittered_wait j = record {
    next_wait = λ s. (do base ← j.inner.next_wait s; jitter_from j base s);
  }

  -- `Jittered::new` takes a fresh cell and seeds it with the next nonce.
  unfoldable pub new :
      Eff World ℕ → Wait World → JitterKind → Cell World ℕ → Eff World (Jittered World)
  new next_nonce inner kind rng w =
      (do
        nonce ← next_nonce
        λ v. (
          record { inner = inner; kind = kind; seed = default_jitter_seed; rng = rng },
          rng.set (seeded_rng default_jitter_seed nonce) v,
        ))
        w

  -- The trait's `.jitter(max)`, `.full_jitter()` and `.equal_jitter()`.
  unfoldable pub jitter : Eff World ℕ → Wait World → ℕ → Cell World ℕ → Eff World (Jittered World)
  unfolding new
  jitter next_nonce inner max_jitter rng = new next_nonce inner (additive max_jitter) rng

  unfoldable pub full_jitter : Eff World ℕ → Wait World → Cell World ℕ → Eff World (Jittered World)
  unfolding new
  full_jitter next_nonce inner rng = new next_nonce inner full rng

  unfoldable pub equal_jitter : Eff World ℕ → Wait World → Cell World ℕ → Eff World (Jittered World)
  unfolding new
  equal_jitter next_nonce inner rng = new next_nonce inner equal rng

  -- `decorrelated_jitter`, over the fixed strategy.
  unfoldable pub decorrelated_jitter : Eff World ℕ → ℕ → Cell World ℕ → Eff World (Jittered World)
  unfolding new
  decorrelated_jitter next_nonce base rng = new next_nonce (fixed base) decorrelated rng

  unfoldable pub with_seed : Jittered World → ℕ → Eff World (Jittered World)
  with_seed j seed w = (record j { seed = seed }, j.rng.set (seeded_rng seed (derive_nonce seed)) w)

  unfoldable pub with_nonce : Jittered World → ℕ → Eff World (Jittered World)
  with_nonce j nonce w = (j, j.rng.set (seeded_rng j.seed nonce) w)

  -- `Clone` gives the copy a cell of its own and the next nonce.
  unfoldable pub clone : Eff World ℕ → Jittered World → Cell World ℕ → Eff World (Jittered World)
  clone next_nonce j rng w =
      (do nonce ← next_nonce; λ v. (record j { rng = rng }, rng.set (seeded_rng j.seed nonce) v)) w
