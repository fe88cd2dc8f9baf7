-- ===== src/Wait/Jitter/Seeds.antt =====
-- An explicit seed pins the stream of delays.
use relentless.Prelude.{ℕ, ◌+◌, ◌-◌, ◌/◌, min, ◌≡◌, refl, List, [], ◌∷◌, arith}
use relentless.Effect.{Cell}
use relentless.Duration.{u64_max, saturating_mul}
use relentless.State.{RetryState}
use relentless.Wait.{fixed, unwrap_or}
use relentless.Wait.Rng.{u64, gamma, next_u64, next_bounded, seeded_rng, derive_nonce}
use relentless.Wait.Jitter.{
  JitterKind, additive, full, equal, decorrelated, random_duration_in, Jittered, jitter_by,
  jittered_wait, with_seed,
}

-- The delays for a run of states, one after another.
abbrev pub delays : {World : Type 0} → Jittered World → List RetryState → World → List ℕ
delays j [] w = []
delays j (s ∷ ss) w =
    ((jittered_wait j).next_wait s w).0 ∷ delays j ss ((jittered_wait j).next_wait s w).1

module _ {World World' : Type 0} (a : Cell World ℕ) (b : Cell World' ℕ) where
  -- Two runs agree: the same value, and generators in the same state afterwards.
  abbrev Agree : ℕ × World → ℕ × World' → Type 0
  Agree p q = (p.0 ≡ q.0) × (a.get p.1 ≡ b.get q.1)

  next_u64-Agree :
      (v : World) (w : World') → a.get v ≡ b.get w → Agree (next_u64 a v) (next_u64 b w)
  unfolding next_u64
  next_u64-Agree v w h = (
    ground arith,
    ground (arith, a.get-set (u64 (a.get v + gamma)) v, b.get-set (u64 (b.get w + gamma)) w),
  )

  next_bounded-Agree :
      (max : ℕ) (v : World) (w : World')
      → a.get v ≡ b.get w
      → Agree (next_bounded a max v) (next_bounded b max w)
  unfolding next_bounded
  next_bounded-Agree max v w h = ground (arith, next_u64-Agree v w h)

  random_duration_in-Agree :
      (lower upper : ℕ) (v : World) (w : World')
      → a.get v ≡ b.get w
      → Agree (random_duration_in lower upper a v) (random_duration_in lower upper b w)
  unfolding random_duration_in
  random_duration_in-Agree lower upper v w h =
      ground (arith, next_bounded-Agree (min (upper - lower) u64_max) v w h)

  jitter_by-Agree :
      (kind : JitterKind) (base : ℕ) (s : RetryState) (v : World) (w : World')
      → a.get v ≡ b.get w
      → Agree (jitter_by kind a base s v) (jitter_by kind b base s w)
  unfolding jitter_by
  jitter_by-Agree (additive m) base s v w h = ground (arith, random_duration_in-Agree 0 m v w h)
  jitter_by-Agree full base s v w h = random_duration_in-Agree 0 base v w h
  jitter_by-Agree equal base s v w h = ground (arith, random_duration_in-Agree 0 (base / 2) v w h)
  jitter_by-Agree decorrelated base s v w h =
      random_duration_in-Agree base (saturating_mul (unwrap_or s.previous_delay base) 3) v w h

abbrev over_fixed : {World : Type 0} → ℕ → JitterKind → ℕ → Cell World ℕ → Jittered World
over_fixed base kind seed cell = record { inner = fixed base; kind = kind; seed = seed; rng = cell }

delays-Agree :
    {World World' : Type 0} (a : Cell World ℕ) (b : Cell World' ℕ) (base : ℕ) (kind : JitterKind)
    (x y : ℕ) (ss : List RetryState) (v : World) (w : World')
    → a.get v ≡ b.get w
    → delays (over_fixed base kind x a) ss v ≡ delays (over_fixed base kind y b) ss w
unfolding jittered_wait fixed
delays-Agree a b base kind x y [] v w h = refl
delays-Agree a b base kind x y (s ∷ ss) v w h =
    let step = jitter_by-Agree a b kind base s v w h in
    ground (
      arith,
      step,
      delays-Agree a b base kind x y ss (jitter_by kind a base s v).1 (jitter_by kind b base s w).1
          step.1,
    )

-- `with_seed` pins the delays: two jittered strategies of one kind over the same fixed delay give
-- the same sequence after `with_seed` of one seed, whatever their seeds, nonces, draws and worlds
-- were before.
pub with_seed-delays :
    {World World' : Type 0} (a : Cell World ℕ) (b : Cell World' ℕ) (base : ℕ) (kind : JitterKind)
    (x y seed : ℕ) (ss : List RetryState) (v : World) (w : World')
    → let (j, v') = with_seed (over_fixed base kind x a) seed v in
      let (k, w') = with_seed (over_fixed base kind y b) seed w in delays j ss v' ≡ delays k ss w'
unfolding with_seed
with_seed-delays a b base kind x y seed ss v w = delays-Agree a b base kind seed seed ss _ _ (
    ground (
      arith,
      a.get-set (seeded_rng seed (derive_nonce seed)) v,
      b.get-set (seeded_rng seed (derive_nonce seed)) w,
    ))
