-- ===== src/Wait/Rng.antt =====
-- wait/jitter.rs, lines 11 to 120: the SplitMix64 generator. Its state is a u64 in a cell of the
-- world, which `fetch_add` advances by one atomic step. The accesses of a draw are told apart, so that the
-- draws of several threads can interleave, and a call on one thread runs them all.
pub mod Laws
pub mod Shared
mod Bits
use Prim.Native.Nat.{bit_xor}
use relentless.Prelude.{ℕ, ◌+◌, ◌*◌, ◌/◌, ◌%◌, ◌^◌, ◌==◌, Bool, if◌then◌else◌}
use relentless.Effect.{Eff, Cell, ◌>>=◌, pure}
use relentless.Duration.{u64_max}

abbrev pub u64 : ℕ → ℕ
u64 n = n % 18446744073709551616

abbrev pub default_jitter_seed : ℕ
default_jitter_seed = 0x5a5a5a5a5a5a5a5a

-- The golden gamma.
abbrev pub gamma : ℕ
gamma = 0x9e3779b97f4a7c15

-- The scrambling of a state into an output.
unfoldable pub mix : ℕ → ℕ
mix s =
    let a = u64 (bit_xor s (s / 2 ^ 30) * 0xbf58476d1ce4e5b9) in
    let b = u64 (bit_xor a (a / 2 ^ 27) * 0x94d049bb133111eb) in bit_xor b (b / 2 ^ 31)

unfoldable pub seeded_rng : ℕ → ℕ → ℕ
seeded_rng seed nonce = bit_xor seed nonce

-- The first output of a generator that starts at the seed.
unfoldable pub derive_nonce : ℕ → ℕ
unfolding mix
derive_nonce seed = mix (u64 (seed + gamma))

-- What a thread does with the shared u64, access by access; each access is atomic, and what lies
-- between two of them is work on the thread's own registers. `fetch_add` and `load` give back the
-- value from before.
pub data Access (A : Type 0) : Type 0 where
  done : A → Access A
  fetch_add : ℕ → (ℕ → Access A) → Access A
  load : (ℕ → Access A) → Access A
  store : ℕ → Access A → Access A

abbrev pub and_then : {A B : Type 0} → Access A → (A → Access B) → Access B
and_then (done x) next = next x
and_then (fetch_add n rest) next = fetch_add n (λ old. and_then (rest old) next)
and_then (load rest) next = load (λ value. and_then (rest value) next)
and_then (store n rest) next = store n (and_then rest next)

-- `fetch_add` returns the old state; the new one is computed from it again.
abbrev pub advance_accesses : Access ℕ
advance_accesses = fetch_add gamma (λ old. done (u64 (old + gamma)))

-- Where there are no 64-bit atomics, and threads cannot share the generator.
abbrev pub advance_cell_accesses : Access ℕ
advance_cell_accesses = load (λ old. let next = u64 (old + gamma) in store next (done next))

abbrev pub next_u64_accesses : Access ℕ
next_u64_accesses = and_then advance_accesses (λ z. done (mix z))

module _ {World : Type 0} (state : Cell World ℕ) where
  -- One access.
  abbrev pub next_access : {A : Type 0} → Access A → Eff World (Access A)
  next_access (done x) w = (done x, w)
  next_access (fetch_add n rest) w = (rest (state.get w), state.set (u64 (state.get w + n)) w)
  next_access (load rest) w = (rest (state.get w), w)
  next_access (store n rest) w = (rest, state.set n w)

  -- All of the accesses, with no other thread in between.
  abbrev pub alone : {A : Type 0} → Access A → Eff World A
  alone (done x) w = (x, w)
  alone (fetch_add n rest) w = alone (rest (state.get w)) (state.set (u64 (state.get w + n)) w)
  alone (load rest) w = alone (rest (state.get w)) w
  alone (store n rest) w = alone rest (state.set n w)

module _ {World : Type 0} where
  unfoldable pub advance : Cell World ℕ → Eff World ℕ
  advance state = alone state advance_accesses

  unfoldable pub next_u64 : Cell World ℕ → Eff World ℕ
  next_u64 state = alone state next_u64_accesses

  unfoldable pub next_bounded : Cell World ℕ → ℕ → Eff World ℕ
  next_bounded state max =
      if max == u64_max then next_u64 state else (do z ← next_u64 state; pure (z % (max + 1)))

  -- `fetch_add(1)` on the process-wide counter, xored with the wall clock under `std`.
  unfoldable pub next_jitter_nonce : Cell World ℕ → Eff World ℕ → Eff World ℕ
  next_jitter_nonce counter now_nanos w =
      (do now ← now_nanos; pure (bit_xor (counter.get w) (u64 now)))
        (counter.set (u64 (counter.get w + 1)) w)
