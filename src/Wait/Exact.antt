-- ===== src/Wait/Exact.antt =====
-- Saturating arithmetic against exact arithmetic, for every strategy without randomness or floats.
use relentless.Prelude.{ℕ, ◌+◌, ◌-◌, ◌*◌, min, ◌≡◌, refl, leb, if◌then◌else◌, arith}
use relentless.Duration.{duration_max, IsDuration, saturating_add}
use relentless.State.{RetryState}
use relentless.Wait.{Wait, saturating_duration_mul}
use relentless.Wait

-- What a user can write with `fixed`, `linear`, `.cap`, `+` and `.chain`.
pub data Schedule : Type 0 where
  fixed : ℕ → Schedule
  linear : ℕ → ℕ → Schedule
  cap : Schedule → ℕ → Schedule
  add : Schedule → Schedule → Schedule
  chain : Schedule → Schedule → ℕ → Schedule

unfoldable pub interpret : {World : Type 0} → Schedule → Wait World
interpret (fixed d) = Wait.fixed d
interpret (linear i d) = Wait.linear i d
interpret (cap a m) = Wait.cap (interpret a) m
interpret (add a b) = Wait.add (interpret a) (interpret b)
interpret (chain a b n) = Wait.chain (interpret a) (interpret b) n

-- The delay in exact arithmetic, with no largest duration.
unfoldable pub exact : Schedule → ℕ → ℕ
exact (fixed d) n = d
exact (linear i d) n = i + d * (n - 1)
exact (cap a m) n = min (exact a n) m
exact (add a b) n = exact a n + exact b n
exact (chain a b k) n = if leb n k then exact a n else exact b n

-- Its constants are durations, and so are its caps.
abbrev pub IsWritable : Schedule → Type 0
IsWritable (fixed d) = IsDuration d
IsWritable (linear i d) = IsDuration i × IsDuration d
IsWritable (cap a m) = IsWritable a × IsDuration m
IsWritable (add a b) = IsWritable a × IsWritable b
IsWritable (chain a b n) = IsWritable a × IsWritable b

linear-exact :
    (i d k : ℕ) → saturating_add i (saturating_duration_mul d k) ≡ min (i + d * k) duration_max
unfolding saturating_add saturating_duration_mul
linear-exact i d k = ground arith

interpret_keeps :
    {World : Type 0} (e : Schedule) (s : RetryState) (w : World)
    → ((interpret e).next_wait s w).1 ≡ w
unfolding interpret Wait.fixed Wait.linear Wait.cap Wait.add Wait.chain
interpret_keeps (fixed d) s w = refl
interpret_keeps (linear i d) s w = refl
interpret_keeps (cap a m) s w = interpret_keeps a s w
interpret_keeps (add a b) s w = ground (arith, interpret_keeps a s w, interpret_keeps b s w)
interpret_keeps (chain a b n) s w = ground (arith, interpret_keeps a s w, interpret_keeps b s w)

-- The delay of any schedule built with `fixed`, `linear`, `.cap`, `+` and `.chain` of durations is
-- its exact delay, clamped to the largest duration once at the end: no intermediate saturation,
-- and no overflow, is ever seen. The world is untouched.
pub next_wait-exact :
    {World : Type 0} (e : Schedule) (s : RetryState) (w : World)
    → IsWritable e
    → (interpret e).next_wait s w ≡ (min (exact e s.attempt) duration_max, w)
unfolding interpret exact Wait.fixed Wait.linear Wait.cap Wait.add Wait.chain saturating_add
next_wait-exact (fixed d) s w h = ground arith
next_wait-exact (linear i d) s w h = ground (arith, linear-exact i d (s.attempt - 1))
next_wait-exact (cap a m) s w h = ground (arith, next_wait-exact a s w h.0)
next_wait-exact (add a b) s w h =
    ground (arith, next_wait-exact a s w h.0, next_wait-exact b s w h.1)
next_wait-exact (chain a b n) s w h =
    ground (arith, next_wait-exact a s w h.0, next_wait-exact b s w h.1)
