-- ===== src/Stop/Builtin.antt =====
-- The strategies that the crate itself offers, closed under `|` and `&`.
use relentless.Prelude.{
  ℕ, ◌≤◌, ◌<◌, min, max, ◌≡◌, refl, Bool, true, false, ◌&&◌, ◌||◌, Option, none, some, leb, arith,
}
use relentless.State.{RetryState}
use relentless.Stop.{Stop, stop_after_attempts, stop_any, stop_all, bit_or, bit_and}
use relentless.Stop

-- What a user can write with `attempts`, `elapsed`, `never`, `|` and `&`.
pub data Strategy : Type 0 where
  attempts : ℕ → Strategy
  elapsed : ℕ → Strategy
  never : Strategy
  any : Strategy → Strategy → Strategy
  all : Strategy → Strategy → Strategy

unfoldable pub interpret : {World : Type 0} → Strategy → Stop World
interpret (Strategy.attempts m) = stop_after_attempts m
interpret (Strategy.elapsed d) = Stop.elapsed d
interpret Strategy.never = Stop.never
interpret (any a b) = bit_or (interpret a) (interpret b)
interpret (all a b) = bit_and (interpret a) (interpret b)

abbrev pub fires : {World : Type 0} → Strategy → RetryState → World → Bool
fires e s w = ((interpret e).should_stop s w).0

-- The attempt at which a strategy gives up by the attempt number alone.
abbrev pub min_bound : Option ℕ → Option ℕ → Option ℕ
min_bound none n = n
min_bound (some m) none = some m
min_bound (some m) (some n) = some (min m n)

abbrev pub max_bound : Option ℕ → Option ℕ → Option ℕ
max_bound none n = none
max_bound (some m) none = none
max_bound (some m) (some n) = some (max m n)

abbrev pub attempt_bound : Strategy → Option ℕ
attempt_bound (Strategy.attempts m) = some m
attempt_bound (Strategy.elapsed d) = none
attempt_bound Strategy.never = none
attempt_bound (any a b) = min_bound (attempt_bound a) (attempt_bound b)
attempt_bound (all a b) = max_bound (attempt_bound a) (attempt_bound b)

abbrev pub reached : Option ℕ → ℕ → Bool
reached none n = false
reached (some m) n = leb m n

-- Every deadline in it is positive.
abbrev pub HasDeadlines : Strategy → Type 0
HasDeadlines (Strategy.attempts m) = Unit {0}
HasDeadlines (Strategy.elapsed d) = 0 < d
HasDeadlines Strategy.never = Unit {0}
HasDeadlines (any a b) = HasDeadlines a × HasDeadlines b
HasDeadlines (all a b) = HasDeadlines a × HasDeadlines b

pub interpret_keeps :
    {World : Type 0} (e : Strategy) (s : RetryState) (w : World)
    → ((interpret e).should_stop s w).1 ≡ w
unfolding interpret stop_after_attempts Stop.elapsed Stop.never stop_any stop_all
interpret_keeps (Strategy.attempts m) s w = refl
interpret_keeps (Strategy.elapsed d) s w = refl
interpret_keeps Strategy.never s w = refl
interpret_keeps (any a b) s w = ground (arith, interpret_keeps a s w, interpret_keeps b s w)
interpret_keeps (all a b) s w = ground (arith, interpret_keeps a s w, interpret_keeps b s w)

fires-any :
    {World : Type 0} (a b : Strategy) (s : RetryState) (w : World)
    → fires (any a b) s w ≡ (fires a s w || fires b s w)
unfolding interpret stop_any
fires-any a b s w = ground (arith, interpret_keeps a s w)

fires-all :
    {World : Type 0} (a b : Strategy) (s : RetryState) (w : World)
    → fires (all a b) s w ≡ (fires a s w && fires b s w)
unfolding interpret stop_all
fires-all a b s w = ground (arith, interpret_keeps a s w)

-- Once a strategy fires, it fires at every later state, and it never touches the world.
pub fires_mono :
    {World : Type 0} (e : Strategy) (s t : RetryState) (w : World)
    → s.attempt ≤ t.attempt
    → s.elapsed ≤ t.elapsed
    → fires e s w ≡ true
    → (fires e t w ≡ true) × (((interpret e).should_stop t w).1 ≡ w)
unfolding interpret stop_after_attempts Stop.elapsed Stop.never
fires_mono (Strategy.attempts m) s t w ha he f = (ground arith, refl)
fires_mono (Strategy.elapsed d) s t w ha he f = (ground arith, refl)
fires_mono Strategy.never s t w ha he f = (f, refl)
fires_mono (any a b) s t w ha he f = (
  ground (
    arith,
    fires-any a b s w,
    fires-any a b t w,
    fires_mono a s t w ha he,
    fires_mono b s t w ha he,
  ),
  interpret_keeps (any a b) t w,
)
fires_mono (all a b) s t w ha he f = (
  ground (
    arith,
    fires-all a b s w,
    fires-all a b t w,
    fires_mono a s t w ha he,
    fires_mono b s t w ha he,
  ),
  interpret_keeps (all a b) t w,
)

-- A strategy with an attempt bound fires as soon as that many attempts are made, whatever the
-- clock says.
pub fires-at_bound :
    {World : Type 0} (e : Strategy) (s : RetryState) (w : World)
    → reached (attempt_bound e) s.attempt ≡ true
    → fires e s w ≡ true
unfolding interpret stop_after_attempts
fires-at_bound (Strategy.attempts m) s w h = h
fires-at_bound (Strategy.elapsed d) s w h = cc
fires-at_bound Strategy.never s w h = cc
fires-at_bound (any a b) s w h =
    ground (arith, fires-any a b s w, fires-at_bound a s w, fires-at_bound b s w)
fires-at_bound (all a b) s w h =
    ground (arith, fires-all a b s w, fires-at_bound a s w, fires-at_bound b s w)

-- With positive deadlines and a clock that stands at zero, a strategy fires exactly when its attempt
-- bound is reached, and never if it has none.
pub fires-at_rest :
    {World : Type 0} (e : Strategy) (s : RetryState) (w : World)
    → HasDeadlines e
    → s.elapsed ≡ 0
    → fires e s w ≡ reached (attempt_bound e) s.attempt
unfolding interpret stop_after_attempts Stop.elapsed Stop.never
fires-at_rest (Strategy.attempts m) s w p z = refl
fires-at_rest (Strategy.elapsed d) s w p z = ground arith
fires-at_rest Strategy.never s w p z = refl
fires-at_rest (any a b) s w p z =
    ground (arith, fires-any a b s w, fires-at_rest a s w p.0 z, fires-at_rest b s w p.1 z)
fires-at_rest (all a b) s w p z =
    ground (arith, fires-all a b s w, fires-at_rest a s w p.0 z, fires-at_rest b s w p.1 z)
