-- ===== src/Examples/SyncCancel.antt =====
-- examples/sync-cancel.rs: the two ways to cancel a blocking retry, by its timeout and by a flag that
-- the operation looks at.
pub mod Deadline
pub mod Flag
use Prim.Native.String.{String}
use relentless.Prelude.{refl, ℕ, ◌+◌, Bool, true, false, Option, none, some, leb, if◌then◌else◌}
use relentless.Effect.{Eff, Cell, pure}
use relentless.Duration.{from_millis}
use relentless.Decision.{Result, ok, err, result_outcome}
use relentless.Predicate.{error}
use relentless.Stop.{attempts}
use relentless.Wait.{fixed}
use relentless.Wait.Exponential.{Float}
use relentless.Clock.{SyncClock, VirtualTime, new}
use relentless.Engine.Sync.{Retry}
use relentless.Engine.Sync.Builder.{set_wait, set_stop, set_timeout, when}
use relentless.Policy.{retry_op, retry_ext}

pub data ServiceError : Type 0 where
  transient : String → ServiceError
  cancelled : ServiceError

-- The flag and the counter, beside the cells of a virtual clock.
pub record Watched : Type 0 where
  pub time : VirtualTime
  pub cancelled : Bool
  pub attempts_before_cancel : ℕ

abbrev pub time_cell : Cell Watched VirtualTime
time_cell = record { get = λ w. w.time; set = λ t w. record w { time = t }; get-set = λ t w. refl }

abbrev pub untouched : Watched
untouched = record { time = new; cancelled = false; attempts_before_cancel = 0 }

-- The closure of the second pattern. It sets the flag at its call number `after`, the source's 3.
unfoldable pub watched_call : ℕ → Eff Watched (Result (Unit {0}) ServiceError)
watched_call after w =
    if w.cancelled
    then (err ServiceError.cancelled, w)
    else (let n = w.attempts_before_cancel + 1 in
        (
          err (transient "connection refused"),
          record w { attempts_before_cancel = n; cancelled = leb after n },
        ))

-- The closure handed to `predicate::error`.
unfoldable pub is_transient : ServiceError → Bool
is_transient (transient message) = true
is_transient ServiceError.cancelled = false

-- `fl` and `system` are the defaults' floats and clock. `none` is a panic of `stop::attempts`.
module _ (fl : Float) (system : SyncClock Watched) where
  -- The first pattern, for any budget; the source's is 250 ms.
  unfoldable pub deadline_retry : ℕ → Option (Retry Watched (Result String String) String String)
  deadline_retry dur = elim (retry_ext fl system (pure (err "service unavailable"))) [
    | none ↦ none
    | some r ↦ (elim (attempts 100) [
      | none ↦ none
      | some stop ↦ some (set_timeout (set_wait (set_stop r stop) (fixed (from_millis 100))) dur)
    ])
  ]

  -- The second pattern without its `.when`, which the source warns of.
  unfoldable pub unfiltered_retry :
      ℕ → Option (Retry Watched (Result (Unit {0}) ServiceError) (Unit {0}) ServiceError)
  unfolding watched_call
  unfiltered_retry after = elim (retry_op fl system (λ state. watched_call after)) [
    | none ↦ none
    | some r ↦ (elim (attempts 100) [
      | none ↦ none
      | some stop ↦ some (set_wait (set_stop r stop) (fixed 0))
    ])
  ]

  unfoldable pub flag_retry :
      ℕ → Option (Retry Watched (Result (Unit {0}) ServiceError) (Unit {0}) ServiceError)
  unfolding unfiltered_retry is_transient
  flag_retry after = elim (unfiltered_retry after) [
    | none ↦ none
    | some r ↦ some (when r (error (λ e. pure (is_transient e))))
  ]
