-- ===== src/Engine/Error.antt =====
-- engine/error.rs: the error of a retry that ends without a `Return`.
use relentless.Prelude.{Option, none, some}
use relentless.Decision.{Result, ok, err}
use relentless.Engine.Termination.{StopReason}

pub data RetryError (A O : Type 0) : Type 0 where
  aborted : A → RetryError A O
  exhausted : O → RetryError A O

module _ {A O : Type 0} where
  abbrev pub stop_reason : RetryError A O → StopReason
  stop_reason (aborted last) = StopReason.aborted
  stop_reason (exhausted last) = StopReason.exhausted

  -- `last` borrows and `into_last` consumes; both are this function of the value.
  abbrev pub last : RetryError A O → Option O
  last (exhausted o) = some o
  last (aborted a) = none

abbrev result_error : {T E : Type 0} → Result T E → Option E
result_error (ok v) = none
result_error (err e) = some e

-- `last_error` and `into_last_error`.
abbrev pub last_error : {T E : Type 0} → RetryError E (Result T E) → Option E
last_error (aborted e) = some e
last_error (exhausted o) = result_error o
