-- ===== src/Engine/Display.antt =====
-- The Display and Error impls of engine/error.rs and engine/termination.rs. A formatter is the text
-- written to it.
use Prim.Native.String.{String, ◌++◌}
use text.Mathlib.TextLemmas.{append_assoc}
use relentless.Prelude.{◌≡◌, refl, Option, none, some}
use relentless.Decision.{Result, ok, err, Infallible, ControlFlow}
use relentless.Engine.Termination.{StopReason}
use relentless.Engine.Error.{RetryError, stop_reason, last_error}

abbrev pub display_reason : StopReason → String
display_reason StopReason.returned = "returned"
display_reason StopReason.aborted = "aborted"
display_reason StopReason.exhausted = "retries exhausted"

abbrev pub detail : {E : Type 0} → (E → String) → Option E → String
detail display none = ""
detail display (some e) = ": " ++ display e

-- `display` is the payload's own Display.
module _ {T E : Type 0} (display : E → String) where
  abbrev pub display_result_error : RetryError E (Result T E) → String
  display_result_error (RetryError.aborted last) = "aborted: " ++ display last
  display_result_error (RetryError.exhausted (err error)) = "retries exhausted: " ++ display error
  display_result_error (RetryError.exhausted (ok v)) = "retries exhausted"

  -- `Error::source`.
  abbrev pub source : RetryError E (Result T E) → Option E
  source (RetryError.aborted last) = some last
  source (RetryError.exhausted (err error)) = some error
  source (RetryError.exhausted (ok v)) = none

  -- The message of an error is the message of its stop reason, followed by a colon and the message
  -- of the error that it came from, where there is one, and the `source` of the error is that error.
  pub display-stop_reason :
      (e : RetryError E (Result T E))
      → (display_result_error e ≡ display_reason (stop_reason e) ++ detail display (last_error e))
        × (source e ≡ last_error e)
  display-stop_reason (RetryError.aborted last) = (append_assoc "aborted" ": " (display last), refl)
  display-stop_reason (RetryError.exhausted (err error)) =
      (append_assoc "retries exhausted" ": " (display error), refl)
  display-stop_reason (RetryError.exhausted (ok v)) = (refl, refl)

abbrev pub display_option_error : {T : Type 0} → RetryError Infallible (Option T) → String
display_option_error (RetryError.aborted last) = absurd last
display_option_error (RetryError.exhausted o) = "retries exhausted"

abbrev pub display_control_flow_error :
    {B C : Type 0} → RetryError Infallible (ControlFlow B C) → String
display_control_flow_error (RetryError.aborted last) = absurd last
display_control_flow_error (RetryError.exhausted o) = "retries exhausted"
