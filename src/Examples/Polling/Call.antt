-- ===== src/Examples/Polling/Call.antt =====
-- The polling example returns what the first decisive poll says.
use relentless.Prelude.{◌≤◌, ◌≡◌, ◌∙◌, ap, refl, some}
use relentless.Decision.{verdict_into, result_outcome, closure_classifier}
use relentless.Stop.{attempts, stop_after_attempts}
use relentless.Wait.{fixed}
use relentless.Wait.Exponential.{Float}
use relentless.Clock.{SyncClock}
use relentless.Engine.Sync.Builder.{
  from_parts, set_stop, set_wait, set_clock, decide, with_classifier,
}
use relentless.Policy.{retry_op, default_stop, default_wait}
use relentless.Examples.Scripted.{Job, Script, scripted_poller, fresh}
use relentless.Examples.Scripted.Call.{scripted_retry, call_built-first_decisive}
use relentless.Examples.Polling.Answers.{answered, first_decisive-answered}
use relentless.Examples.Polling.{PollOutcome, sort_out, polling_retry, poll_until_done}

module _ (script : Script PollOutcome) (fl : Float) (system : SyncClock Job) where
  built : polling_retry fl system (scripted_poller script) ≡ some (scripted_retry sort_out script)
  unfolding polling_retry retry_op default_stop default_wait attempts stop_after_attempts from_parts
      set_stop set_wait set_clock decide with_classifier closure_classifier verdict_into fixed
  built = refl

  -- The polling example returns what the first decisive of its first ten polls says: the value of
  -- a poll that is done, and `Aborted` with the error of one that failed for good, pending polls and
  -- transient errors being passed over, and `Exhausted` with the outcome of the tenth poll where none
  -- of them is decisive; after at most 90 ms on the virtual clock; for every script, the last entry of
  -- which repeats.
  pub poll_until_done-first_decisive :
      (w : Job) × (poll_until_done fl system (scripted_poller script) 10 fresh
        ≡ some (answered 9 script.first script.rest, w))
      × (w.time.now ≤ 90_000_000)
  unfolding poll_until_done
  poll_until_done-first_decisive =
      let (w, e, time) = call_built-first_decisive sort_out script _ built in
      (w, e ∙ ap (λ a. some (a, w)) (first_decisive-answered 9 script.first script.rest), time)
