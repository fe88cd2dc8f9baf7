-- ===== src/Samples/Polling.antt =====
-- The scripts of the polling example.
use relentless.Prelude.{◌≤◌, ◌≡◌, refl, some, [], ◌∷◌}
use relentless.Decision.{ok, err}
use relentless.Clock.{virtual_sync}
use relentless.Engine.Error.{RetryError}
use relentless.Examples.Scripted.{Job, time_cell, Script, last_index, entry, scripted_poller, fresh}
use relentless.Examples.Scripted.Decisive.{poll_at, first_decisive}
use relentless.Examples.Polling.{JobStatus, JobError, PollOutcome, sort_out, poll_until_done}
use relentless.Examples.Polling.Call.{poll_until_done-first_decisive}
use relentless.Examples.CustomOutcome.{Rollout, classify_rollout}
use relentless.Samples.Reals.{reals}

abbrev fatal_script : Script PollOutcome
fatal_script = record {
  first = ok JobStatus.pending;
  rest = err (JobError.fatal "rolled back") ∷ ok JobStatus.pending ∷ [];
}

stuck :
    first_decisive sort_out (record { first = ok JobStatus.pending; rest = [] }) 9 0
    ≡ err (RetryError.exhausted (ok JobStatus.pending))
unfolding first_decisive poll_at entry last_index sort_out
stuck = refl

poll_until_done-first_decisive_example :
    (w : Job) × (poll_until_done reals
        (virtual_sync time_cell)
        (scripted_poller fatal_script)
        10
        fresh
      ≡ some (err (RetryError.aborted (JobError.fatal "rolled back")), w))
    × (w.time.now ≤ 90_000_000)
poll_until_done-first_decisive_example =
    poll_until_done-first_decisive fatal_script reals (virtual_sync time_cell)

-- The first script of the other example.
abbrev live_script : Script Rollout
live_script = record {
  first = Rollout.in_progress;
  rest = Rollout.in_progress ∷ Rollout.live 7 ∷ [];
}

goes_live : first_decisive classify_rollout live_script 9 0 ≡ ok 7
unfolding first_decisive poll_at entry last_index classify_rollout
goes_live = refl
