-- ===== src/Samples/Programs.antt =====
-- The example programs at the numbers that their sources have.
use relentless.Prelude.{ℕ, suc, ◌≡◌, refl, some, [], ◌∷◌, arith}
use relentless.Effect.{pure}
use relentless.Decision.{Result, ok, err}
use relentless.Clock.{new, VirtualWait, virtual_sync, virtual_async}
use relentless.Engine.Termination.{StopReason}
use relentless.Engine.Error.{RetryError}
use relentless.Engine.Sync.{Retry, run}
use relentless.Engine.Async.{AsyncRetry, into_run, block_on}
use relentless.Examples.Calls.{call_built}
use relentless.Examples.BasicRetry.{Fetch}
use relentless.Examples.BasicRetry
use relentless.Examples.VirtualClock.{
  Service, answering, fresh, fetch_with_retries, fetch_with_retries-timed_out,
}
use relentless.Examples.VirtualClock
use relentless.Examples.SyncCancel.{
  ServiceError, Watched, untouched, deadline_retry, flag_retry, unfiltered_retry,
}
use relentless.Examples.SyncCancel
use relentless.Examples.SyncCancel.Deadline.{deadline_retry-attempts}
use relentless.Examples.SyncCancel.Flag.{Ends, flag_retry-cancelled}
use relentless.Examples.HooksAndStats.{Console, blank, Ping, ping_retry}
use relentless.Examples.HooksAndStats
use relentless.Examples.HooksAndStats.Printed.{lines, ping_retry-printed}
use relentless.Examples.AsyncPolling.{Deploy, Status, deploy_retry}
use relentless.Examples.AsyncPolling
use relentless.Examples.AsyncPolling.Call.{deploy_retry-polled}
use relentless.Samples.Reals.{reals, reals-FloatLaws}
use Prim.Native.String.{String}

fetch_retry-result_example :
    (w : Fetch) × (call_built
        (BasicRetry.fetch_retry reals (virtual_sync BasicRetry.time_cell))
        5
        (record { time = new; failures_left = 2 })
      ≡ some (ok "config_value=42", w))
    × (w.time.now ≡ 20_000_000)
fetch_retry-result_example =
    BasicRetry.fetch_retry-result 2 reals (virtual_sync BasicRetry.time_cell)

fetch_with_retries-timed_out_example :
    (w : Service) × (fetch_with_retries reals
        (virtual_sync VirtualClock.time_cell)
        (answering (λ n. err "service unavailable"))
        (virtual_sync VirtualClock.time_cell)
        4
        fresh
      ≡ some (err (RetryError.exhausted (err "service unavailable")), w))
    × (w.time ≡ record { now = 400_000_000; waits = 100_000_000 ∷ 200_000_000 ∷ 100_000_000 ∷ [] })
fetch_with_retries-timed_out_example =
    fetch_with_retries-timed_out reals reals-FloatLaws (virtual_sync VirtualClock.time_cell)
      (λ n. err "service unavailable") (λ n. "service unavailable") 4 (λ i pos few. refl)
      (omega arith) (omega arith)

deadline_retry-attempts_example :
    (r : Retry Watched (Result String String) String String) × (deadline_retry reals
        (virtual_sync SyncCancel.time_cell)
        250_000_000
      ≡ some r)
    × ((w : Watched) × (run r 100 untouched
          ≡ some (
            (
              err (RetryError.exhausted (err "service unavailable")),
              record {
                attempts = 4;
                total_elapsed = 250_000_000;
                total_wait = 250_000_000;
                stop_reason = StopReason.exhausted;
              },
            ),
            w,
          ))
        × (w.time.now ≡ 250_000_000))
deadline_retry-attempts_example =
    deadline_retry-attempts reals 250_000_000 100 (omega arith) (omega arith) (omega arith)

flag_retry-cancelled_example :
    Ends 3
      (omega arith)
      reals
      (flag_retry reals (virtual_sync SyncCancel.time_cell) 3)
      100
      (err (RetryError.aborted ServiceError.cancelled))
      4
      StopReason.aborted
    × Ends 3
        (omega arith)
        reals
        (unfiltered_retry reals (virtual_sync SyncCancel.time_cell) 3)
        100
        (err (RetryError.exhausted (err ServiceError.cancelled)))
        100
        StopReason.exhausted
flag_retry-cancelled_example =
    flag_retry-cancelled 3 (omega arith) reals 100 (omega arith) (omega arith)

ping_retry-printed_example :
    (r : Retry Console Ping (Unit {0}) String) × (ping_retry reals
        (virtual_sync HooksAndStats.time_cell)
        3
      ≡ some r)
    × ((w : Console) × (run r 3 blank
          ≡ some (
            (
              err (RetryError.exhausted (err "control plane unavailable")),
              record {
                attempts = 3;
                total_elapsed = 10_000_000;
                total_wait = 10_000_000;
                stop_reason = StopReason.exhausted;
              },
            ),
            w,
          ))
        × (w.printed ≡ lines 3))
ping_retry-printed_example =
    ping_retry-printed 3 (omega arith) (omega arith) reals (virtual_sync HooksAndStats.time_cell) 3
      (omega arith) (omega arith)

deploy_retry-polled_example :
    (a : AsyncRetry Deploy Status String String String VirtualWait) × (deploy_retry reals
        (virtual_async AsyncPolling.time_cell)
        (virtual_async AsyncPolling.time_cell)
      ≡ some a)
    × ((n : ℕ) × (w : Deploy) × (block_on a
            (pure tt)
            (suc n)
            n
            into_run
            (record { time = new; checks_remaining = 3 })
          ≡ some (
            (
              ok "ready",
              record {
                attempts = 4;
                total_elapsed = 75_000_000;
                total_wait = 75_000_000;
                stop_reason = StopReason.returned;
              },
            ),
            w,
          ))
        × (w.time.now ≡ 75_000_000))
deploy_retry-polled_example =
    deploy_retry-polled 3 reals (virtual_async AsyncPolling.time_cell) (pure tt) (λ w. refl)
