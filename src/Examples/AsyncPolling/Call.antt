-- ===== src/Examples/AsyncPolling/Call.antt =====
-- What the async polling example returns, after how many checks.
use Prim.Native.String.{String}
use relentless.Prelude.{
  ℕ, suc, ◌+◌, ◌-◌, ◌*◌, min, ◌≡◌, refl, ap, ◌∙◌, leb, none, some, if◌then◌else◌, arith,
}
use relentless.Effect.{Eff, pure}
use relentless.Decision.{Result, ok, err, Verdict, Decide, default_classifier, result_outcome}
use relentless.Predicate.{ok_if}
use relentless.Predicate
use relentless.Stop.{attempts, stop_after_attempts}
use relentless.Wait.{fixed}
use relentless.Wait.Exponential.{Float}
use relentless.Clock.{
  AsyncClock, VirtualTime, new, VirtualWait, virtual_sync, virtual_async, poll_virtual, advance,
}
use relentless.Clock.Virtual.{sum}
use relentless.Engine.Termination.{StopReason}
use relentless.Engine.Error.{RetryError}
use relentless.Engine.Hooks.{ExecutionHooks, no_hooks}
use relentless.Engine.Sync.{RetryOp}
use relentless.Engine.Async.{AsyncRetry, into_run, block_on}
use relentless.Engine.Async.Builder.{from_parts, set_clock}
use relentless.Engine.Async.Futures.{now, Mirrors}
use relentless.Engine.Async.Parity.{block_on-run}
use relentless.Engine.Reference.{Rules}
use relentless.Engine.Reference.Pass.{Plays, on_virtual_clock, policies}
use relentless.Engine.Reference.Ends.{delays, costs, EndsAt, run-ends}
use relentless.Policy.{default_stop, default_wait, set_stop, set_wait, until, retry_async}
use relentless.Policy
use relentless.Examples.Calls.{sum-delays_fixed, costs_free, unmoved}
use relentless.Examples.AsyncPolling.{
  Deploy, time_cell, Status, next_status, check_deploy_status, is_ready_status, deploy_policy,
  deploy_retry,
}

abbrev hooks : ExecutionHooks Deploy Status String String
hooks = no_hooks

-- What `.until(ok(is_ready_status))` makes of an outcome.
abbrev sorted : Status → Verdict String String Status
sorted (ok status) =
    if is_ready_status status then Verdict.return status else Verdict.retry (ok status)
sorted (err e) = Verdict.retry (err e)

abbrev until_ready : Decide Deploy Status String String
until_ready = Predicate.until (ok_if (λ status. pure (is_ready_status status)))

until-sorted : (o : Status) (w : Deploy) → until_ready.decide o w ≡ (sorted o, w)
unfolding Predicate.until ok_if
until-sorted (ok status) w = ground arith
until-sorted (err e) w = refl

-- The check as a blocking call.
abbrev check : RetryOp Deploy Status
check state w = let (status, w') = next_status w in (ok status, w')

abbrev rules : Rules Status String String
rules = record {
  classify = sorted;
  stops = λ s. leb 10 s.attempt;
  delay = λ s. 25_000_000;
  timeout = none;
}

abbrev future : AsyncRetry Deploy Status String String String VirtualWait
future = record {
  op = check_deploy_status;
  clock = virtual_async time_cell;
  policies = record (policies time_cell rules check hooks) { classifier = until_ready };
}

mirrored :
    (wake : Eff Deploy (Unit {0}))
    → ((w : Deploy) → (wake w).1 ≡ w)
    → Mirrors (on_virtual_clock time_cell rules check hooks) future wake
unfolding virtual_async virtual_sync poll_virtual check_deploy_status
mirrored wake wakes = record {
  policies = λ i. record (policies time_cell rules check hooks) {
    classifier = record { decide = λ o w. until-sorted o w i };
  };
  reads = refl;
  wakes = wakes;
  op = λ st w. now refl;
  wait = λ d w. now refl;
}

module _ (checks : ℕ) where
  abbrev answer : ℕ → Status
  answer n = if leb n checks then ok "deploying" else ok "ready"

  abbrev At : ℕ → Deploy → Type 0
  At n w = w.checks_remaining ≡ checks + 1 - n

  on_time : (w : Deploy) → (next_status w).1.time ≡ w.time
  unfolding next_status
  on_time w = ground arith

  plays : Plays time_cell check hooks answer (λ n. 0) At
  unfolding next_status advance
  plays = record {
    at_op = λ s w h. (ground arith, λ fits. on_time w ∙ unmoved w.time, ground arith);
    at_set = λ n t w h. h;
    at_before = λ s w. (refl, λ n h. h);
    at_after = λ s w. (refl, λ n h. h);
    at_exit = λ e w. (refl, λ n h. h);
  }

  abbrev pub polled : Result String (RetryError String Status)
  polled = if leb 10 checks then err (RetryError.exhausted (ok "deploying")) else ok "ready"

  abbrev pub reason : StopReason
  reason = if leb 10 checks then StopReason.exhausted else StopReason.returned

  ends : EndsAt rules answer (λ n. 0) (λ n. 25_000_000) (suc (min checks 9)) polled reason
  unfolding is_ready_status
  ends = record {
    again = λ i pos before. (ok "deploying", ground arith);
    goes_on = λ s before. ground arith;
    ends = λ rest now waited previous. ground arith;
    paced = λ s. refl;
    untimed = refl;
  }

  module _ (fl : Float) (system : AsyncClock Deploy VirtualWait) where
    built : deploy_retry fl system (virtual_async time_cell) ≡ some future
    unfolding deploy_retry deploy_policy Policy.new default_stop default_wait attempts
        stop_after_attempts set_stop set_wait until retry_async from_parts set_clock
        default_classifier result_outcome fixed
    built = refl

    -- The async polling example, with a virtual clock for tokio's and a waker that leaves the world
    -- alone: an endpoint that reports "deploying" for `checks` checks and "ready" from then on is
    -- polled, every 25 ms, until it is ready, one check after the last "deploying", if there are at
    -- most nine of these; otherwise the retry is exhausted with the tenth "deploying". The future
    -- returns that to an executor that polls it often enough, its statistics count these
    -- checks and 25 ms for each but the last, and the clock has moved by as much.
    pub deploy_retry-polled :
        (wake : Eff Deploy (Unit {0}))
        → ((w : Deploy) → (wake w).1 ≡ w)
        → (a : AsyncRetry Deploy Status String String String VirtualWait) × (deploy_retry fl system
              (virtual_async time_cell)
            ≡ some a)
          × ((n : ℕ) × (w : Deploy) × (block_on a wake
                  (suc n)
                  n
                  into_run
                  (record { time = new; checks_remaining = checks })
                ≡ some (
                  (
                    polled,
                    record {
                      attempts = suc (min checks 9);
                      total_elapsed = min checks 9 * 25_000_000;
                      total_wait = min checks 9 * 25_000_000;
                      stop_reason = reason;
                    },
                  ),
                  w,
                ))
              × (w.time.now ≡ min checks 9 * 25_000_000))
    deploy_retry-polled wake wakes =
        let k = min checks 9 in
        let start : Deploy = record { time = new; checks_remaining = checks } in
        let waited = sum-delays_fixed 25_000_000 k 1 in
        let free = costs_free k 1 in
        let elapsed : costs (λ n. 0) k 1 + sum (delays (λ n. 25_000_000) k 1) ≡ k * 25_000_000 =
          omega (arith, waited, free) in
        let (w, ran, there) =
          run-ends rules answer (λ n. 0) (λ n. 25_000_000) polled reason time_cell check hooks plays
            k 10 start ends (omega arith) (omega arith) (omega arith)
            (omega (arith, waited, free)) in
        let (n, done) = block_on-run _ future wake (mirrored wake wakes) 10 start _ ran in
        (
          future,
          built,
          (
            n,
            w,
            done ∙ (λ i. some (
              (
                polled,
                record {
                  attempts = suc k;
                  total_elapsed = elapsed i;
                  total_wait = waited i;
                  stop_reason = reason;
                },
              ),
              w,
            )),
            ap (λ (t : VirtualTime). t.now) there ∙ omega (arith, elapsed),
          ),
        )
