-- ===== src/Policy/Defaults.antt =====
-- What a retry does by default, and the two ways to configure one.
use native.Mathlib.Nat.{pow-le-pow_right}
use relentless.Prelude.{ℕ, ◌*◌, ◌-◌, ◌^◌, ◌≤◌, ◌≡◌, refl, some, arith}
use relentless.Decision.{Result, Outcome}
use relentless.Predicate.{Predicate}
use relentless.State.{RetryState}
use relentless.Stop.{Stop, attempts}
use relentless.Stop.Builtin.{Strategy, interpret}
use relentless.Wait.{Wait}
use relentless.Wait.Exponential.{Float, FloatLaws, exponential}
use relentless.Wait.Exponential.Bounds.{exponential_wait-exact}
use relentless.Clock.{SyncClock, AsyncClock}
use relentless.Engine.Sync.{Retry, RetryOp, RunOutcome, run}
use relentless.Engine.Sync.Returns.{run_returns}
use relentless.Engine.Async.{AsyncRetryOp}
use relentless.Engine.Sync.Builder as SyncBuilder
use relentless.Engine.Async.Builder as AsyncBuilder
use relentless.Policy.{
  RetryPolicy, OfResult, new, default_stop, default_wait, default_initial_wait, set_stop, set_wait,
  set_timeout, when, until, retry, retry_async, retry_op, retry_async_op,
}

module _ {World O R A : Type 0} ⦃outcome : Outcome O R A⦄ (fl : Float) where
  -- `RetryPolicy::new` does not panic, and `policy.retry(op)` and `policy.retry_async(op)` of it are
  -- the retries that the free functions `retry(op)` and `retry_async(op)` build.
  pub new-retry_op :
      {Fut Sleep : Type 0} (system : SyncClock World) (async_system : AsyncClock World Sleep)
      (op : RetryOp World O) (async_op : AsyncRetryOp World O Fut)
      → (p : RetryPolicy World O R A) × (new fl ≡ some p)
        × (retry_op fl system op ≡ some (retry system p op))
        × (retry_async_op fl async_system async_op ≡ some (retry_async async_system p async_op))
  unfolding new default_stop attempts retry_op retry_async_op retry retry_async default_wait
  new-retry_op system async_system op async_op = (_, refl, refl, refl)

  -- By default a retry returns, with one to three attempts made, whatever the operation and the
  -- clock do: with fuel for three attempts or more it returns the outcome that it returns with
  -- fuel for just these.
  pub retry_op_returns :
      (system : SyncClock World) (op : RetryOp World O) (r : Retry World O R A) (fuel : ℕ)
      (w : World)
      → retry_op fl system op ≡ some r
      → 3 ≤ fuel
      → (x : RunOutcome O R A × World) × (run r fuel w ≡ some x)
        × (run r 3 w ≡ some x)
        × (1 ≤ x.0.1.attempts)
        × (x.0.1.attempts ≤ 3)
  unfolding retry_op default_stop attempts SyncBuilder.from_parts
  retry_op_returns system op r fuel w e enough =
      let same : r.policies.stop ≡ interpret (Strategy.attempts 3) =
        unfold interpret in ground (arith, e) in
      run_returns r (Strategy.attempts 3) 3 fuel w same refl (omega arith) (omega arith) enough

-- Under the laws that floats have on whole numbers up to 2 ^ 53, the default delay after attempt n
-- is 100 ms times 2 ^ (n - 1), for n up to 27.
pub default_wait-doubles :
    {World : Type 0} (fl : Float)
    → FloatLaws fl
    → (s : RetryState) (w : World) → s.attempt ≤ 27
    → (default_wait fl).next_wait s w ≡ (100_000_000 * 2 ^ (s.attempt - 1), w)
unfolding default_wait exponential
default_wait-doubles fl laws s w h =
    exponential_wait-exact fl laws default_initial_wait 2 s w (omega arith) (omega arith)
      (doubled (s.attempt - 1) (omega arith))
  where
    doubled : (k : ℕ) → k ≤ 26 → 100_000_000 * 2 ^ k ≤ 2 ^ 53
    doubled k h = let top : 2 ^ k ≤ 2 ^ 26 = pow-le-pow_right (omega arith) h in omega (arith, top)

-- Configuring a policy and then building a retry from it is building a retry and then configuring
-- that, in either order of the slots: the timeout, the stop and wait strategies and the predicate
-- arrive unchanged in the sync and in the async retry.
pub policy_first-op_first :
    {World T E Fut Sleep : Type 0} (p : OfResult World T E) (system : SyncClock World)
    (async_system : AsyncClock World Sleep) (op : RetryOp World (Result T E))
    (async_op : AsyncRetryOp World (Result T E) Fut) (stop : Stop World) (wait : Wait World)
    (timeout : ℕ) (predicate : Predicate World T E)
    → (retry system (when (set_timeout (set_wait (set_stop p stop) wait) timeout) predicate) op
        ≡ SyncBuilder.set_stop
            (SyncBuilder.set_wait
              (SyncBuilder.set_timeout (SyncBuilder.when (retry system p op) predicate) timeout)
              wait)
            stop)
      × (retry_async async_system
            (until (set_timeout (set_wait (set_stop p stop) wait) timeout) predicate)
            async_op
          ≡ AsyncBuilder.set_stop
              (AsyncBuilder.set_wait
                (AsyncBuilder.set_timeout
                  (AsyncBuilder.until (retry_async async_system p async_op) predicate)
                  timeout)
                wait)
              stop)
unfolding retry retry_async when until set_timeout set_wait set_stop SyncBuilder.from_parts
    SyncBuilder.set_stop SyncBuilder.set_wait SyncBuilder.set_timeout SyncBuilder.when
    SyncBuilder.with_classifier AsyncBuilder.from_parts AsyncBuilder.set_stop AsyncBuilder.set_wait
    AsyncBuilder.set_timeout AsyncBuilder.until AsyncBuilder.with_classifier
policy_first-op_first p system async_system op async_op stop wait timeout predicate = (refl, refl)
