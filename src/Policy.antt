-- ===== src/Policy.antt =====
-- policy/mod.rs and defaults.rs: the reusable configuration, and the defaults of every entry point.
pub mod Defaults
use relentless.Prelude.{ℕ, Option, none, some}
use relentless.Effect.{Eff}
use relentless.Duration.{from_millis}
use relentless.Decision.{
  Result, Outcome, Decide, default_classifier, IntoDecision, closure_classifier,
}
use relentless.Predicate.{Predicate}
use relentless.Predicate
use relentless.Stop.{Stop, attempts, boxed_stop}
use relentless.Wait.{Wait, boxed_wait}
use relentless.Wait.Exponential.{Float, exponential, exponential_wait}
use relentless.Clock.{SyncClock, AsyncClock, Poll}
use relentless.Engine.Sync.{Retry, RetryOp, stateless_op}
use relentless.Engine.Async
use relentless.Engine.Async.{AsyncRetry, AsyncRetryOp}
use relentless.Engine.Sync.Builder as SyncBuilder
use relentless.Engine.Async.Builder as AsyncBuilder

abbrev pub default_max_attempts : ℕ
default_max_attempts = 3

abbrev pub default_initial_wait : ℕ
default_initial_wait = from_millis 100

-- `none` is the panic of `stop::attempts` on 0.
unfoldable pub default_stop : {World : Type 0} → Option (Stop World)
unfolding attempts
default_stop = attempts default_max_attempts

unfoldable pub default_wait : {World : Type 0} → Float → Wait World
unfolding exponential exponential_wait
default_wait fl = exponential_wait fl (exponential fl default_initial_wait)

pub record RetryPolicy (World O R A : Type 0) : Type 0 where
  pub stop : Stop World
  pub wait : Wait World
  pub classifier : Decide World O R A
  pub timeout : Option ℕ

module _ {World O R A : Type 0} where
  unfoldable pub new : ⦃outcome : Outcome O R A⦄ → Float → Option (RetryPolicy World O R A)
  unfolding default_stop default_wait
  new fl = elim default_stop [
    | none ↦ none
    | some stop ↦ some (record {
      stop = stop;
      wait = default_wait fl;
      classifier = default_classifier;
      timeout = none;
    })
  ]

  unfoldable pub set_stop : RetryPolicy World O R A → Stop World → RetryPolicy World O R A
  set_stop p stop = record p { stop = stop }

  unfoldable pub set_wait : RetryPolicy World O R A → Wait World → RetryPolicy World O R A
  set_wait p wait = record p { wait = wait }

  unfoldable pub set_timeout : RetryPolicy World O R A → ℕ → RetryPolicy World O R A
  set_timeout p dur = record p { timeout = some dur }

  unfoldable pub decide :
      {D : Type 0} ⦃into : IntoDecision D O R A⦄
      → RetryPolicy World O R A
      → (O → Eff World D)
      → RetryPolicy World O R A
  decide p classifier = record p { classifier = closure_classifier classifier }

  -- `system` is the platform's `SystemClock`.
  unfoldable pub retry :
      SyncClock World → RetryPolicy World O R A → RetryOp World O → Retry World O R A
  unfolding SyncBuilder.from_parts
  retry system p op = SyncBuilder.from_parts system op p.classifier p.stop p.wait p.timeout

  unfoldable pub retry_async :
      {Fut Sleep : Type 0}
      → AsyncClock World Sleep
      → RetryPolicy World O R A
      → AsyncRetryOp World O Fut
      → AsyncRetry World O R A Fut Sleep
  unfolding AsyncBuilder.from_parts
  retry_async system p op = AsyncBuilder.from_parts system op p.classifier p.stop p.wait p.timeout

  -- The free functions `retry` and `retry_async`, by `from_op`.
  unfoldable pub retry_op :
      ⦃outcome : Outcome O R A⦄
      → Float
      → SyncClock World
      → RetryOp World O
      → Option (Retry World O R A)
  unfolding default_stop default_wait SyncBuilder.from_parts
  retry_op fl system op = elim default_stop [
    | none ↦ none
    | some stop ↦
        some (SyncBuilder.from_parts system op default_classifier stop (default_wait fl) none)
  ]

  unfoldable pub retry_async_op :
      {Fut Sleep : Type 0} ⦃outcome : Outcome O R A⦄
      → Float
      → AsyncClock World Sleep
      → AsyncRetryOp World O Fut
      → Option (AsyncRetry World O R A Fut Sleep)
  unfolding default_stop default_wait AsyncBuilder.from_parts
  retry_async_op fl system op = elim default_stop [
    | none ↦ none
    | some stop ↦
        some (AsyncBuilder.from_parts system op default_classifier stop (default_wait fl) none)
  ]

  -- `RetryExt::retry`, of a closure without an argument.
  unfoldable pub retry_ext :
      ⦃outcome : Outcome O R A⦄ → Float → SyncClock World → Eff World O → Option (Retry World O R A)
  unfolding retry_op stateless_op
  retry_ext fl system f = retry_op fl system (stateless_op f)

  -- `AsyncRetryExt::retry_async`.
  unfoldable pub retry_async_ext :
      {Fut Sleep : Type 0} ⦃outcome : Outcome O R A⦄
      → Float
      → AsyncClock World Sleep
      → Eff World Fut
      → (Fut → Eff World (Poll O × Fut))
      → Option (AsyncRetry World O R A Fut Sleep)
  unfolding retry_async_op Async.stateless_op
  retry_async_ext fl system f poll = retry_async_op fl system (Async.stateless_op f poll)

abbrev pub OfResult : Type 0 → Type 0 → Type 0 → Type 0
OfResult World T E = RetryPolicy World (Result T E) T E

module _ {World T E : Type 0} where
  unfoldable pub when : OfResult World T E → Predicate World T E → OfResult World T E
  when p predicate = record p { classifier = Predicate.when predicate }

  unfoldable pub until : OfResult World T E → Predicate World T E → OfResult World T E
  until p predicate = record p { classifier = Predicate.until predicate }

module _ {World O R A : Type 0} where
  abbrev boxed : RetryPolicy World O R A → RetryPolicy World O R A
  boxed p = record p { stop = boxed_stop p.stop; wait = boxed_wait p.wait }

  abbrev boxed_local : RetryPolicy World O R A → RetryPolicy World O R A
  boxed_local p = record p { stop = boxed_stop p.stop; wait = boxed_wait p.wait }
