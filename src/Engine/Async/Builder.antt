-- ===== src/Engine/Async/Builder.antt =====
-- engine/async_engine.rs, lines 60 to 325: the builder.
use relentless.Prelude.{ℕ, Option, some}
use relentless.Effect.{Eff}
use relentless.State.{RetryState}
use relentless.Decision.{Result, Decide, IntoDecision, closure_classifier}
use relentless.Predicate.{Predicate}
use relentless.Predicate
use relentless.Stop.{Stop}
use relentless.Wait.{Wait}
use relentless.Clock.{AsyncClock}
use relentless.Engine.Termination.{Exit}
use relentless.Engine.Hooks.{
  AttemptState, Hook, no_hooks, chain_before_attempt, chain_after_attempt, chain_on_exit,
}
use relentless.Engine.Async.{AsyncRetry, AsyncRetryOp}

module _ {World O R A Fut Sleep : Type 0} where
  -- `system` is the platform's `SystemClock`.
  unfoldable pub from_parts :
      AsyncClock World Sleep
      → AsyncRetryOp World O Fut
      → Decide World O R A
      → Stop World
      → Wait World
      → Option ℕ
      → AsyncRetry World O R A Fut Sleep
  from_parts system op classifier stop wait timeout = record {
    op = op;
    clock = system;
    policies = record {
      classifier = classifier;
      stop = stop;
      wait = wait;
      timeout = timeout;
      hooks = no_hooks;
    };
  }

  unfoldable pub set_stop :
      AsyncRetry World O R A Fut Sleep → Stop World → AsyncRetry World O R A Fut Sleep
  set_stop r stop = record r { policies = record (r.policies) { stop = stop } }

  unfoldable pub set_wait :
      AsyncRetry World O R A Fut Sleep → Wait World → AsyncRetry World O R A Fut Sleep
  set_wait r wait = record r { policies = record (r.policies) { wait = wait } }

  unfoldable pub set_clock :
      AsyncRetry World O R A Fut Sleep → AsyncClock World Sleep → AsyncRetry World O R A Fut Sleep
  set_clock r clock = record r { clock = clock }

  unfoldable pub set_timeout :
      AsyncRetry World O R A Fut Sleep → ℕ → AsyncRetry World O R A Fut Sleep
  set_timeout r dur = record r { policies = record (r.policies) { timeout = some dur } }

  -- The new classifier has the types that the exit hooks are for.
  unfoldable pub with_classifier :
      AsyncRetry World O R A Fut Sleep → Decide World O R A → AsyncRetry World O R A Fut Sleep
  with_classifier r classifier = record r {
    policies = record (r.policies) { classifier = classifier };
  }

  unfoldable pub decide :
      {D : Type 0} ⦃into : IntoDecision D O R A⦄
      → AsyncRetry World O R A Fut Sleep
      → (O → Eff World D)
      → AsyncRetry World O R A Fut Sleep
  unfolding with_classifier
  decide r classifier = with_classifier r (closure_classifier classifier)

  unfoldable pub before_attempt :
      AsyncRetry World O R A Fut Sleep → Hook World RetryState → AsyncRetry World O R A Fut Sleep
  before_attempt r hook = record r {
    policies = record (r.policies) { hooks = chain_before_attempt r.policies.hooks hook };
  }

  unfoldable pub after_attempt :
      AsyncRetry World O R A Fut Sleep
      → Hook World (AttemptState O)
      → AsyncRetry World O R A Fut Sleep
  after_attempt r hook = record r {
    policies = record (r.policies) { hooks = chain_after_attempt r.policies.hooks hook };
  }

  unfoldable pub on_exit :
      AsyncRetry World O R A Fut Sleep → Hook World (Exit R A O) → AsyncRetry World O R A Fut Sleep
  on_exit r hook = record r {
    policies = record (r.policies) { hooks = chain_on_exit r.policies.hooks hook };
  }

module _ {World T E Fut Sleep : Type 0} where
  unfoldable pub when :
      AsyncRetry World (Result T E) T E Fut Sleep
      → Predicate World T E
      → AsyncRetry World (Result T E) T E Fut Sleep
  unfolding with_classifier
  when r predicate = with_classifier r (Predicate.when predicate)

  unfoldable pub until :
      AsyncRetry World (Result T E) T E Fut Sleep
      → Predicate World T E
      → AsyncRetry World (Result T E) T E Fut Sleep
  unfolding with_classifier
  until r predicate = with_classifier r (Predicate.until predicate)
