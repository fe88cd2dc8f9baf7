-- ===== src/Engine/Sync/Builder.antt =====
-- engine/sync_engine.rs, lines 60 to 350: the builder.
use relentless.Prelude.{ℕ, Option, some}
use relentless.Effect.{Eff}
use relentless.State.{RetryState}
use relentless.Decision.{Result, Decide, IntoDecision, closure_classifier}
use relentless.Predicate.{Predicate}
use relentless.Predicate
use relentless.Stop.{Stop}
use relentless.Wait.{Wait}
use relentless.Clock.{SyncClock}
use relentless.Engine.Termination.{Exit}
use relentless.Engine.Hooks.{
  AttemptState, Hook, no_hooks, chain_before_attempt, chain_after_attempt, chain_on_exit,
}
use relentless.Engine.Sync.{Retry, RetryOp}

module _ {World O R A : Type 0} where
  -- `system` is the platform's `SystemClock`.
  unfoldable pub from_parts :
      SyncClock World
      → RetryOp World O
      → Decide World O R A
      → Stop World
      → Wait World
      → Option ℕ
      → Retry World O R A
  from_parts system op classifier stop wait timeout = record {
    op = op;
    clock = system;
    policies = record {
      classifier = classifier;
      stop = stop;
      wait = wait;
      timeout = timeout;
      hooks = no_hooks;
    };
  }

  unfoldable pub set_stop : Retry World O R A → Stop World → Retry World O R A
  set_stop r stop = record r { policies = record (r.policies) { stop = stop } }

  unfoldable pub set_wait : Retry World O R A → Wait World → Retry World O R A
  set_wait r wait = record r { policies = record (r.policies) { wait = wait } }

  unfoldable pub set_clock : Retry World O R A → SyncClock World → Retry World O R A
  set_clock r clock = record r { clock = clock }

  unfoldable pub set_timeout : Retry World O R A → ℕ → Retry World O R A
  set_timeout r dur = record r { policies = record (r.policies) { timeout = some dur } }

  -- The new classifier has the types that the exit hooks are for.
  unfoldable pub with_classifier : Retry World O R A → Decide World O R A → Retry World O R A
  with_classifier r classifier = record r {
    policies = record (r.policies) { classifier = classifier };
  }

  unfoldable pub decide :
      {D : Type 0} ⦃into : IntoDecision D O R A⦄
      → Retry World O R A
      → (O → Eff World D)
      → Retry World O R A
  unfolding with_classifier
  decide r classifier = with_classifier r (closure_classifier classifier)

  unfoldable pub before_attempt : Retry World O R A → Hook World RetryState → Retry World O R A
  before_attempt r hook = record r {
    policies = record (r.policies) { hooks = chain_before_attempt r.policies.hooks hook };
  }

  unfoldable pub after_attempt : Retry World O R A → Hook World (AttemptState O) → Retry World O R A
  after_attempt r hook = record r {
    policies = record (r.policies) { hooks = chain_after_attempt r.policies.hooks hook };
  }

  unfoldable pub on_exit : Retry World O R A → Hook World (Exit R A O) → Retry World O R A
  on_exit r hook = record r {
    policies = record (r.policies) { hooks = chain_on_exit r.policies.hooks hook };
  }

module _ {World T E : Type 0} where
  unfoldable pub when :
      Retry World (Result T E) T E → Predicate World T E → Retry World (Result T E) T E
  unfolding with_classifier
  when r predicate = with_classifier r (Predicate.when predicate)

  unfoldable pub until :
      Retry World (Result T E) T E → Predicate World T E → Retry World (Result T E) T E
  unfolding with_classifier
  until r predicate = with_classifier r (Predicate.until predicate)
