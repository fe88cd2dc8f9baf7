-- ===== src/Engine/Hooks.antt =====
-- engine/hooks.rs: the three hook points and the chains that several hooks at one point make.
use relentless.Prelude.{ℕ}
use relentless.Effect.{Eff, ◌>>◌, pure}
use relentless.State.{RetryState}
use relentless.Engine.Termination.{Exit}

pub record AttemptState (O : Type 0) : Type 0 where
  pub attempt : ℕ
  pub elapsed : ℕ
  pub outcome : O

-- A hook over the view `V`: the traits `BeforeAttemptHook`, `AttemptHook` and `ExitHook` differ in it.
abbrev pub Hook : Type 0 → Type 0 → Type 0
Hook World V = V → Eff World (Unit {0})

-- The hook `()`.
abbrev pub no_hook : {World V : Type 0} → Hook World V
no_hook v = pure tt

-- `HookChain`: both fire, in registration order.
unfoldable pub hook_chain : {World V : Type 0} → Hook World V → Hook World V → Hook World V
hook_chain first second v = first v >> second v

pub record ExecutionHooks (World O R A : Type 0) : Type 0 where
  pub before_attempt : Hook World RetryState
  pub after_attempt : Hook World (AttemptState O)
  pub on_exit : Hook World (Exit R A O)

module _ {World O R A : Type 0} where
  abbrev pub no_hooks : ExecutionHooks World O R A
  no_hooks = record { before_attempt = no_hook; after_attempt = no_hook; on_exit = no_hook }

  unfoldable pub chain_before_attempt :
      ExecutionHooks World O R A → Hook World RetryState → ExecutionHooks World O R A
  unfolding hook_chain
  chain_before_attempt h hook = record h { before_attempt = hook_chain h.before_attempt hook }

  unfoldable pub chain_after_attempt :
      ExecutionHooks World O R A → Hook World (AttemptState O) → ExecutionHooks World O R A
  unfolding hook_chain
  chain_after_attempt h hook = record h { after_attempt = hook_chain h.after_attempt hook }

  unfoldable pub chain_on_exit :
      ExecutionHooks World O R A → Hook World (Exit R A O) → ExecutionHooks World O R A
  unfolding hook_chain
  chain_on_exit h hook = record h { on_exit = hook_chain h.on_exit hook }
