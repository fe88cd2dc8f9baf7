-- ===== src/Examples/Scripted/Call.antt =====
-- A retry that polls a script returns what the reference says.
use relentless.Prelude.{◌≤◌, ◌≡◌, refl, ap, ◌∙◌, Option, none, some, arith}
use relentless.Decision.{Verdict}
use relentless.Clock.{VirtualTime}
use relentless.Engine.Sync.{Retry}
use relentless.Engine.Reference.{account_of}
use relentless.Engine.Reference.Pass.{on_virtual_clock}
use relentless.Engine.Reference.Refines.{run-account_of}
use relentless.Examples.Calls.{call_built, call_built-run}
use relentless.Examples.Scripted.{Job, time_cell, Script, scripted_poller, fresh}
use relentless.Examples.Scripted.Decisive.{
  Answer, first_decisive, rules, hooks, plays, account-first_decisive,
}

module _ {O R A : Type 0} (classify : O → Verdict R A O) (script : Script O) where
  abbrev pub scripted_retry : Retry Job O R A
  scripted_retry =
      on_virtual_clock time_cell (rules classify script) (λ s. scripted_poller script)
        (hooks classify script)

  module _ (built : Option (Retry Job O R A)) (same_retry : built ≡ some scripted_retry) where
    pub call_built-first_decisive :
        (w : Job) × (call_built built 10 fresh ≡ some (first_decisive classify script 9 0, w))
        × (w.time.now ≤ 90_000_000)
    unfolding account_of
    call_built-first_decisive =
        let (a, e, same, time) = account-first_decisive classify script 9 0 0 0 none refl in
        let (w, ran, there) =
          run-account_of time_cell (rules classify script) (λ s. scripted_poller script)
            (hooks classify script) (plays classify script) 10 fresh a e (omega arith)
            (omega arith, omega arith) (omega (arith, time)) in
        (
          w,
          call_built-run built scripted_retry 10 fresh (a.outcome, w) same_retry ran
              ∙ ap (λ (r : Answer O R A). some (r, w)) same,
          omega (arith, ap (λ (t : VirtualTime). t.now) there, time),
        )
