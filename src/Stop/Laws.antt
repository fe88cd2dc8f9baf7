-- ===== src/Stop/Laws.antt =====
-- The composites `|` and `&` over strategies that may keep state.
use relentless.Prelude.{◌≡◌, not, arith}
use relentless.Effect.{◌>>=◌, pure}
use relentless.State.{RetryState}
use relentless.Stop.{Stop, stop_any, stop_all}

module _ {World : Type 0} where
  abbrev pub negated : Stop World → Stop World
  negated a = record { should_stop = λ s. (do x ← a.should_stop s; pure (not x)) }

  -- De Morgan, effects included: `a | b` answers and acts like the negation of `!a & !b`, so both
  -- composites evaluate both sides, in the same order, whatever the left one answers.
  pub stop_any-stop_all_de_morgan :
      (a b : Stop World) (s : RetryState) (w : World)
      → (stop_any a b).should_stop s w
        ≡ (negated (stop_all (negated a) (negated b))).should_stop s w
  unfolding stop_any stop_all
  stop_any-stop_all_de_morgan a b s w = ground arith
