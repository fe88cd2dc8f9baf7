-- ===== src/Samples/Sim.antt =====
-- A simulated world: a virtual clock, a tally that the hooks and the operation raise, and the number
-- of calls of an operation that fails twice and then succeeds, blocking and as a future.
use relentless.Prelude.{ℕ, zero, suc, ◌+◌, refl, some, leb, if◌then◌else◌}
use relentless.Effect.{Eff, Cell, pure}
use relentless.State.{RetryState}
use relentless.Decision.{Result, ok, err, default_classifier, result_outcome}
use relentless.Stop.Builtin.{Strategy, interpret}
use relentless.Wait.{linear}
use relentless.Clock.{
  Poll, ready, pending, VirtualTime, new, VirtualWait, virtual_sync, virtual_async,
}
use relentless.Engine.Hooks.{ExecutionHooks}
use relentless.Engine.Step.{Policies}
use relentless.Engine.Sync.{Retry, RetryOp}
use relentless.Engine.Async.{AsyncRetry}

pub record Sim : Type 0 where
  pub time : VirtualTime
  pub tally : ℕ
  pub calls : ℕ

abbrev pub begin : Sim
begin = record { time = new; tally = 0; calls = 0 }

abbrev pub time_cell : Cell Sim VirtualTime
time_cell = record { get = λ w. w.time; set = λ t w. record w { time = t }; get-set = λ t w. refl }

abbrev pub count : ℕ → Eff Sim (Unit {0})
count n w = (tt, record w { tally = w.tally + n })

abbrev pub op : RetryOp Sim (Result ℕ ℕ)
op s w =
    (if leb 2 w.calls then ok 42 else err 7, record w { calls = w.calls + 1; tally = w.tally + 10 })

abbrev pub hooks : ExecutionHooks Sim (Result ℕ ℕ) ℕ ℕ
hooks = record {
  before_attempt = λ s. count 1;
  after_attempt = λ s. count 100;
  on_exit = λ e. count 1000;
}

abbrev pub five : Strategy
five = Strategy.any (Strategy.attempts 5) (Strategy.elapsed 1_000)

abbrev pub policies : Policies Sim (Result ℕ ℕ) ℕ ℕ
policies = record {
  classifier = default_classifier;
  stop = interpret five;
  wait = linear 3 4;
  timeout = some 100;
  hooks = hooks;
}

abbrev pub blocking : Retry Sim (Result ℕ ℕ) ℕ ℕ
blocking = record { op = op; clock = virtual_sync time_cell; policies = policies }

-- A future of `op` that is pending as often as its number says.
abbrev pub poll_op : RetryState × ℕ → Eff Sim (Poll (Result ℕ ℕ) × (RetryState × ℕ))
poll_op (s, zero) w = ((ready (op s w).0, (s, 0)), (op s w).1)
poll_op (s, suc n) w = ((pending, (s, n)), w)

abbrev pub polled : AsyncRetry Sim (Result ℕ ℕ) ℕ ℕ (RetryState × ℕ) VirtualWait
polled = record {
  op = record { call_op = λ s. pure (s, 1); poll_op = poll_op };
  clock = virtual_async time_cell;
  policies = policies;
}

abbrev pub wake : Eff Sim (Unit {0})
wake = pure tt
