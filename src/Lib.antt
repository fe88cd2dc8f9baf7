-- ===== src/Lib.antt =====
-- The retry crate relentless: its retry loops, blocking and polled, with the strategies, predicates,
-- clocks and hooks that they call.
--
-- The program. A retry pairs an operation with a classifier, a stop strategy, a wait strategy, an
-- optional timeout, a clock and three hooks. Both engines make an attempt, hand its outcome to the
-- one shared function `step`, and either return what it decided or wait as long as it said and make
-- the next attempt. The blocking engine sleeps on the clock; the async engine is a future whose
-- `poll` moves through phases. Strategies and predicates are values that a user composes.
--
-- The files, with the sources they model:
--   Duration       the arithmetic of `core::time::Duration`, as nanoseconds
--   State          src/state.rs: RetryState
--   Decision       src/decision.rs: Verdict, Outcome, Decide, IntoDecision
--   Predicate      src/predicate/mod.rs and classifier.rs: the predicates, When, Until
--   Stop           src/stop/: attempts, elapsed, never, StopAny, StopAll; Stop/Builtin has the closed
--                  syntax of what the crate itself offers
--   Wait           src/wait/mod.rs, strategies.rs, composition.rs; Wait/Exact has the exact reference;
--                  Wait/Exponential has the f64 code; Wait/Rng and Wait/Jitter have
--                  src/wait/jitter.rs, a draw being the accesses that it makes to the generator's
--                  state, which a single thread makes all at once and those of Wait/Rng/Shared in
--                  any order
--   Clock          src/clock/mod.rs and virtual_clock.rs; Clock/Runtime has the clocks of the runtimes,
--                  one file each, over the platform's timer
--   Engine/Elapsed, Termination, Error, Hooks, Step: the files of these names in src/engine/, with
--                  stats.rs in Termination and the Display impls in Engine/Display
--   Engine/Sync    src/engine/sync_engine.rs and op.rs; Sync/Builder has its builder
--   Engine/Async   src/engine/async_engine.rs; Async/Executor has a poll loop, and Async/Futures says
--                  what it means for a future to complete; Async/Cancellation has a future that is
--                  dropped between two polls, and Async/Machine its state machine
--   Engine/Reference   an account of a run with no clock and no world, of what the operation answers at
--                  each attempt and how long it takes; Reference/Refines relates the engine to it,
--                  and Reference/Ends and Reference/TimedOut say where it ends
--   Policy         src/policy/mod.rs and src/defaults.rs
--   Examples       the programs in examples/ as clients of all of these: polling-terminal-failure.rs
--                  in Polling, custom-outcome.rs in CustomOutcome, basic-retry.rs in BasicRetry,
--                  testing-with-virtual-clock.rs in VirtualClock, sync-cancel.rs in SyncCancel,
--                  hooks-and-stats.rs in HooksAndStats, async-polling.rs in AsyncPolling and
--                  async-cancel.rs in AsyncCancel. The numbers in a main function (failures, calls
--                  before a flag is set, a budget, a number of attempts) are parameters there; what
--                  an example prints is a list of lines; tokio's clock and timer are parameters
--   Samples        a simulated world, with tests and worked examples
--
-- How state is modelled. Closures, cells, clocks and generators read and write one world: an effect
-- (Effect.Eff) is a function from a world to a value and a world, and a `&self` method with interior
-- mutability and an `FnMut` are both effects. A cell of the world is a record with get and set.
-- Traits are records of effects. The loop variables of `run` are the record Cursor, and the fields
-- of AsyncRun that change are the record AsyncRun.
--
-- Numbers. Attempt numbers are u32 and durations are u64 seconds with nanoseconds: both are natural
-- numbers with the saturation of the code written out at each operation, u32::MAX and Duration::MAX
-- included. The generator's u64 wraps at 2 ^ 64. `f64` is a parameter (Wait.Exponential.Float), and
-- FloatLaws are the facts of IEEE 754 that the results use: whole numbers up to 2 ^ 53 are exact.
--
-- Fuel. `run` takes one unit of fuel for each attempt, since a strategy may never give up; `poll`
-- takes one for each turn of its loop, and `block_on` one for each poll. Results on termination
-- give the fuel that is enough: for `run` the strategy's attempt bound, or one more than the number
-- of delays that reach the timeout, and some number of polls for the executor.
--
-- Platforms. The timers of std, Tokio, Embassy, gloo and futures-timer, `TICK_HZ` and Embassy's own
-- rounding are parameters of the runtime clocks, with what the crate relies on as hypotheses
-- (Clock.Runtime.System.Standard, Clock.Runtime.Embassy.RoundsDown). A formatter is the text written
-- to it, and the Display of an error payload is a parameter.
--
-- Not modelled: debug assertions on attempt numbers, Debug impls, the crate root, the tests and the
-- benchmarks; of the async cancelling example the timeouts, selects, tokens and channels of tokio,
-- which stand as an owner that polls a future and drops it. The engines read the clock as a release
-- build does (Engine.Elapsed.observe); the debug assertion on it is observe_debug, apart from them.
pub mod Prelude
pub mod Effect
pub mod Duration
pub mod State
pub mod Decision
pub mod Predicate
pub mod Stop
pub mod Wait
pub mod Clock
pub mod Engine
pub mod Policy
pub mod Examples
mod Samples
