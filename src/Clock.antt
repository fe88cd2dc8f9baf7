-- ===== src/Clock.antt =====
-- clock/mod.rs and clock/virtual_clock.rs: the injected clock and the deterministic test clock. The
-- clocks of the runtimes are in Runtime.
pub mod Virtual
pub mod Runtime
use relentless.Prelude.{ℕ, Bool, true, false, List, [], ◌∷◌, ◌++◌}
use relentless.Effect.{Eff, Cell, ◌>>=◌, ◌>>◌, pure}
use relentless.Duration.{saturating_add}

pub record SyncClock (World : Type 0) : Type 0 where
  pub now : Eff World ℕ
  pub wait : ℕ → Eff World (Unit {0})

pub data Poll (A : Type 0) : Type 0 where
  ready : A → Poll A
  pending : Poll A

-- `Sleep` is the associated type `Wait`, the future of a wait. A poll returns the future's next state.
pub record AsyncClock (World Sleep : Type 0) : Type 0 where
  pub now : Eff World ℕ
  pub wait_async : ℕ → Eff World Sleep
  pub poll_wait : Sleep → Eff World (Poll (Unit {0}) × Sleep)

-- The two cells of `VirtualClock`.
pub record VirtualTime : Type 0 where
  pub now : ℕ
  pub waits : List ℕ

abbrev pub new : VirtualTime
new = record { now = 0; waits = [] }

-- The future of a virtual wait.
pub record VirtualWait : Type 0 where
  pub dur : ℕ
  pub advanced : Bool

module _ {World : Type 0} (clock : Cell World VirtualTime) where
  unfoldable pub advance : ℕ → Eff World (Unit {0})
  advance dur w =
      let t = clock.get w in (tt, clock.set (record t { now = saturating_add t.now dur }) w)

  unfoldable pub record_wait : ℕ → Eff World (Unit {0})
  unfolding advance
  record_wait dur = do
    advance dur
    λ w. let t = clock.get w in (tt, clock.set (record t { waits = t.waits ++ dur ∷ [] }) w)

  unfoldable pub virtual_sync : SyncClock World
  virtual_sync = record { now = λ w. ((clock.get w).now, w); wait = record_wait }

  -- `VirtualWait::poll`: time advances on the first poll, and every poll is ready.
  unfoldable pub poll_virtual : VirtualWait → Eff World (Poll (Unit {0}) × VirtualWait)
  poll_virtual v = elim v.advanced [
    | true ↦ pure (ready tt, v)
    | false ↦ (do record_wait v.dur; pure (ready tt, record v { advanced = true }))
  ]

  unfoldable pub virtual_async : AsyncClock World VirtualWait
  virtual_async = record {
    now = λ w. ((clock.get w).now, w);
    wait_async = λ dur. pure (record { dur = dur; advanced = false });
    poll_wait = poll_virtual;
  }

-- The impls for references forward.
abbrev by_ref_sync : {World : Type 0} → SyncClock World → SyncClock World
by_ref_sync inner = record { now = inner.now; wait = λ dur. inner.wait dur }

abbrev by_ref_async : {World Sleep : Type 0} → AsyncClock World Sleep → AsyncClock World Sleep
by_ref_async inner = record {
  now = inner.now;
  wait_async = λ dur. inner.wait_async dur;
  poll_wait = inner.poll_wait;
}
