-- ===== src/Clock/Runtime/System.antt =====
-- clock/system_clock.rs: the wall clock of the standard library.
use relentless.Prelude.{ℕ, ◌+◌, ◌-◌, ◌≤◌, ◌≡◌, ◌∙◌, Option, none, some, refl, arith}
use relentless.Effect.{Eff, Cell, ◌>>=◌, pure}
use relentless.Clock.{SyncClock}

-- `std::time::Instant::now`, with instants as durations since some start, and `thread::sleep`.
module _ {World : Type 0} (instant : Eff World ℕ) (sleep : ℕ → Eff World (Unit {0}))
    (anchor : Cell World (Option ℕ)) where
  -- `OnceLock::get_or_init(Instant::now)`.
  abbrev initialized : Option ℕ → Eff World ℕ
  initialized (some origin) w = (origin, w)
  initialized none w = let (origin, w') = instant w in (origin, anchor.set (some origin) w')

  unfoldable pub get_or_init : Eff World ℕ
  get_or_init w = initialized (anchor.get w) w

  -- `Instant::elapsed` is zero for an instant that has not come yet.
  unfoldable pub now : Eff World ℕ
  unfolding get_or_init
  now = do origin ← get_or_init; current ← instant; pure (current - origin)

  unfoldable pub clock : SyncClock World
  clock = record { now = now; wait = sleep }

  -- What the clock relies on: instants never go back, a sleep takes at least its duration, and
  -- neither touches the anchor.
  pub record Standard (time : World → ℕ) : Type 0 where
    pub reads : (w : World) → (time w ≤ (instant w).0) × ((instant w).0 ≤ time (instant w).1)
    pub instant_keeps : (w : World) → anchor.get (instant w).1 ≡ anchor.get w
    pub set_keeps : (o : Option ℕ) (w : World) → time (anchor.set o w) ≡ time w
    pub sleeps : (d : ℕ) (w : World) → time w + d ≤ time (sleep d w).1
    pub sleep_keeps : (d : ℕ) (w : World) → anchor.get (sleep d w).1 ≡ anchor.get w

  -- An anchor that is set lies in the past.
  abbrev pub InPast : (World → ℕ) → World → Type 0
  InPast time w = (o : ℕ) → anchor.get w ≡ some o → o ≤ time w

  module _ {time : World → ℕ} (standard : Standard time) where
    now_anchored :
        (w : World) (o : ℕ) → anchor.get w ≡ some o → now w ≡ ((instant w).0 - o, (instant w).1)
    unfolding now get_or_init
    now_anchored w o e = rw e refl

    now_first :
        (w : World)
        → anchor.get w ≡ none
        → let w' = anchor.set (some (instant w).0) (instant w).1 in
          now w ≡ ((instant w').0 - (instant w).0, (instant w').1)
    unfolding now get_or_init
    now_first w e = rw e refl

    abbrev Anchored : ℕ × World → Type 0
    Anchored x = (o : ℕ) × (anchor.get x.1 ≡ some o) × (x.0 + o ≤ time x.1)

    now-Anchored : (w : World) → InPast time w → Anchored (now w)
    now-Anchored w past = go (anchor.get w) refl
      where
        go : (x : Option ℕ) → anchor.get w ≡ x → Anchored (now w)
        go (some o) e =
            rw (now_anchored w o e)
              (o, standard.instant_keeps w ∙ e, omega (arith, past o e, standard.reads w))
        go none e =
            let first = instant w in
            let w' = anchor.set (some first.0) first.1 in
            rw (now_first w e) (
              first.0,
              standard.instant_keeps w' ∙ anchor.get-set (some first.0) first.1,
              omega (
                arith,
                standard.reads w,
                standard.set_keeps (some first.0) first.1,
                standard.reads w',
              ),
            )

    -- The system clock keeps the contract of a clock: a reading after a wait is later than the
    -- reading before it by at least what was waited, also where the first of them sets the anchor,
    -- if instants never go back, `thread::sleep` sleeps as long as it is told to, neither touches
    -- the anchor, and an anchor that is set already lies in the past.
    pub now-wait :
        (d : ℕ) (w : World)
        → InPast time w
        → let (before, w1) = clock.now w in before + d ≤ (clock.now (clock.wait d w1).1).0
    unfolding clock
    now-wait d w past =
        let (o, e, h) = now-Anchored w past in
        let w2 = (sleep d (now w).1).1 in
        rw (now_anchored w2 o (standard.sleep_keeps d (now w).1 ∙ e))
          (omega (arith, h, standard.sleeps d (now w).1, standard.reads w2))
