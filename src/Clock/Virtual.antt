-- ===== src/Clock/Virtual.antt =====
-- The virtual clock keeps reading and waiting together.
use mathlib.Core.List.{append_assoc, append-nil}
use relentless.Prelude.{ℕ, ◌+◌, min, ◌≡◌, refl, ap, ◌∙◌, List, [], ◌∷◌, ◌++◌, arith}
use relentless.Effect.{Cell}
use relentless.Duration.{IsDuration, duration_max, saturating_add}
use relentless.Clock.{ready, VirtualTime, record_wait, virtual_sync, virtual_async, poll_virtual}

abbrev pub sum : List ℕ → ℕ
sum [] = 0
sum (d ∷ ds) = d + sum ds

module _ {World : Type 0} (clock : Cell World VirtualTime) where
  -- A run of waits, through the clock's own `wait`.
  abbrev pub wait_all : List ℕ → World → World
  wait_all [] w = w
  wait_all (d ∷ ds) w = wait_all ds ((virtual_sync clock).wait d w).1

  pub record_wait_state :
      (d : ℕ) (w : World)
      → clock.get ((virtual_sync clock).wait d w).1
        ≡ record { now = saturating_add (clock.get w).now d; waits = (clock.get w).waits ++ d ∷ [] }
  unfolding virtual_sync record_wait
  record_wait_state d w = simp clock.get-set

  -- After any run of waits the clock reads its start plus their sum, held at the largest duration,
  -- and it has recorded exactly these waits, in order.
  pub wait_all_state :
      (ds : List ℕ) (w : World)
      → IsDuration (clock.get w).now
      → ((clock.get (wait_all ds w)).now ≡ min ((clock.get w).now + sum ds) duration_max)
        × ((clock.get (wait_all ds w)).waits ≡ (clock.get w).waits ++ ds)
  unfolding saturating_add
  wait_all_state [] w h = (omega arith, simp append-nil)
  wait_all_state (d ∷ ds) w h =
      let w' = ((virtual_sync clock).wait d w).1 in
      let e = record_wait_state d w in
      let t : (clock.get w').now ≡ min ((clock.get w).now + d) duration_max =
        ap (λ (s : VirtualTime). s.now) e in
      let (time, waits) = wait_all_state ds w' (omega (arith, t)) in
      (
        omega (arith, t, time),
        waits
            ∙ (ap (λ (s : VirtualTime). s.waits ++ ds) e
                ∙ append_assoc (clock.get w).waits (d ∷ []) ds),
      )

  -- A virtual wait does nothing until it is polled; the first poll completes it and does to the
  -- world what the blocking wait does, and each later poll completes it again and does nothing.
  pub poll_virtual_once :
      (d : ℕ) (w : World)
      → let (v, w0) = (virtual_async clock).wait_async d w in
        let ((first, v1), w1) = (virtual_async clock).poll_wait v w0 in
        let ((second, v2), w2) = (virtual_async clock).poll_wait v1 w1 in
        (w0 ≡ w)
        × (first ≡ ready tt)
        × (w1 ≡ ((virtual_sync clock).wait d w).1)
        × (second ≡ ready tt)
        × (w2 ≡ w1)
  unfolding virtual_async virtual_sync poll_virtual
  poll_virtual_once d w = (refl, refl, refl, refl, refl)
