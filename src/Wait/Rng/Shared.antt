-- ===== src/Wait/Rng/Shared.antt =====
-- A generator that several threads draw from: each of their next accesses may come first.
use mathlib.Core.List.{Perm, perm_middle}
use mathlib.Core.List.Perm
use relentless.Prelude.{ℕ, zero, suc, ◌≡◌, refl, ap, subst, List, [], ◌∷◌, ◌++◌}
use relentless.Effect.{Cell}
use relentless.Wait.Rng.{
  Access, done, fetch_add, load, store, next_u64_accesses, next_access, next_u64,
}
use relentless.Wait.Rng.Laws.{after_draws}

-- The world, what the draws under way have still to do, and the outputs so far, the newest first.
pub record Threads (World : Type 0) : Type 0 where
  pub world : World
  pub running : List (Access ℕ)
  pub outputs : List ℕ

-- The outputs of the draws that have made all of their accesses.
abbrev got : Access ℕ → List ℕ
got (done z) = z ∷ []
got (fetch_add n rest) = []
got (load rest) = []
got (store n rest) = []

abbrev gotten : List (Access ℕ) → List ℕ
gotten [] = []
gotten (p ∷ ps) = got p ++ gotten ps

gotten-done :
    (before : List (Access ℕ)) (z : ℕ) (after : List (Access ℕ))
    → Perm (gotten (before ++ done z ∷ after)) (z ∷ gotten (before ++ after))
gotten-done [] z after = Perm.refl _
gotten-done (p ∷ ps) z after =
    Perm.trans (Perm.append (Perm.refl (got p)) (gotten-done ps z after))
      (perm_middle (got p) (gotten (ps ++ after)))

gotten-next_u64_accesses :
    (before after : List (Access ℕ))
    → gotten (before ++ next_u64_accesses ∷ after) ≡ gotten (before ++ after)
gotten-next_u64_accesses [] after = refl
gotten-next_u64_accesses (p ∷ ps) after = ap (λ l. got p ++ l) (gotten-next_u64_accesses ps after)

-- A draw has made none of its accesses, or all of them.
data Stage : Access ℕ → Type 0 where
  started : Stage next_u64_accesses
  drawn_out : (z : ℕ) → Stage (done z)

abbrev Stages : List (Access ℕ) → Type 0
Stages [] = Unit {0}
Stages (p ∷ ps) = Stage p × Stages ps

Stages-split :
    (before : List (Access ℕ)) (p : Access ℕ) (after : List (Access ℕ))
    → Stages (before ++ p ∷ after)
    → Stage p × Stages (before ++ after)
Stages-split [] p after h = h
Stages-split (b ∷ bs) p after (h, hs) = let (k, ks) = Stages-split bs p after hs in (k, (h, ks))

Stages-insert :
    (before : List (Access ℕ)) (p : Access ℕ) (after : List (Access ℕ))
    → Stage p
    → Stages (before ++ after)
    → Stages (before ++ p ∷ after)
Stages-insert [] p after k h = (k, h)
Stages-insert (b ∷ bs) p after k (h, hs) = (h, Stages-insert bs p after k hs)

module _ {World : Type 0} (state : Cell World ℕ) where
  -- Any thread may start a draw, any draw under way may make its next access, and a draw that has made
  -- all of them may return.
  pub data Moves : Threads World → Threads World → Type 0 where
    start : (t : Threads World) → Moves t (record t { running = next_u64_accesses ∷ t.running })
    access :
        (t : Threads World) (before : List (Access ℕ)) (p : Access ℕ) (after : List (Access ℕ))
        → t.running ≡ before ++ p ∷ after
        → Moves t (record t {
          world = (next_access state p t.world).1;
          running = before ++ (next_access state p t.world).0 ∷ after;
        })
    finish :
        (t : Threads World) (before : List (Access ℕ)) (z : ℕ) (after : List (Access ℕ))
        → t.running ≡ before ++ done z ∷ after
        → Moves t (record t { running = before ++ after; outputs = z ∷ t.outputs })

  pub data Reaches (t : Threads World) : Threads World → Type 0 where
    stay : Reaches t t
    move : {u v : Threads World} → Reaches t u → Moves u v → Reaches t v

  -- The outputs of `k` draws of a single thread, the newest first.
  abbrev pub drawn : ℕ → World → List ℕ
  drawn zero w = []
  drawn (suc k) w = (next_u64 state (after_draws state k w)).0 ∷ drawn k w

  -- So many draws have made their accesses, and what they give is what a single thread gets.
  abbrev Drawn : (start now : World) → (running : List (Access ℕ)) → (outputs : List ℕ) → Type 0
  Drawn w v running outputs =
      Stages running
      × ((k : ℕ) × (v ≡ after_draws state k w) × Perm (gotten running ++ outputs) (drawn k w))

  access-Drawn :
      (w v : World) (before : List (Access ℕ)) (p : Access ℕ) (after : List (Access ℕ))
      (outputs : List ℕ)
      → Stage p
      → Drawn w v (before ++ p ∷ after) outputs
      → Drawn w (next_access state p v).1 (before ++ (next_access state p v).0 ∷ after) outputs
  unfolding next_u64
  access-Drawn w v before p after outputs (drawn_out z) h = h
  access-Drawn w v before p after outputs started (stages, (k, same, perm)) =
      let z = (next_u64 state v).0 in
      let rest : Stages (before ++ after) =
        (Stages-split before next_u64_accesses after stages).1 in
      let old : Perm (gotten (before ++ after) ++ outputs) (drawn k w) =
        subst (λ (l : List ℕ). Perm (l ++ outputs) (drawn k w))
          (gotten-next_u64_accesses before after) perm in
      let new : Perm (gotten (before ++ done z ∷ after) ++ outputs) (z ∷ drawn k w) =
        Perm.trans (Perm.append (gotten-done before z after) (Perm.refl outputs))
          (Perm.cons z old) in
      (
        Stages-insert before (done z) after (drawn_out z) rest,
        (
          suc k,
          ap (λ u. (next_u64 state u).1) same,
          subst
              (λ u.
                Perm (gotten (before ++ done z ∷ after) ++ outputs)
                  ((next_u64 state u).0 ∷ drawn k w))
              same new,
        ),
      )

  finish-Drawn :
      (w v : World) (before : List (Access ℕ)) (z : ℕ) (after : List (Access ℕ)) (outputs : List ℕ)
      → Drawn w v (before ++ done z ∷ after) outputs
      → Drawn w v (before ++ after) (z ∷ outputs)
  finish-Drawn w v before z after outputs (stages, (k, same, perm)) = (
    (Stages-split before (done z) after stages).1,
    (
      k,
      same,
      Perm.trans (perm_middle (gotten (before ++ after)) outputs) (
          Perm.trans (Perm.symm (Perm.append (gotten-done before z after) (Perm.refl outputs)))
            perm),
    ),
  )

  abbrev Kept : World → Threads World → Type 0
  Kept w t = Drawn w t.world t.running t.outputs

  move-Kept : (w : World) (t u : Threads World) → Kept w t → Moves t u → Kept w u
  move-Kept w t u (stages, h) (start s) = ((started, stages), h)
  move-Kept w t u h (access s before p after e) =
      let here = subst (λ l. Drawn w t.world l t.outputs) e h in
      access-Drawn w t.world before p after t.outputs (Stages-split before p after here.0).0 here
  move-Kept w t u h (finish s before z after e) =
      finish-Drawn w t.world before z after t.outputs (subst (λ l. Drawn w t.world l t.outputs) e h)

  Reaches-Kept : (w : World) (t u : Threads World) → Kept w t → Reaches t u → Kept w u
  Reaches-Kept w t u h stay = h
  Reaches-Kept w t u h (move r m) = move-Kept w _ _ (Reaches-Kept w t _ h r) m

  -- Threads that share a generator share one stream: however the accesses that `next_u64` makes to
  -- the generator interleave with those of other draws, once no draw is under way the outputs that the
  -- threads have got are, up to order, those that a single thread gets by as many draws from the
  -- same state, and the generator is where it leaves it.
  pub interleaved-perm :
      (w : World) (t : Threads World)
      → Reaches (record { world = w; running = []; outputs = [] }) t
      → t.running ≡ []
      → (k : ℕ) × (t.world ≡ after_draws state k w) × Perm t.outputs (drawn k w)
  interleaved-perm w t r idle =
      let (stages, (k, same, perm)) = Reaches-Kept w _ t (tt, (0, refl, Perm.refl [])) r in
      (k, same, subst (λ l. Perm (gotten l ++ t.outputs) (drawn k w)) idle perm)
