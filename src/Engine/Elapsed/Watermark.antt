-- ===== src/Engine/Elapsed/Watermark.antt =====
-- The readings of one execution, for any clock.
use relentless.Prelude.{
  ℕ, ◌+◌, ◌-◌, ◌≤◌, max, ◌≡◌, refl, sym, subst, Option, none, some, List, [], ◌∷◌, arith,
}
use relentless.Engine.Elapsed.{Elapsed, observe, observe_debug}

-- What a run of clock readings is turned into, and the same in a debug build.
abbrev pub elapsed_of : Elapsed → List ℕ → List ℕ
elapsed_of e [] = []
elapsed_of e (t ∷ ts) = (observe e t).0 ∷ elapsed_of (observe e t).1 ts

abbrev pub elapsed_debug : Elapsed → List ℕ → Option (List ℕ)
elapsed_debug e [] = some []
elapsed_debug e (t ∷ ts) =
    let rest = elapsed_debug (observe e t).1 ts in
    elim (observe_debug e t) [
      | none ↦ none
      | some (d, _) ↦ elim rest [ none ↦ none | some ds ↦ some (d ∷ ds) ]
    ]

-- A list that never falls, from a bound on.
abbrev pub NeverFalls : ℕ → List ℕ → Type 0
NeverFalls b [] = Unit {0}
NeverFalls b (d ∷ ds) = (b ≤ d) × NeverFalls d ds

abbrev pub since : ℕ → List ℕ → List ℕ
since origin [] = []
since origin (t ∷ ts) = (t - origin) ∷ since origin ts

-- Whatever the clock reports, elapsed time never falls below an earlier reading.
pub elapsed_of-NeverFalls : (e : Elapsed) (ts : List ℕ) → NeverFalls e.highest (elapsed_of e ts)
unfolding observe
elapsed_of-NeverFalls e [] = tt
elapsed_of-NeverFalls e (t ∷ ts) = (omega arith, elapsed_of-NeverFalls (observe e t).1 ts)

-- On clock readings that never fall, from the highest one so far on, the debug assertion never
-- fires, debug and release builds agree, and each value is the reading minus the origin.
pub elapsed_of_monotone :
    (e : Elapsed) (ts : List ℕ)
    → NeverFalls (e.origin + e.highest) ts
    → (elapsed_of e ts ≡ since e.origin ts) × (elapsed_debug e ts ≡ some (since e.origin ts))
unfolding observe observe_debug
elapsed_of_monotone e [] h = (refl, refl)
elapsed_of_monotone e (t ∷ ts) h =
    let seen : e.origin + max e.highest (t - e.origin) ≡ t = omega (arith, h.0) in
    ground
      (arith, elapsed_of_monotone (observe e t).1 ts (subst (λ b. NeverFalls b ts) (sym seen) h.1))
