-- ===== src/Samples/Sharing.antt =====
-- Two threads that draw from one generator, the later of which finishes first.
use relentless.Prelude.{ℕ, ◌+◌, ◌≡◌, refl, [], ◌∷◌}
use relentless.Effect.{Cell}
use mathlib.Core.List.{Perm}
use relentless.Wait.Rng.{u64, gamma, mix, done, next_u64_accesses}
use relentless.Wait.Rng.Laws.{after_draws}
use relentless.Wait.Rng.Shared.{
  Threads, start, access, finish, Reaches, stay, move, drawn, interleaved-perm,
}

abbrev generator : Cell ℕ ℕ
generator = record { get = λ w. w; set = λ n w. n; get-set = λ n w. refl }

abbrev idle : Threads ℕ
idle = record { world = 12345; running = []; outputs = [] }

abbrev first : ℕ
first = u64 (12345 + gamma)

abbrev second : ℕ
second = u64 (first + gamma)

abbrev both : Threads ℕ
both = record { world = 12345; running = next_u64_accesses ∷ next_u64_accesses ∷ []; outputs = [] }

abbrev one_fetched : Threads ℕ
one_fetched = record both { world = first; running = next_u64_accesses ∷ done (mix first) ∷ [] }

abbrev both_fetched : Threads ℕ
both_fetched = record both { world = second; running = done (mix second) ∷ done (mix first) ∷ [] }

abbrev one_left : Threads ℕ
one_left = record both_fetched { running = done (mix first) ∷ []; outputs = mix second ∷ [] }

abbrev none_left : Threads ℕ
none_left = record { world = second; running = []; outputs = mix first ∷ mix second ∷ [] }

all_started : Reaches generator idle both
all_started = move (move stay (start idle)) (start _)

all_fetched : Reaches generator idle both_fetched
all_fetched =
    move (move all_started (access both (next_u64_accesses ∷ []) next_u64_accesses [] refl))
      (access one_fetched [] next_u64_accesses (done (mix first) ∷ []) refl)

overtaken : Reaches generator idle none_left
overtaken =
    move (move all_fetched (finish both_fetched [] (mix second) (done (mix first) ∷ []) refl))
      (finish one_left [] (mix first) [] refl)

interleaved-perm_example :
    (k : ℕ) × (second ≡ after_draws generator k 12345)
    × Perm (mix first ∷ mix second ∷ []) (drawn generator k 12345)
interleaved-perm_example = interleaved-perm generator 12345 none_left overtaken refl
