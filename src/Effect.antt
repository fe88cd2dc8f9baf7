-- ===== src/Effect.antt =====
-- Effects. The closures, cells and clocks that a retry reads and writes live in one world, which
-- every call is handed and hands back: `&self` with interior mutability and `FnMut` alike.
use relentless.Prelude.{◌≡◌}

abbrev pub Eff {ℓ κ} : Type ℓ → Type κ → Type (ℓ ⊔ κ)
Eff World A = World → A × World

infixl 5 ◌>>=◌ ◌>>◌
abbrev pub ◌>>=◌ {ℓ κ ι} :
    {World : Type ℓ} {A : Type κ} {B : Type ι} → Eff World A → (A → Eff World B) → Eff World B
◌>>=◌ m f w = let (a, w') = m w in f a w'

abbrev pub ◌>>◌ {ℓ κ} :
    {World : Type ℓ} {B : Type κ} → Eff World (Unit {0}) → Eff World B → Eff World B
m >> k = m >>= λ _. k

abbrev pub pure {ℓ κ} : {World : Type ℓ} {A : Type κ} → A → Eff World A
pure a w = (a, w)

-- A mutable cell of the world.
pub record Cell {ℓ κ} (World : Type ℓ) (A : Type κ) : Type (ℓ ⊔ κ) where
  pub get : World → A
  pub set : A → World → World
  pub get-set : (a : A) (w : World) → get (set a w) ≡ a
