-- ===== src/Prelude/Options.antt =====
-- Inversion of a successful chain of optional results.
use mathlib.Core.Path.{◌≡◌, refl}
use mathlib.Core.Option
use mathlib.Core.Option.{Option, none, some, some-injective}

module _ {ℓ κ} {A : Type ℓ} {B : Type κ} where
  pub bind-eq-some :
      (m : Option A) (f : A → Option B) {b : B}
      → Option.bind m f ≡ some b
      → (a : A) × (m ≡ some a) × (f a ≡ some b)
  unfolding Option.bind
  bind-eq-some none f h = cc
  bind-eq-some (some a) f h = (a, refl, h)

  pub map-eq-some :
      (f : A → B) (m : Option A) {b : B}
      → Option.map f m ≡ some b
      → (a : A) × (m ≡ some a) × (f a ≡ b)
  map-eq-some f none h = cc
  map-eq-some f (some a) {b} h = (a, refl, some-injective (f a) b h)

-- A chain of optional results, for do blocks.
infixl 5 ◌>>=◌
abbrev pub ◌>>=◌ {ℓ κ} : {A : Type ℓ} {B : Type κ} → Option A → (A → Option B) → Option B
none >>= f = none
some a >>= f = f a
