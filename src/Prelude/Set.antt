-- ===== src/Prelude/Set.antt =====
-- std::set and std::unordered_set as lists without repetition, in the order of the keys.
use mathlib.Core.Path.{◌≡◌, refl, sym, ap}
use mathlib.Core.Bool.{Bool, true, false}
use mathlib.Core.List.{List, [], ◌∷◌}
use native.Mathlib.Omega.{arith}
use mathlib.Core.Logic.{◌↔◌}
use re_wizard.Prelude.Lists.{In}
use re_wizard.Prelude.Tests.{if◌then◌else◌}
use re_wizard.Prelude.Keys.{Key}

abbrev pub Set {ℓ} : Type ℓ → Type ℓ
Set K = List K

module _ {ℓ} {K : Type ℓ} ⦃e : Key K⦄ where
  -- s.contains(k)
  unfoldable pub contains : K → Set K → Bool
  contains k [] = false
  contains k (j ∷ s) = if e.beq j k then true else contains k s

  -- A new key goes before the first key that the order puts behind it.
  unfoldable pub place : K → Set K → Set K
  place k [] = k ∷ []
  place k (j ∷ s) = if e.before k j then k ∷ j ∷ s else j ∷ place k s

  -- s.insert(k)
  unfoldable pub insert : K → Set K → Set K
  unfolding contains place
  insert k s = if contains k s then s else place k s

  -- s.erase(k)
  unfoldable pub erase : K → Set K → Set K
  erase k [] = []
  erase k (j ∷ s) = if e.beq j k then erase k s else j ∷ erase k s

  contains-place :
      (k j : K) (s : Set K) → contains j (place k s) ≡ (if e.beq k j then true else contains j s)
  unfolding contains place
  contains-place k j [] = refl
  contains-place k j (i ∷ s) = ground (arith, e.beq_iff k j, e.beq_iff i j, contains-place k j s)

  contains_of_beq : (k j : K) (s : Set K) → e.beq k j ≡ true → contains j s ≡ contains k s
  contains_of_beq k j s h = ap (λ x. contains x s) (sym ((e.beq_iff k j).0 h))

  pub contains-insert :
      (k j : K) (s : Set K) → contains j (insert k s) ≡ (if e.beq k j then true else contains j s)
  unfolding insert
  contains-insert k j s = ground (arith, contains-place k j s, contains_of_beq k j s)

  pub contains-erase :
      (k j : K) (s : Set K) → contains j (erase k s) ≡ (if e.beq k j then false else contains j s)
  unfolding contains erase
  contains-erase k j [] = ground arith
  contains-erase k j (i ∷ s) =
      ground (arith, e.beq_iff k j, e.beq_iff i k, e.beq_iff i j, contains-erase k j s)

  pub contains_iff : (k : K) (s : Set K) → (contains k s ≡ true) ↔ In k s
  unfolding contains
  contains_iff k [] = (λ h. absurd (cc), λ h. absurd h.0)
  contains_iff k (j ∷ s) = ground (arith, e.beq_iff j k, contains_iff k s)
