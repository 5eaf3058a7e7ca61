-- ===== src/Prelude/Map.antt =====
-- std::map and std::unordered_map as association lists. An insertion keeps the order of the keys,
-- so a traversal of the list is the traversal of an ordered map.
use mathlib.Core.Path.{◌≡◌, refl}
use mathlib.Core.Option.{Option, none, some}
use mathlib.Core.List.{List, [], ◌∷◌}
use native.Mathlib.Omega.{arith}
use mathlib.Core.Logic.{inl, inr}
use re_wizard.Prelude.Tests.{if◌then◌else◌, Option-cases}
use re_wizard.Prelude.Keys.{Key}

abbrev pub Map {ℓ κ} : Type ℓ → Type κ → Type (ℓ ⊔ κ)
Map K V = List (K × V)

module _ {ℓ κ} {K : Type ℓ} {V : Type κ} ⦃e : Key K⦄ where
  -- m.find(k)
  unfoldable pub find : K → Map K V → Option V
  find k [] = none
  find k ((j, v) ∷ m) = if e.beq j k then some v else find k m

  -- A new key goes before the first key that the order puts behind it.
  unfoldable pub place : K → V → Map K V → Map K V
  place k v [] = (k, v) ∷ []
  place k v ((j, w) ∷ m) = if e.before k j then (k, v) ∷ (j, w) ∷ m else (j, w) ∷ place k v m

  unfoldable pub replace : K → V → Map K V → Map K V
  replace k v [] = []
  replace k v ((j, w) ∷ m) = if e.beq j k then (k, v) ∷ m else (j, w) ∷ replace k v m

  -- m[k] = v
  unfoldable pub insert : K → V → Map K V → Map K V
  unfolding find place replace
  insert k v m = elim (find k m) [ none ↦ place k v m | some w ↦ replace k v m ]

  -- m.erase(k)
  unfoldable pub erase : K → Map K V → Map K V
  erase k [] = []
  erase k ((j, w) ∷ m) = if e.beq j k then erase k m else (j, w) ∷ erase k m

  -- m.emplace(k, v), which keeps an entry that is there.
  unfoldable pub emplace : K → V → Map K V → Map K V
  emplace k v m = elim (find k m) [ none ↦ insert k v m | some w ↦ m ]

  find-place :
      (k j : K) (v : V) (m : Map K V)
      → find k m ≡ none
      → find j (place k v m) ≡ (if e.beq k j then some v else find j m)
  unfolding find place
  find-place k j v [] h = refl
  find-place k j v ((i, w) ∷ m) h =
      ground (arith, e.beq_iff k j, e.beq_iff i k, e.beq_iff i j, find-place k j v m)

  find-replace :
      (k j : K) (v w : V) (m : Map K V)
      → find k m ≡ some w
      → find j (replace k v m) ≡ (if e.beq k j then some v else find j m)
  unfolding find replace
  find-replace k j v w [] h = absurd (cc)
  find-replace k j v w ((i, u) ∷ m) h =
      ground (arith, e.beq_iff k j, e.beq_iff i k, e.beq_iff i j, find-replace k j v w m)

  pub find-insert :
      (k j : K) (v : V) (m : Map K V)
      → find j (insert k v m) ≡ (if e.beq k j then some v else find j m)
  unfolding insert
  find-insert k j v m = elim (Option-cases (find k m)) [
    | inl absent ↦ rw (absent, insert) (find-place k j v m absent)
    | inr (w, here) ↦ rw (here, insert) (find-replace k j v w m here)
  ]

  pub find-erase :
      (k j : K) (m : Map K V) → find j (erase k m) ≡ (if e.beq k j then none else find j m)
  unfolding find erase
  find-erase k j [] = ground arith
  find-erase k j ((i, w) ∷ m) =
      ground (arith, e.beq_iff k j, e.beq_iff i k, e.beq_iff i j, find-erase k j m)

  -- No key stands twice.
  abbrev pub Distinct : Map K V → Type κ
  Distinct [] = Unit
  Distinct ((j, w) ∷ m) = (find j m ≡ none) × Distinct m

  Distinct-place :
      (k : K) (v : V) (m : Map K V) → find k m ≡ none → Distinct m → Distinct (place k v m)
  unfolding find place
  Distinct-place k v [] h d = (refl, tt)
  Distinct-place k v ((i, w) ∷ m) h d =
      ground (arith, e.beq_iff i k, e.beq_iff k i, find-place k i v m, Distinct-place k v m)

  Distinct-replace :
      (k : K) (v w : V) (m : Map K V) → find k m ≡ some w → Distinct m → Distinct (replace k v m)
  unfolding find replace
  Distinct-replace k v w [] h d = d
  Distinct-replace k v w ((i, u) ∷ m) h d =
      ground (arith, e.beq_iff i k, e.beq_iff k i, find-replace k i v w m, Distinct-replace k v w m)

  pub Distinct-insert : (k : K) (v : V) (m : Map K V) → Distinct m → Distinct (insert k v m)
  unfolding insert
  Distinct-insert k v m d = elim (Option-cases (find k m)) [
    | inl absent ↦ rw (absent, insert) (Distinct-place k v m absent d)
    | inr (w, here) ↦ rw (here, insert) (Distinct-replace k v w m here d)
  ]

  pub Distinct-erase : (k : K) (m : Map K V) → Distinct m → Distinct (erase k m)
  unfolding erase
  Distinct-erase k [] d = d
  Distinct-erase k ((i, w) ∷ m) d = ground (arith, find-erase k i m, Distinct-erase k m d.1)

  -- Entry by entry into another map: m'[k] = v for each entry of m.
  unfoldable pub insert_all : Map K V → Map K V → Map K V
  insert_all [] m = m
  insert_all ((k, v) ∷ es) m = insert_all es (insert k v m)

  pub find-insert_all :
      (j : K) (es m : Map K V)
      → Distinct es
      → find j (insert_all es m) ≡ elim (find j es) [ none ↦ find j m | some v ↦ some v ]
  unfolding insert_all find
  find-insert_all j [] m d = refl
  find-insert_all j ((k, v) ∷ es) m d =
      ground (arith, e.beq_iff k j, find-insert k j v m, find-insert_all j es (insert k v m) d.1)
