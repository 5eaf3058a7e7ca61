-- ===== src/Prelude/Count.antt =====
-- How many addresses of a range a set leaves out, and how far a set grows.
use mathlib.Core.Path.{◌≡◌, refl, subst}
use mathlib.Core.Logic.{inl, inr}
use mathlib.Core.Bool.{true, false}
use mathlib.Core.List.{[], ◌∷◌}
use native.Mathlib.Omega.{arith}
use Prim.Native.Nat.{ℕ, zero, suc, ◌+◌, ◌≤◌, ◌<◌}
use re_wizard.Prelude.Tests.{if◌then◌else◌, ◌==◌, ==_iff, Bool-cases}
use re_wizard.Prelude.Lists.{length}
use re_wizard.Prelude.Keys.{Key, nat_key}
use re_wizard.Prelude.Set
use re_wizard.Prelude.Set.{Set, contains, contains-insert, insert, place, erase}

-- The addresses among the first `n` from `base` that are not in the set.
pub unseen : ℕ → ℕ → Set ℕ → ℕ
unseen base zero v = 0
unseen base (suc n) v = (if contains (base + n) v then 0 else 1) + unseen base n v

contains-insert_nat :
    (x i : ℕ) (v : Set ℕ) → contains i (Set.insert x v) ≡ (if x == i then true else contains i v)
contains-insert_nat x i v = contains-insert x i v

unseen-insert_ge :
    (base n x : ℕ) (v : Set ℕ) → base + n ≤ x → unseen base n (Set.insert x v) ≡ unseen base n v
unfolding unseen
unseen-insert_ge base zero x v h = refl
unseen-insert_ge base (suc n) x v h =
    ground (arith, contains-insert_nat x (base + n) v, unseen-insert_ge base n x v (omega arith))

-- A new address of the range.
pub unseen-insert :
    (base n x : ℕ) (v : Set ℕ)
    → contains x v ≡ false
    → base ≤ x
    → x < base + n
    → suc (unseen base n (Set.insert x v)) ≡ unseen base n v
unfolding unseen
unseen-insert base zero x v new low h = absurd (omega arith)
unseen-insert base (suc n) x v new low h = elim (Bool-cases (x == base + n)) [
  | inl same ↦
      let e : x ≡ base + n = (==_iff x (base + n)).0 same in
      let old : contains (base + n) v ≡ false = subst (λ k. contains k v ≡ false) e new in
      ground (
        arith,
        old,
        contains-insert_nat x (base + n) v,
        unseen-insert_ge base n x v (omega (arith, e)),
      )
  | inr other ↦
      let lower : x < base + n = ground arith in
      ground (arith, contains-insert_nat x (base + n) v, unseen-insert base n x v new low lower)
]

pub unseen-none : (base n : ℕ) → unseen base n [] ≡ n
unfolding unseen contains
unseen-none base zero = refl
unseen-none base (suc n) = omega (arith, unseen-none base n)

pub unseen-bound : (base n : ℕ) (v : Set ℕ) → unseen base n v ≤ n
unfolding unseen
unseen-bound base zero v = omega arith
unseen-bound base (suc n) v = ground (arith, unseen-bound base n v)

module _ {ℓ} {K : Type ℓ} ⦃e : Key K⦄ where
  length-place : (k : K) (s : Set K) → length (place k s) ≡ suc (length s)
  unfolding place
  length-place k [] = refl
  length-place k (j ∷ s) = ground (arith, length-place k s)

  pub length-insert : (k : K) (s : Set K) → length (insert k s) ≤ suc (length s)
  unfolding insert
  length-insert k s = ground (arith, length-place k s)

  pub length-erase : (k : K) (s : Set K) → length (erase k s) ≤ length s
  unfolding erase
  length-erase k [] = omega arith
  length-erase k (j ∷ s) = ground (arith, length-erase k s)
