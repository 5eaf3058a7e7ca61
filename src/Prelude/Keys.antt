-- ===== src/Prelude/Keys.antt =====
-- Keys of the containers: a Boolean equality with its law, and the order in which the ordered
-- containers of the source (std::map, std::set) are traversed.
use Prim.Native.Nat.{ℕ}
use Prim.Native.String.{String}
use mathlib.Core.Path.{◌≡◌, refl}
use mathlib.Core.Logic.{◌↔◌}
use mathlib.Core.Bool.{Bool, true, false, ◌&&◌, ◌||◌}
use native.Mathlib.Omega.{arith}
use text.Mathlib.Text.{◌==◌ as str_eq}
use text.Mathlib.TextEquality.{eq_iff}
use re_wizard.Prelude.Tests.{◌==◌, ==_iff, ltb}

pub record Key {ℓ} (K : Type ℓ) : Type ℓ where
  pub beq : K → K → Bool
  pub beq_iff : (a b : K) → (beq a b ≡ true) ↔ (a ≡ b)
  -- `before a b` where the ordered containers visit `a` first.
  pub before : K → K → Bool

nat_beq : ℕ → ℕ → Bool
nat_beq a b = a == b

instance abbrev pub nat_key : Key ℕ
nat_key = record { beq = ◌==◌; beq_iff = ==_iff; before = ltb }

-- A table keyed by a text keeps the order of insertion: no traversal of one is modelled.
instance abbrev pub string_key : Key String
string_key = record { beq = str_eq; beq_iff = eq_iff; before = λ a b. false }

-- std::pair of addresses, compared by its first part and then by its second.
abbrev pub pair_beq : ℕ × ℕ → ℕ × ℕ → Bool
pair_beq a b = a.0 == b.0 && a.1 == b.1

abbrev pub pair_before : ℕ × ℕ → ℕ × ℕ → Bool
pair_before a b = ltb a.0 b.0 || (a.0 == b.0 && ltb a.1 b.1)

pub pair_beq_iff : (a b : ℕ × ℕ) → (pair_beq a b ≡ true) ↔ (a ≡ b)
pair_beq_iff a b = ground arith

instance abbrev pub pair_key : Key (ℕ × ℕ)
pair_key = record { beq = pair_beq; beq_iff = pair_beq_iff; before = pair_before }

module _ {ℓ} {K : Type ℓ} ⦃e : Key K⦄ where
  pub beq_self : (a : K) → e.beq a a ≡ true
  beq_self a = (e.beq_iff a a).1 refl
