-- ===== src/Xrefs.antt =====
-- The cross-reference table of a module: ReWizardLib/source/Analysis/Units/XrefManager.cpp and
-- include/ReWizard/Analysis/Units/XrefManager.h. The two multimaps are lists of entries; the order
-- of the entries of one key is the container's choice, and no theorem reads it.
pub mod Entries
pub mod Consistent
pub mod Queries
use text.Mathlib.Text.{◌==◌ as str_eq}
use text.Mathlib.TextEquality.{eq_iff}
use re_wizard.Prelude.{
  ℕ, ◌==◌, ◌≡◌, ◌↔◌, Bool, true, false, not, ◌&&◌, List, [], ◌∷◌, ◌++◌, map, String, Key,
  if◌then◌else◌, any, keep, length, is_empty, arith,
}
use re_wizard.Prelude.Set.{Set, contains}
use re_wizard.Prelude.Set

pub record Xref : Type 0 where
  pub from : ℕ
  pub to : ℕ
  pub type : String

-- Xref::operator==
abbrev pub xref_beq : Xref → Xref → Bool
xref_beq a b = a.from == b.from && a.to == b.to && str_eq a.type b.type

pub xref_beq_iff : (a b : Xref) → (xref_beq a b ≡ true) ↔ (a ≡ b)
xref_beq_iff a b = ground (arith, eq_iff a.type b.type)

instance abbrev pub xref_key : Key Xref
xref_key = record { beq = xref_beq; beq_iff = xref_beq_iff; before = λ a b. false }

-- An entry of one of the multimaps: the key with the reference.
abbrev pub Entry : Type 0
Entry = ℕ × Xref

pub record XrefManager : Type 0 where
  pub by_from : List Entry
  pub by_to : List Entry
  pub all : Set Xref

abbrev pub empty : XrefManager
empty = record { by_from = []; by_to = []; all = [] }

-- The loop over equal_range that erases one matching entry and stops.
unfoldable pub erase_one : (Entry → Bool) → List Entry → List Entry
erase_one p [] = []
erase_one p (e ∷ es) = if p e then es else e ∷ erase_one p es

unfoldable pub add_xref : ℕ → ℕ → String → XrefManager → XrefManager
add_xref from to type m =
    let x : Xref = record { from = from; to = to; type = type } in
    if contains x m.all then m else record {
      by_from = m.by_from ++ (from, x) ∷ [];
      by_to = m.by_to ++ (to, x) ∷ [];
      all = Set.insert x m.all;
    }

unfoldable pub remove_xref : ℕ → ℕ → String → XrefManager → XrefManager
remove_xref from to type m =
    let x : Xref = record { from = from; to = to; type = type } in
    if not (contains x m.all) then m else record {
      by_from = erase_one (λ e. e.0 == from && (e.1.to == to && str_eq e.1.type type)) m.by_from;
      by_to = erase_one (λ e. e.0 == to && (e.1.from == from && str_eq e.1.type type)) m.by_to;
      all = Set.erase x m.all;
    }

unfoldable pub clear : XrefManager → XrefManager
clear m = empty

-- The references behind equal_range(address), in a multimap.
unfoldable pub range : ℕ → List Entry → List Xref
range address es = map (λ e. e.1) (keep (λ e. e.0 == address) es)

-- Those of them of one type.
unfoldable pub range_of_type : String → ℕ → List Entry → List Xref
range_of_type type address es = keep (λ x. str_eq x.type type) (range address es)

unfoldable pub get_xrefs_to : XrefManager → ℕ → List Xref
get_xrefs_to m address = range address m.by_to

unfoldable pub get_xrefs_from : XrefManager → ℕ → List Xref
get_xrefs_from m address = range address m.by_from

unfoldable pub get_calls_to : XrefManager → ℕ → List Xref
get_calls_to m address = range_of_type "call" address m.by_to

unfoldable pub get_calls_from : XrefManager → ℕ → List Xref
get_calls_from m address = range_of_type "call" address m.by_from

unfoldable pub get_jumps_to : XrefManager → ℕ → List Xref
get_jumps_to m address = range_of_type "jump" address m.by_to

unfoldable pub get_jumps_from : XrefManager → ℕ → List Xref
get_jumps_from m address = range_of_type "jump" address m.by_from

unfoldable pub get_data_refs_to : XrefManager → ℕ → List Xref
get_data_refs_to m address = range_of_type "data" address m.by_to

unfoldable pub get_xref_count_to : XrefManager → ℕ → ℕ
get_xref_count_to m address = length (keep (λ e. e.0 == address) m.by_to)

unfoldable pub get_xref_count_from : XrefManager → ℕ → ℕ
get_xref_count_from m address = length (keep (λ e. e.0 == address) m.by_from)

unfoldable pub has_xrefs_to : XrefManager → ℕ → Bool
has_xrefs_to m address = any (λ e. e.0 == address) m.by_to

unfoldable pub has_xrefs_from : XrefManager → ℕ → Bool
has_xrefs_from m address = any (λ e. e.0 == address) m.by_from
