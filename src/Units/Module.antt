-- ===== src/Units/Module.antt =====
-- ReWizardLib/source/Analysis/Units/Module.cpp and include/ReWizard/Analysis/Units/Module.h: the
-- functions of a module in the order in which they were added, their index by start address, and
-- the decoded instructions.
pub mod Index
use re_wizard.Prelude.{
  ℕ, Option, none, some, List, [], ltb, leb, length, get_elem?, ◌&&◌, ◌∷◌, ◌++◌, if◌then◌else◌,
  nat_key, string_key,
}
use re_wizard.Prelude.Map
use re_wizard.Prelude.Map.{Map}
use re_wizard.Insn.{Instruction}
use re_wizard.Symbols.Table.{SymbolTable}
use re_wizard.Xrefs.{XrefManager}
use re_wizard.Units.Function.{Function}

-- A function is known by its place in `functions`.
pub record Module : Type 0 where
  pub instructions : Map ℕ Instruction
  pub functions : List Function
  pub function_by_start : Map ℕ ℕ
  pub symbol_table : SymbolTable
  pub xref_manager : XrefManager

unfoldable pub add_function : Function → Module → Module
add_function f m = record m {
  functions = m.functions ++ f ∷ [];
  function_by_start = Map.insert f.start (length m.functions) m.function_by_start;
}

-- The entry before upper_bound(address): the last one whose key is not above the address.
unfoldable pub last_not_above : ℕ → Map ℕ ℕ → Option ℕ
last_not_above address [] = none
last_not_above address ((start, i) ∷ m) =
    if ltb address start
    then none
    else elim (last_not_above address m) [ none ↦ some i | some j ↦ some j ]

unfoldable pub get_function_for_address : Module → ℕ → Option ℕ
unfolding last_not_above
get_function_for_address m address = elim (last_not_above address m.function_by_start) [
  | none ↦ none
  | some i ↦ elim (get_elem? m.functions i) [
    | none ↦ none
    | some f ↦ if leb f.start address && ltb address f.end then some i else none
  ]
]

unfoldable pub get_instruction : Module → ℕ → Option Instruction
get_instruction m address = Map.find address m.instructions

-- The first instruction decoded at an address stays.
unfoldable pub add_instruction : Instruction → Module → Module
add_instruction insn m = record m { instructions = Map.emplace insn.address insn m.instructions }
