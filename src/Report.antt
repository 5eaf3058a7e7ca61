-- ===== src/Report.antt =====
-- ReWizardLib/source/Analysis/AnalysisResult.cpp: the result of an analysis as a JSON value. The
-- printing of a JSON value (ToJson) and the printed disassembly are parameters of third-party code:
-- ToJson is not modelled, and the lines of a function are given.
pub mod Values
pub mod Export
pub mod Printed
pub mod Digits
use re_wizard.Prelude.{
  ℕ, String, Option, none, some, List, [], map, ◌∷◌, ◌++◌, nat_key, pair_key, string_key,
}
use re_wizard.Report.Values.{Json, null, boolean, number, string, list, dict}
use re_wizard.Prelude.Map
use re_wizard.Prelude.Map.{Map}
use re_wizard.Prelude.Set.{Set}
use re_wizard.Symbols.Table.{ImportedSymbol, ExportedSymbol, RelocationEntry, SymbolTable}
use re_wizard.Units.BasicBlock.{Name, plain, BasicBlock}
use re_wizard.Units.Function.{Function}
use re_wizard.Units.Module.{Module}

-- What the result reads of an AnalysisContext.
pub record Context : Type 0 where
  pub name : String
  -- CurrentImageBase and MappedSize, where there is a loader.
  pub loader : Option (ℕ × ℕ)
  pub in_module : Option Module
  pub visited : Set ℕ

unfoldable pub numbers : List ℕ → Json
numbers ns = list (map number ns)

unfoldable pub call_site : ℕ × ℕ → Json
call_site site = dict (("source", number site.0) ∷ ("destination", number site.1) ∷ [])

unfoldable pub serialize_basic_block : BasicBlock → Json
serialize_basic_block bb = dict (
    ("start", number bb.start)
    ∷ ("end", number bb.end)
    ∷ ("last_insn_addr", number bb.last_insn_addr)
    ∷ ("contains_indirect_calls", boolean bb.contains_indirect_calls)
    ∷ ("contains_indirect_jumps", boolean bb.contains_indirect_jumps)
    ∷ ("successors", numbers bb.successors)
    ∷ ("predecessors", numbers bb.predecessors)
    ∷ [])

unfoldable pub serialize_function : (Function → List String) → Function → Json
unfolding serialize_basic_block
serialize_function disassembly fn = dict (
    ("name", string fn.name)
    ∷ ("start", number fn.start)
    ∷ ("end", number fn.end)
    ∷ ("is_trampoline", boolean fn.is_trampoline)
    ∷ ("marked_for_hybrid", boolean fn.marked_for_hybrid_analysis)
    ∷ ("hybrid_verified", boolean fn.hybrid_verified)
    ∷ ("contains_indirect_calls", boolean fn.contains_indirect_calls)
    ∷ ("contains_indirect_jumps", boolean fn.contains_indirect_jumps)
    ∷ ("has_opaque_predicates", boolean fn.has_opaque_predicates)
    ∷ ("opaque_predicate_addresses", numbers fn.opaque_predicate_addresses)
    ∷ ("call_sites", list (map call_site fn.call_sites))
    ∷ ("basic_blocks", list (map serialize_basic_block fn.blocks))
    ∷ ("disassembly", list (map (λ line. string (plain line)) (disassembly fn)))
    ∷ [])

unfoldable pub serialize_import : ImportedSymbol → Json
serialize_import imp = dict (
    ("name", string (plain imp.name))
    ∷ ("dll", string (plain imp.dll))
    ∷ ("address", number imp.address)
    ∷ ("iat_entry", number imp.iat_entry)
    ∷ [])

unfoldable pub serialize_export : ExportedSymbol → Json
serialize_export exp = dict (
    ("name", string (plain exp.name))
    ∷ ("address", number exp.address)
    ∷ ("ordinal", number exp.ordinal)
    ∷ [])

unfoldable pub serialize_relocation : RelocationEntry → Json
serialize_relocation reloc =
    dict (("address", number reloc.address) ∷ ("type", number reloc.type) ∷ [])

unfoldable pub serialize_symbols : SymbolTable → Json
unfolding serialize_import serialize_export serialize_relocation
serialize_symbols table = dict (
    ("imports", list (map serialize_import table.imports))
    ∷ ("exports", list (map serialize_export table.exports))
    ∷ ("relocations", list (map serialize_relocation table.relocations))
    ∷ [])

abbrev pub functions_of : Context → List Function
functions_of context = elim context.in_module [ none ↦ [] | some m ↦ m.functions ]

abbrev pub symbols_of : Context → Json
symbols_of context = elim context.in_module [
  | none ↦ null
  | some m ↦ serialize_symbols m.symbol_table
]

abbrev pub image_of : Context → List (String × Json)
image_of context = elim context.loader [
  | none ↦ []
  | some (base, size) ↦ ("image_base", number base) ∷ ("image_size", number size) ∷ []
]

-- FromContext with BuildFromContext; the root of a result without a context is null.
unfoldable pub from_context : (Function → List String) → Option Context → Json
from_context disassembly none = null
from_context disassembly (some context) = dict (
    ("target", string (plain context.name))
    ∷ (image_of context
        ++ ("functions", list (map (serialize_function disassembly) (functions_of context)))
          ∷ ("symbols", symbols_of context)
          ∷ ("visited_addresses", numbers context.visited)
          ∷ []))
