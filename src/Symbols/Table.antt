-- ===== src/Symbols/Table.antt =====
-- ReWizardLib/source/Analysis/Units/SymbolTable.cpp and include/ReWizard/Analysis/Units/SymbolTable.h.
-- A pointer into a vector is modelled by the element; a read out of the vector's bounds, which the
-- code never checks for, is `none` too.
use re_wizard.Prelude.{
  ℕ, String, sym, Option, none, some, List, [], length, get_elem?, ◌∷◌, ◌++◌, nat_key, string_key,
}
use re_wizard.Prelude.Map
use re_wizard.Prelude.Map.{Map}

pub record ImportedSymbol : Type 0 where
  pub name : String
  pub dll : String
  pub address : ℕ
  pub iat_entry : ℕ

pub record ExportedSymbol : Type 0 where
  pub name : String
  pub address : ℕ
  pub ordinal : ℕ

pub record RelocationEntry : Type 0 where
  pub address : ℕ
  pub type : ℕ

pub record SymbolTable : Type 0 where
  pub imports : List ImportedSymbol
  pub exports : List ExportedSymbol
  pub relocations : List RelocationEntry
  pub import_by_addr : Map ℕ ℕ
  pub import_by_name : Map String ℕ
  pub export_by_addr : Map ℕ ℕ
  pub export_by_name : Map String ℕ

abbrev pub empty : SymbolTable
empty = record {
  imports = [];
  exports = [];
  relocations = [];
  import_by_addr = [];
  import_by_name = [];
  export_by_addr = [];
  export_by_name = [];
}

unfoldable pub add_import : ImportedSymbol → SymbolTable → SymbolTable
add_import sym t =
    let idx = length t.imports in
    record t {
      imports = t.imports ++ sym ∷ [];
      import_by_addr = Map.insert sym.address idx t.import_by_addr;
      import_by_name = Map.insert sym.name idx t.import_by_name;
    }

unfoldable pub add_export : ExportedSymbol → SymbolTable → SymbolTable
add_export sym t =
    let idx = length t.exports in
    record t {
      exports = t.exports ++ sym ∷ [];
      export_by_addr = Map.insert sym.address idx t.export_by_addr;
      export_by_name = Map.insert sym.name idx t.export_by_name;
    }

unfoldable pub add_relocation : RelocationEntry → SymbolTable → SymbolTable
add_relocation reloc t = record t { relocations = t.relocations ++ reloc ∷ [] }

-- &symbols[it->second] behind a successful find, and nullptr otherwise.
unfoldable pub at_index : {A : Type 0} → List A → Option ℕ → Option A
at_index xs none = none
at_index xs (some i) = get_elem? xs i

unfoldable pub get_import_by_address : SymbolTable → ℕ → Option ImportedSymbol
unfolding at_index
get_import_by_address t address = at_index t.imports (Map.find address t.import_by_addr)

unfoldable pub get_import_by_name : SymbolTable → String → Option ImportedSymbol
unfolding at_index
get_import_by_name t name = at_index t.imports (Map.find name t.import_by_name)

unfoldable pub get_export_by_address : SymbolTable → ℕ → Option ExportedSymbol
unfolding at_index
get_export_by_address t address = at_index t.exports (Map.find address t.export_by_addr)

unfoldable pub get_export_by_name : SymbolTable → String → Option ExportedSymbol
unfolding at_index
get_export_by_name t name = at_index t.exports (Map.find name t.export_by_name)

unfoldable pub clear : SymbolTable → SymbolTable
clear t = empty
