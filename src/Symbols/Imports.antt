-- ===== src/Symbols/Imports.antt =====
-- ReWizardLib/source/Analysis/Passes/ImportAnalysisPass.cpp: the pass that fills the symbol table
-- from a PE image. What the PE parser (LIEF) delivers is taken as lists of its entries, and the
-- context, its loader and its module are taken to be there.
pub mod Filled
use Prim.Native.String
use re_wizard.Prelude.{
  ℕ, String, Bool, true, false, Option, none, some, List, [], ◌&&◌, ◌∷◌, ◌++◌, if◌then◌else◌,
  string_key,
}
use re_wizard.Prelude.Word.{add_word}
use re_wizard.Symbols.Table.{
  ImportedSymbol, ExportedSymbol, RelocationEntry, SymbolTable, empty, add_import, add_export,
  add_relocation, clear,
}

pub record ImportEntry : Type 0 where
  pub name : String
  pub iat_address : ℕ
  pub is_ordinal : Bool
  pub ordinal : ℕ

pub record Import : Type 0 where
  pub name : String
  pub entries : List ImportEntry

pub record ExportEntry : Type 0 where
  pub name : String
  pub address : ℕ
  pub ordinal : ℕ

-- A block of relocations: its page, and the position and type of each entry.
pub record Relocation : Type 0 where
  pub virtual_address : ℕ
  pub entries : List (ℕ × ℕ)

pub record Pe : Type 0 where
  pub imports : List Import
  pub export_table : Option (List ExportEntry)
  pub relocations : List Relocation

abbrev pub is_empty_string : String → Bool
is_empty_string String.[] = true
is_empty_string (String.◌∷◌ c s) = false

-- The formatting of an ordinal (std::to_string) is a parameter: no theorem reads the digits.
module _ (to_string : ℕ → String) where
  unfoldable pub import_name : String → ImportEntry → String
  import_name dll entry =
      if entry.is_ordinal && is_empty_string entry.name
      then String.◌++◌ dll (String.◌++◌ "!Ordinal_" (to_string entry.ordinal))
      else entry.name

  unfoldable pub import_of : ℕ → String → ImportEntry → ImportedSymbol
  unfolding import_name
  import_of image_base dll entry = record {
    name = import_name dll entry;
    dll = dll;
    address = add_word image_base entry.iat_address;
    iat_entry = add_word image_base entry.iat_address;
  }

  unfoldable pub export_of : ℕ → ExportEntry → ExportedSymbol
  export_of image_base exp = record {
    name = exp.name;
    address = add_word image_base exp.address;
    ordinal = exp.ordinal;
  }

  unfoldable pub relocation_of : ℕ → ℕ → ℕ × ℕ → RelocationEntry
  relocation_of image_base page entry = record {
    address = add_word (add_word image_base page) entry.0;
    type = entry.1;
  }

  -- The loops over the entries of the PE image.
  unfoldable pub add_entries : ℕ → String → List ImportEntry → SymbolTable → SymbolTable
  unfolding import_of add_import
  add_entries image_base dll [] t = t
  add_entries image_base dll (entry ∷ entries) t =
      add_entries image_base dll entries (add_import (import_of image_base dll entry) t)

  unfoldable pub add_imports : ℕ → List Import → SymbolTable → SymbolTable
  unfolding add_entries
  add_imports image_base [] t = t
  add_imports image_base (imp ∷ imps) t =
      add_imports image_base imps (add_entries image_base imp.name imp.entries t)

  unfoldable pub add_exports : ℕ → List ExportEntry → SymbolTable → SymbolTable
  unfolding export_of add_export
  add_exports image_base [] t = t
  add_exports image_base (exp ∷ exps) t =
      add_exports image_base exps (add_export (export_of image_base exp) t)

  unfoldable pub add_block : ℕ → ℕ → List (ℕ × ℕ) → SymbolTable → SymbolTable
  unfolding relocation_of add_relocation
  add_block image_base page [] t = t
  add_block image_base page (entry ∷ entries) t =
      add_block image_base page entries (add_relocation (relocation_of image_base page entry) t)

  unfoldable pub add_relocations : ℕ → List Relocation → SymbolTable → SymbolTable
  unfolding add_block
  add_relocations image_base [] t = t
  add_relocations image_base (reloc ∷ relocs) t =
      add_relocations image_base relocs (add_block image_base reloc.virtual_address reloc.entries t)

  -- ImportAnalysisPass::Run. No PE image: nothing happens, and the pass succeeds.
  unfoldable pub analyze_imports : Option Pe → ℕ → SymbolTable → SymbolTable × Bool
  unfolding clear add_imports add_exports add_relocations
  analyze_imports none image_base t = (t, true)
  analyze_imports (some pe) image_base t =
      let t1 = add_imports image_base pe.imports (clear t) in
      let t2 : SymbolTable = elim pe.export_table [
        | none ↦ t1
        | some exps ↦ add_exports image_base exps t1
      ] in
      (add_relocations image_base pe.relocations t2, true)
