-- ===== src/Tests/Tables.antt =====
-- The theorems on references, symbols, annotations and traces, at sample tables.
use re_wizard.Prelude.{
  ℕ, String, refl, inl, inr, Bool, true, false, none, some, List, [], arith, Bool-cases, keep, ◌≡◌,
  ◌∷◌, ◌==◌, if◌then◌else◌, nat_key, string_key,
}
use re_wizard.Prelude.Map
use re_wizard.Prelude.Map.{Map, Distinct, find-insert, Distinct-insert}
use re_wizard.Insn.{rax}
use re_wizard.Xrefs
use re_wizard.Xrefs.{
  Xref, xref_key, XrefManager, add_xref, remove_xref, get_xref_count_to, get_xrefs_to,
  get_xref_count_from, get_xrefs_from, has_xrefs_to, has_xrefs_from,
}
use re_wizard.Xrefs.Consistent.{
  IsConsistent, empty-IsConsistent, add_xref-IsConsistent, remove_xref-IsConsistent,
}
use re_wizard.Xrefs.Queries.{QueriesAnswer, queries_answer}
use re_wizard.Symbols.Table.{ImportedSymbol, SymbolTable}
use re_wizard.Symbols.Table
use re_wizard.Symbols.Lookups.{import_symbol, run, FindsLast, run-FindsLast}
use re_wizard.Symbols.Imports.{Pe, analyze_imports}
use re_wizard.Symbols.Imports.Filled.{analyze_imports_lem}
use re_wizard.Symbols.Annotations.{Annotation, SymbolManager, get_annotation}
use re_wizard.Database.{
  Statement, upsert_annotation, Sqlite, c_str, bound, exec_on, save_annotation,
}
use re_wizard.Database.Annotations.{AnnotationTable, save_to, load_from, get_annotation-load_from}
use re_wizard.Trace.{TraceRecord, load, get_records_for_pc}
use re_wizard.Trace.Index.{runs_at, get_records_for_pc-load}

abbrev one_call : XrefManager
one_call = add_xref 16 64 "call" Xrefs.empty

one_call-IsConsistent : IsConsistent one_call
one_call-IsConsistent = add_xref-IsConsistent 16 64 "call" Xrefs.empty empty-IsConsistent

remove_xref-IsConsistent_example : IsConsistent (remove_xref 16 64 "call" one_call)
remove_xref-IsConsistent_example =
    remove_xref-IsConsistent 16 64 "call" one_call one_call-IsConsistent

queries_answer_example : QueriesAnswer one_call 64
queries_answer_example = queries_answer one_call 64 one_call-IsConsistent

abbrev imported : ImportedSymbol
imported = record { name = "ExitProcess"; dll = "kernel32.dll"; address = 4096; iat_entry = 4096 }

run-FindsLast_example :
    FindsLast (imported ∷ []) [] [] (run (import_symbol imported ∷ []) Table.empty)
run-FindsLast_example = run-FindsLast (import_symbol imported ∷ [])

abbrev pe : Pe
pe = record {
  imports =
      record {
        name = "kernel32.dll";
        entries = record { name = ""; iat_address = 64; is_ordinal = true; ordinal = 7 } ∷ [];
      }
      ∷ [];
  export_table = none;
  relocations = [];
}

abbrev digits : ℕ → String
digits n = "7"

abbrev filled : SymbolTable
filled = (analyze_imports digits (some pe) 4096 Table.empty).0

analyze_imports_lem_example :
    FindsLast
      (record {
        name = "kernel32.dll!Ordinal_7";
        dll = "kernel32.dll";
        address = 4160;
        iat_entry = 4160;
      }
        ∷ [])
      []
      []
      filled
analyze_imports_lem_example = (analyze_imports_lem digits pe 4096 Table.empty).1

-- A table of annotations as one annotation for every address.
abbrev no_rows : Map ℕ Annotation
no_rows = []

abbrev RowMap : Type 0
RowMap = (m : Map ℕ Annotation) × Distinct m

-- A row for the address 0 is refused.
abbrev stored_row : Statement → RowMap → RowMap × Bool
stored_row (upsert_annotation address ann) db =
    if address == 0
    then (db, false)
    else ((Map.insert address ann db.0, Distinct-insert address ann db.0 db.1), true)
stored_row s db = (db, true)

abbrev annotation_rows : Sqlite
annotation_rows = record {
  Connection = RowMap;
  exec = stored_row;
  select_functions = λ db. [];
  select_function = λ db a. none;
  select_symbols = λ db a. [];
  select_xrefs_to = λ db a. [];
  select_xrefs_from = λ db a. [];
  select_xrefs = λ db. [];
  select_annotations = λ db. db.0;
}

find-stored_row :
    (address : ℕ) (ann : Annotation) (db : RowMap) (a : ℕ)
    → (stored_row (upsert_annotation address ann) db).1 ≡ true
    → Map.find a (stored_row (upsert_annotation address ann) db).0.0
      ≡ (if address == a then some ann else Map.find a db.0)
find-stored_row address ann db a ok = elim (Bool-cases (address == 0)) [
  | inl zeroth ↦ absurd (ground (arith, zeroth, ok))
  | inr other ↦ rw other (find-insert address a ann db.0)
]

find-refused_row :
    (address : ℕ) (ann : Annotation) (db : RowMap) (a : ℕ)
    → (stored_row (upsert_annotation address ann) db).1 ≡ false
    → Map.find a (stored_row (upsert_annotation address ann) db).0.0 ≡ Map.find a db.0
find-refused_row address ann db a lost = elim (Bool-cases (address == 0)) [
  | inl zeroth ↦ rw zeroth refl
  | inr other ↦ absurd (ground (arith, other, lost))
]

abbrev annotation_laws : AnnotationTable annotation_rows
annotation_laws = record {
  find-upsert = find-stored_row;
  find-refused = find-refused_row;
  rows-Distinct = λ db. db.1;
}

abbrev main_of : String → Annotation
main_of name = record { name = name; comment = ""; type = ""; kind = "function" }

abbrev named : SymbolManager
named = (64, main_of "ma\0in") ∷ []

get_annotation-load_from_example :
    get_annotation
      (load_from annotation_rows (save_to annotation_rows named (some (some ([], tt)))) [])
      64
    ≡ some (main_of "ma")
unfolding get_annotation Map.find save_annotation exec_on bound c_str
get_annotation-load_from_example =
    get_annotation-load_from annotation_rows annotation_laws named [] (some ([], tt)) 64 (refl, tt)

abbrev pub ran_twice : List TraceRecord
ran_twice =
    record { pc = 16; registers = (rax, 1) ∷ []; memory_accesses = [] }
    ∷ record { pc = 20; registers = (rax, 1) ∷ []; memory_accesses = [] }
    ∷ record { pc = 16; registers = (rax, 2) ∷ []; memory_accesses = [] }
    ∷ []

get_records_for_pc-load_example :
    get_records_for_pc (load ran_twice) 16 ≡ keep (runs_at 16) ran_twice
get_records_for_pc-load_example = get_records_for_pc-load ran_twice 16
