-- ===== src/Database.antt =====
-- ReWizardLib/source/Database/AnalysisDatabase.cpp and include/ReWizard/Database/AnalysisDatabase.h.
-- SQLite is a parameter: a connection, on which it executes the statements of the source, one
-- constructor each, and answers its queries. A method's first test, `if (!m_db)`, is the match on a
-- database without a connection. The 64-bit patterns of addresses go through sqlite3_int64 and back.
pub mod Transactions
pub mod Rows
pub mod Annotations
pub mod References
use Prim.Native.Char.{code}
use Prim.Native.String.{◌∷◌ as push}
use re_wizard.Prelude.{
  ℕ, String, Bool, true, false, Option, none, some, List, [], ltb, ◌-◌, ◌∷◌, ◌==◌, if◌then◌else◌,
  nat_key, string_key,
}
use mathlib.Core.Option
use re_wizard.Prelude.Map
use re_wizard.Prelude.Map.{Map}
use re_wizard.Symbols.Table.{ImportedSymbol, ExportedSymbol, SymbolTable}
use re_wizard.Symbols.Annotations.{Annotation}
use re_wizard.Xrefs.{Xref}
use re_wizard.Units.BasicBlock.{BasicBlock, Name, plain, hexed}
use re_wizard.Units.Function.{Function}
use re_wizard.Units.Module.{Module}

-- The columns of the table `functions` that the source writes.
pub record FunctionRow : Type 0 where
  pub address : ℕ
  pub size : ℕ
  pub name : Name
  pub type : String
  pub convention : String
  pub has_opaque_predicates : Bool
  pub is_hybrid_verified : Bool
  pub is_trampoline : Bool

pub record SymbolRow : Type 0 where
  pub address : ℕ
  pub name : String
  pub type : String
  pub source_dll : String
  pub ordinal : ℕ

-- The statements, with the values bound to their parameters. `prepare_symbols` compiles the
-- insertion of symbols, which SaveSymbolTable does once before its loops.
pub data Statement : Type 0 where
  create_tables begin_transaction commit_transaction rollback_transaction prepare_symbols :
      Statement
  insert_function : FunctionRow → Statement
  insert_basic_block : (function_id start end : ℕ) → Name → Statement
  insert_symbol : SymbolRow → Statement
  insert_xref : Xref → Statement
  upsert_annotation : ℕ → Annotation → Statement
  erase_annotation : ℕ → Statement

-- The engine. `exec` says whether the statement was prepared and stepped to SQLITE_DONE (for
-- sqlite3_exec: SQLITE_OK). A row of `functions` comes with its id.
pub record Sqlite : Type 1 where
  pub Connection : Type 0
  pub exec : Statement → Connection → Connection × Bool
  pub select_functions : Connection → List (ℕ × FunctionRow)
  pub select_function : Connection → ℕ → Option (ℕ × FunctionRow)
  pub select_symbols : Connection → ℕ → List (ℕ × SymbolRow)
  pub select_xrefs_to : Connection → ℕ → List (ℕ × Xref)
  pub select_xrefs_from : Connection → ℕ → List (ℕ × Xref)
  pub select_xrefs : Connection → List (ℕ × Xref)
  pub select_annotations : Connection → List (ℕ × Annotation)

-- A text as sqlite3_bind_text takes it with the length -1: it ends before its first NUL.
unfoldable pub c_str : String → String
c_str String.[] = String.[]
c_str (String.◌∷◌ c s) = let rest = c_str s in if code c == 0 then String.[] else push c rest

-- The same of a name, whose prefix before an address is a literal of the source.
abbrev pub c_name : Name → Name
c_name (plain t) = plain (c_str t)
c_name (hexed prefix address) = hexed prefix address

-- The row of a function; the size of a function that ends before its start is 0.
unfoldable pub row_of : Function → FunctionRow
unfolding c_str
row_of f = record {
  address = f.start;
  size = if ltb f.start f.end then f.end - f.start else 0;
  name = c_name f.name;
  type = "function";
  convention = "";
  has_opaque_predicates = f.has_opaque_predicates;
  is_hybrid_verified = f.hybrid_verified;
  is_trampoline = f.is_trampoline;
}

abbrev pub import_row : ImportedSymbol → SymbolRow
import_row imp = record {
  address = imp.address;
  name = c_str imp.name;
  type = "import";
  source_dll = c_str imp.dll;
  ordinal = 0;
}

abbrev pub export_row : ExportedSymbol → SymbolRow
export_row exp = record {
  address = exp.address;
  name = c_str exp.name;
  type = "export";
  source_dll = "";
  ordinal = exp.ordinal;
}

-- The texts that SaveAnnotation binds.
unfoldable pub bound : Annotation → Annotation
unfolding c_str
bound ann = record {
  name = c_str ann.name;
  comment = c_str ann.comment;
  type = c_str ann.type;
  kind = c_str ann.kind;
}

-- funcIdByAddr
abbrev pub id_by_address : List (ℕ × FunctionRow) → Map ℕ ℕ → Map ℕ ℕ
id_by_address [] m = m
id_by_address ((id, row) ∷ rows) m = id_by_address rows (Map.insert row.address id m)

module _ (engine : Sqlite) where
  open engine use {
    Connection, exec, select_functions, select_function, select_symbols, select_xrefs_to,
    select_xrefs_from, select_xrefs, select_annotations,
  }

  -- m_db
  abbrev pub Database : Type 0
  Database = Option Connection

  abbrev pub Outcome : Type 0
  Outcome = Database × Bool

  unfoldable pub is_open : Database → Bool
  is_open none = false
  is_open (some c) = true

  unfoldable pub close : Database → Database
  close db = none

  unfoldable pub exec_on : Statement → Database → Outcome
  exec_on s none = (none, false)
  exec_on s (some c) = let (c', ok) = exec s c in (some c', ok)

  -- The next step, if the last one went well; `return false` otherwise.
  abbrev pub and_then : Outcome → (Database → Outcome) → Outcome
  and_then (db, true) next = next db
  and_then (db, false) next = (db, false)

  -- A loop that breaks at the first step that fails.
  unfoldable pub save_each {ℓ} :
      {A : Type ℓ} → (A → Database → Outcome) → List A → Database → Outcome
  save_each save [] db = (db, true)
  save_each save (x ∷ xs) db = and_then (save x db) (save_each save xs)

  unfoldable pub create_schema : Database → Outcome
  unfolding exec_on
  create_schema = exec_on create_tables

  unfoldable pub begin : Database → Outcome
  unfolding exec_on
  begin = exec_on begin_transaction

  unfoldable pub commit : Database → Outcome
  unfolding exec_on
  commit = exec_on commit_transaction

  unfoldable pub rollback : Database → Outcome
  unfolding exec_on
  rollback = exec_on rollback_transaction

  -- The end of the methods with a transaction: `if (ok) return Commit(); Rollback(); return false;`
  unfoldable pub finish : Outcome → Outcome
  unfolding commit rollback
  finish (db, true) = commit db
  finish (db, false) = ((rollback db).0, false)

  unfoldable pub save_function : Function → Database → Outcome
  unfolding exec_on row_of
  save_function f = exec_on (insert_function (row_of f))

  unfoldable pub save_functions : List Function → Database → Outcome
  unfolding begin finish save_each save_function
  save_functions fs db = and_then (begin db) (λ opened. finish (save_each save_function fs opened))

  unfoldable pub query_functions : Database → List (ℕ × FunctionRow)
  query_functions none = []
  query_functions (some c) = select_functions c

  unfoldable pub query_function_by_address : Database → ℕ → Option (ℕ × FunctionRow)
  query_function_by_address none address = none
  query_function_by_address (some c) address = select_function c address

  unfoldable pub save_basic_block : ℕ → BasicBlock → Database → Outcome
  unfolding exec_on
  save_basic_block id b = exec_on (insert_basic_block id b.start b.end (c_name b.name))

  unfoldable pub save_basic_blocks : List BasicBlock → ℕ → Database → Outcome
  unfolding begin finish save_each save_basic_block
  save_basic_blocks bs id db =
      and_then (begin db) (λ opened. finish (save_each (save_basic_block id) bs opened))

  abbrev pub save_symbol : SymbolRow → Database → Outcome
  unfolding exec_on
  save_symbol row = exec_on (insert_symbol row)

  -- The loops of SaveSymbolTable, once the insertion has been compiled.
  abbrev pub save_symbols : SymbolTable → Database → Outcome
  unfolding save_each
  save_symbols st db =
      and_then (save_each (λ imp. save_symbol (import_row imp)) st.imports db)
        (save_each (λ exp. save_symbol (export_row exp)) st.exports)

  unfoldable pub save_symbol_table : SymbolTable → Database → Outcome
  unfolding begin finish exec_on
  save_symbol_table st db =
      and_then (begin db)
        (λ opened. finish (and_then (exec_on prepare_symbols opened) (save_symbols st)))

  unfoldable pub query_symbols_by_address : Database → ℕ → List (ℕ × SymbolRow)
  query_symbols_by_address none address = []
  query_symbols_by_address (some c) address = select_symbols c address

  unfoldable pub save_xref : ℕ → ℕ → String → Database → Outcome
  unfolding exec_on c_str
  save_xref from to type =
      exec_on (insert_xref (record { from = from; to = to; type = c_str type }))

  unfoldable pub query_xrefs_to : Database → ℕ → List (ℕ × Xref)
  query_xrefs_to none address = []
  query_xrefs_to (some c) address = select_xrefs_to c address

  unfoldable pub query_xrefs_from : Database → ℕ → List (ℕ × Xref)
  query_xrefs_from none address = []
  query_xrefs_from (some c) address = select_xrefs_from c address

  unfoldable pub query_all_xrefs : Database → List (ℕ × Xref)
  query_all_xrefs none = []
  query_all_xrefs (some c) = select_xrefs c

  unfoldable pub save_annotation : ℕ → Annotation → Database → Outcome
  unfolding exec_on bound
  save_annotation address ann = exec_on (upsert_annotation address (bound ann))

  unfoldable pub delete_annotation : ℕ → Database → Outcome
  unfolding exec_on
  delete_annotation address = exec_on (erase_annotation address)

  unfoldable pub query_all_annotations : Database → List (ℕ × Annotation)
  query_all_annotations none = []
  query_all_annotations (some c) = select_annotations c

  -- The body of the loop of SaveModule; a function whose row is not found is skipped.
  unfoldable pub save_code : Map ℕ ℕ → Function → Database → Outcome
  unfolding save_each save_basic_block save_xref
  save_code ids f db = elim (Map.find f.start ids) [
    | none ↦ (db, true)
    | some id ↦
        and_then (save_each (save_basic_block id) f.blocks db)
          (save_each (λ cs. save_xref cs.0 cs.1 "call") f.call_sites)
  ]

  -- SaveModule from its own BeginTransaction on, with the rows of QueryFunctions.
  unfoldable pub save_contents : List (ℕ × FunctionRow) → Module → Database → Outcome
  unfolding begin finish save_each save_code save_symbol_table
  save_contents rows m db = and_then (begin db) (λ opened. finish (
      and_then (save_each (save_code (id_by_address rows [])) m.functions opened)
        (save_symbol_table m.symbol_table)))

  unfoldable pub save_module : Module → Database → Outcome
  unfolding create_schema save_functions query_functions save_contents
  save_module m db =
      and_then (and_then (create_schema db) (save_functions m.functions))
        (λ saved. save_contents (query_functions saved) m saved)
