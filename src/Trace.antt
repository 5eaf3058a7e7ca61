-- ===== src/Trace.antt =====
-- ReWizardLib/include/ReWizard/Hybrid/TraceRecord.h and source/Hybrid/SimpleTraceReader.cpp: the
-- records of an execution trace and their index by program counter. `load`
-- takes the records of a file in order; Trace/Parse reads them from its JSON value.
pub mod Index
pub mod Parse
use re_wizard.Prelude.{ℕ, Bool, none, some, List, [], length, get_elem?, ◌∷◌, ◌++◌, nat_key}
use re_wizard.Prelude.Map
use re_wizard.Prelude.Map.{Map}
use re_wizard.Insn.{Register}

pub record MemoryAccess : Type 0 where
  pub address : ℕ
  pub value : ℕ
  pub is_write : Bool

pub record TraceRecord : Type 0 where
  pub pc : ℕ
  pub registers : Map Register ℕ
  pub memory_accesses : List MemoryAccess

pub record TraceReader : Type 0 where
  pub records : List TraceRecord
  pub pc_index : Map ℕ (List ℕ)

abbrev pub indices : TraceReader → ℕ → List ℕ
indices t pc = elim (Map.find pc t.pc_index) [ none ↦ [] | some is ↦ is ]

-- m_pcIndex[rec.pc].push_back(m_records.size()), then m_records.push_back(rec).
unfoldable pub push_record : TraceRecord → TraceReader → TraceReader
push_record rec t = record {
  records = t.records ++ rec ∷ [];
  pc_index = Map.insert rec.pc (indices t rec.pc ++ length t.records ∷ []) t.pc_index;
}

unfoldable pub push_records : List TraceRecord → TraceReader → TraceReader
unfolding push_record
push_records [] t = t
push_records (rec ∷ recs) t = push_records recs (push_record rec t)

-- Load clears the reader first.
unfoldable pub load : List TraceRecord → TraceReader
unfolding push_records
load recs = push_records recs (record { records = []; pc_index = [] })

-- The records at the indices; an index out of range is skipped here, and the source never has one.
unfoldable pub fetch : List TraceRecord → List ℕ → List TraceRecord
fetch recs [] = []
fetch recs (i ∷ is) = elim (get_elem? recs i) [
  | none ↦ fetch recs is
  | some rec ↦ rec ∷ fetch recs is
]

unfoldable pub get_records_for_pc : TraceReader → ℕ → List TraceRecord
unfolding fetch
get_records_for_pc t pc = fetch t.records (indices t pc)
