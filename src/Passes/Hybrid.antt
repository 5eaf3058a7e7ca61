-- ===== src/Passes/Hybrid.antt =====
-- ReWizardLib/source/Analysis/Passes/HybridAnalysisPass.cpp: the target of an indirect call or jump
-- read from a record of a trace, and the opaque predicates that a trace refutes.
pub mod Predicates
pub mod Run
use re_wizard.Prelude.{
  ℕ, Bool, true, false, not, none, some, List, [], ltb, length, ◌&&◌, ◌∷◌, ◌==◌, if◌then◌else◌,
  nat_key,
}
use re_wizard.Prelude.Map
use re_wizard.Prelude.Map.{Map}
use re_wizard.Prelude.Set
use re_wizard.Prelude.Set.{Set}
use re_wizard.Prelude.Word.{add_word}
use re_wizard.Insn.{
  Register, no_register, reg_beq, register_key, Mnemonic, OperandKind, Operand, Instruction,
  operand,
}
use re_wizard.Trace.{MemoryAccess, TraceRecord, TraceReader, get_records_for_pc}
use re_wizard.Units.Function.{Function, add_call_site}

-- The value of a register in a record; 0 for no register, and for one without an entry.
unfoldable pub register_value : TraceRecord → Register → ℕ
register_value rec r =
    if reg_beq r no_register
    then 0
    else elim (Map.find r rec.registers) [ none ↦ 0 | some value ↦ value ]

-- The value of the first read at the address, 0 when there is none.
unfoldable pub first_read : List MemoryAccess → ℕ → ℕ
first_read [] addr = 0
first_read (ma ∷ mas) addr =
    if ma.address == addr && not ma.is_write then ma.value else first_read mas addr

abbrev pub is_transfer : Mnemonic → Bool
is_transfer Mnemonic.call = true
is_transfer Mnemonic.jmp = true
is_transfer m = false

unfoldable pub resolve_indirect_target : Instruction → TraceRecord → ℕ
unfolding register_value first_read
resolve_indirect_target insn rec =
    if not (is_transfer insn.mnemonic)
    then 0
    else if insn.operand_count == 0
    then 0
    else elim (operand insn 0).kind [
      | OperandKind.register r ↦ elim (Map.find r rec.registers) [ none ↦ 0 | some value ↦ value ]
      | OperandKind.memory base index disp ↦
          first_read rec.memory_accesses
            (add_word (add_word (register_value rec base) (register_value rec index)) disp)
      | _ ↦ 0
    ]

-- The loop of Run over the records of one instruction: the function and resolvedTargets.
unfoldable pub resolve_records :
    Instruction → List TraceRecord → Function × Set ℕ → Function × Set ℕ
unfolding resolve_indirect_target add_call_site
resolve_records insn [] (f, targets) = (f, targets)
resolve_records insn (rec ∷ recs) (f, targets) =
    let target = resolve_indirect_target insn rec in
    resolve_records insn recs (
      if target == 0
      then (f, targets)
      else (add_call_site insn.address target f, Set.insert target targets))

-- The loop over the indirect instructions.
unfoldable pub resolve_indirects :
    TraceReader → List Instruction → Function × Set ℕ → Function × Set ℕ
unfolding resolve_records get_records_for_pc
resolve_indirects reader [] state = state
resolve_indirects reader (insn ∷ insns) state =
    resolve_indirects reader insns
      (resolve_records insn (get_records_for_pc reader insn.address) state)

-- The addresses with more than one record.
unfoldable pub disproven : TraceReader → Set ℕ → List ℕ
unfolding get_records_for_pc
disproven reader [] = []
disproven reader (addr ∷ addrs) =
    if ltb 1 (length (get_records_for_pc reader addr))
    then addr ∷ disproven reader addrs
    else disproven reader addrs

unfoldable pub erase_all : List ℕ → Set ℕ → Set ℕ
erase_all [] s = s
erase_all (addr ∷ addrs) s = erase_all addrs (Set.erase addr s)

abbrev pub settle : Function → Set ℕ → Function
settle f [] = record f { opaque_predicate_addresses = []; has_opaque_predicates = false }
settle f (addr ∷ addrs) = record f { opaque_predicate_addresses = addr ∷ addrs }

unfoldable pub process_opaque_predicates : TraceReader → Function → Function
unfolding disproven erase_all
process_opaque_predicates reader f =
    if f.has_opaque_predicates
    then settle f
        (erase_all (disproven reader f.opaque_predicate_addresses) f.opaque_predicate_addresses)
    else f
