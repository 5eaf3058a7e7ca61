-- ===== src/Tests.antt =====
-- Sample code, and runs of the models on it.
pub mod Blocks
pub mod Values
pub mod Tables
pub mod Edges
pub mod Sql
pub mod Graphs
pub mod Descents
pub mod Images
pub mod Schedules
pub mod Contexts
pub mod Reports
pub mod Machines
use re_wizard.Prelude.{ℕ, Bool, true, false, List, [], length, ◌∷◌, nat_key, string_key}
use re_wizard.Insn.{
  Register, no_register, rax, rcx, Mnemonic, Category, OperandKind, Operand, Instruction,
}
use re_wizard.Units.BasicBlock.{BasicBlock, Name, plain, hexed}
use re_wizard.Units.Function.{Function, create}

abbrev pub block_of : ℕ → ℕ → List ℕ → BasicBlock
block_of start end successors = record {
  name = hexed "loc_" start;
  start = start;
  end = end;
  last_insn_addr = end;
  contains_indirect_calls = false;
  contains_indirect_jumps = false;
  successors = successors;
  predecessors = [];
}

abbrev pub function_of : List BasicBlock → Function
function_of blocks = record (create (plain "f")) { start = 16; end = 64; blocks = blocks }

-- A block that jumps into its own middle.
abbrev pub looping : Function
looping = function_of (block_of 16 32 (24 ∷ 32 ∷ []) ∷ [])

-- Two blocks that overlap, the later one starting inside the earlier one.
abbrev pub overlapped : Function
overlapped = function_of (block_of 24 40 [] ∷ block_of 16 32 [] ∷ [])

abbrev pub operand_of : OperandKind → Bool → Operand
operand_of kind written = record { kind = kind; size = 64; hidden = false; written = written }

abbrev pub insn_of : ℕ → Mnemonic → Category → List Operand → Instruction
insn_of address mnemonic category operands = record {
  address = address;
  length = 4;
  mnemonic = mnemonic;
  category = category;
  operands = operands;
  operand_count = length operands;
  operand_count_visible = length operands;
  is_indirect = false;
  indirect_value = 0;
}

abbrev pub mov_rax_5 : Instruction
mov_rax_5 =
    insn_of 16 Mnemonic.mov (Category.other 0)
      (operand_of (OperandKind.register rax) true ∷ operand_of (OperandKind.immediate 5) false ∷ [])

abbrev pub mov_rax_rcx : Instruction
mov_rax_rcx =
    insn_of 16 Mnemonic.mov (Category.other 0) (
      operand_of (OperandKind.register rax) true ∷ operand_of (OperandKind.register rcx) false ∷ [])

abbrev pub test_rax : Instruction
test_rax =
    insn_of 20 Mnemonic.test (Category.other 0) (
      operand_of (OperandKind.register rax) false
      ∷ operand_of (OperandKind.register rax) false
      ∷ [])

abbrev pub cmp_rax_5 : Instruction
cmp_rax_5 =
    insn_of 20 Mnemonic.cmp (Category.other 0) (
      operand_of (OperandKind.register rax) false ∷ operand_of (OperandKind.immediate 5) false ∷ [])

abbrev pub jz_8 : Instruction
jz_8 = insn_of 24 Mnemonic.jz Category.cond_br (operand_of (OperandKind.immediate 8) false ∷ [])

abbrev pub push_rcx : Instruction
push_rcx =
    insn_of 28 Mnemonic.push (Category.other 0) (operand_of (OperandKind.register rcx) true ∷ [])
