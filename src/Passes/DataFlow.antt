-- ===== src/Passes/DataFlow.antt =====
-- ReWizardLib/source/Analysis/Passes/DataFlowAnalysisPass.cpp: constants in registers along the blocks
-- of a function, and the indirect calls and jumps that they resolve. What the image holds in memory
-- is a parameter, like the loader's range.
pub mod Known
pub mod Made
pub mod Sites
use mathlib.Core.Option
use re_wizard.Prelude.{
  ℕ, zero, suc, Bool, true, false, not, Option, none, some, List, [], ◌&&◌, ◌||◌, ◌∷◌, ◌==◌,
  if◌then◌else◌, nat_key,
}
use re_wizard.Prelude.Map
use re_wizard.Prelude.Map.{Map}
use re_wizard.Prelude.Word.{add_word}
use re_wizard.Insn.{
  Register, no_register, rip, reg_beq, register_key, Mnemonic, Category, OperandKind, Operand,
  Instruction, operand,
}
use re_wizard.Insn.Walk.{walk_block}
use re_wizard.Units.BasicBlock.{BasicBlock}
use re_wizard.Units.Function.{Function, add_call_site}

pub record RegisterState : Type 0 where
  pub def_address : ℕ
  pub known_value : ℕ
  pub is_known : Bool

abbrev pub RegisterFile : Type 0
RegisterFile = Map Register RegisterState

-- The mapped image: IsWithinMapping, and the word that memcpy reads.
pub record Image : Type 0 where
  pub is_within_mapping : ℕ → Bool
  pub read_word : ℕ → ℕ

abbrev pub known_at : Instruction → ℕ → RegisterState
known_at insn value = record { def_address = insn.address; known_value = value; is_known = true }

-- mov reg, imm
abbrev pub move_immediate : Instruction → OperandKind → OperandKind → RegisterFile → RegisterFile
move_immediate insn (OperandKind.register dst) (OperandKind.immediate v) regs =
    Map.insert dst (known_at insn v) regs
move_immediate insn dst src regs = regs

-- The address of [rip + disp] or [disp].
unfoldable pub resolve_memory : Instruction → Register → Register → ℕ → Option ℕ
resolve_memory insn base index disp =
    if reg_beq base rip && reg_beq index no_register
    then some (add_word (add_word insn.address insn.length) disp)
    else if reg_beq base no_register && reg_beq index no_register
    then some disp
    else none

-- lea reg, [rip + disp] or lea reg, [disp]
abbrev pub load_address : Instruction → OperandKind → OperandKind → RegisterFile → RegisterFile
load_address insn (OperandKind.register dst) (OperandKind.memory base index disp) regs =
    elim (resolve_memory insn base index disp) [
      | none ↦ regs
      | some address ↦ Map.insert dst (known_at insn address) regs
    ]
load_address insn dst src regs = regs

-- mov reg, [rip + disp] or mov reg, [disp]: the value in the image.
abbrev pub load_memory :
    Image → Instruction → OperandKind → OperandKind → RegisterFile → RegisterFile
load_memory image insn (OperandKind.register dst) (OperandKind.memory base index disp) regs =
    elim (resolve_memory insn base index disp) [
      | none ↦ regs
      | some address ↦
          if image.is_within_mapping address
          then Map.insert dst (known_at insn (image.read_word address)) regs
          else regs
    ]
load_memory image insn dst src regs = regs

-- xor reg, reg
abbrev pub clear_register : Instruction → OperandKind → OperandKind → RegisterFile → RegisterFile
clear_register insn (OperandKind.register a) (OperandKind.register b) regs =
    if reg_beq a b then Map.insert a (known_at insn 0) regs else regs
clear_register insn a b regs = regs

abbrev pub is_mov : Mnemonic → Bool
is_mov Mnemonic.mov = true
is_mov m = false

abbrev pub is_lea : Mnemonic → Bool
is_lea Mnemonic.lea = true
is_lea m = false

abbrev pub is_xor : Mnemonic → Bool
is_xor Mnemonic.xor = true
is_xor m = false

-- The chain of tests at the head of ApplyInstruction, in the order of the source: the third test
-- repeats the first.
unfoldable pub transfer : Image → Instruction → RegisterFile → RegisterFile
unfolding resolve_memory
transfer image insn regs =
    let dst = (operand insn 0).kind in
    let src = (operand insn 1).kind in
    if is_mov insn.mnemonic
    then move_immediate insn dst src regs
    else if is_lea insn.mnemonic
    then load_address insn dst src regs
    else if is_mov insn.mnemonic
    then load_memory image insn dst src regs
    else if is_xor insn.mnemonic
    then clear_register insn dst src regs
    else regs

unfoldable pub invalidate_register : ℕ → Register → RegisterFile → RegisterFile
invalidate_register address r regs = elim (Map.find r regs) [
  | none ↦ regs
  | some state ↦ if state.def_address == address then regs else Map.erase r regs
]

unfoldable pub invalidate_operand : ℕ → Operand → RegisterFile → RegisterFile
unfolding invalidate_register
invalidate_operand address op regs = elim op.kind [
  | OperandKind.register r ↦
      if op.hidden || op.written then invalidate_register address r regs else regs
  | _ ↦ regs
]

-- The loop over the operands: `n` of them to go, from `i` on.
unfoldable pub invalidate : ℕ → ℕ → Instruction → RegisterFile → RegisterFile
unfolding invalidate_operand
invalidate zero i insn regs = regs
invalidate (suc n) i insn regs =
    invalidate n (suc i) insn (invalidate_operand insn.address (operand insn i) regs)

unfoldable pub apply_instruction : Image → Instruction → RegisterFile → RegisterFile
unfolding transfer invalidate
apply_instruction image insn regs = invalidate insn.operand_count 0 insn (transfer image insn regs)

-- The target of an indirect call or jump through a register. TryResolveIndirectCall and
-- TryResolveIndirectJump have the same body.
unfoldable pub resolved_target : Instruction → RegisterFile → Option ℕ
resolved_target insn regs = elim (operand insn 0).kind [
  | OperandKind.register r ↦ elim (Map.find r regs) [
    | none ↦ none
    | some state ↦
        if not state.is_known
        then none
        else if state.known_value == 0
        then none
        else some state.known_value
  ]
  | _ ↦ none
]

-- The function, the instructions of the module (whose targets the pass fills in) and the registers.
pub record State : Type 0 where
  pub function : Function
  pub instructions : Map ℕ Instruction
  pub regs : RegisterFile

abbrev pub set_indirect_value : ℕ → ℕ → Map ℕ Instruction → Map ℕ Instruction
set_indirect_value address target m = elim (Map.find address m) [
  | none ↦ m
  | some insn ↦ Map.insert address (record insn { indirect_value = target }) m
]

unfoldable pub try_resolve : Instruction → State → State × Bool
unfolding add_call_site
try_resolve insn s = elim (resolved_target insn s.regs) [
  | none ↦ (s, false)
  | some target ↦ (
    record s {
      function = add_call_site insn.address target s.function;
      instructions = set_indirect_value insn.address target s.instructions;
    },
    true,
  )
]

abbrev pub is_transfer : Category → Bool
is_transfer Category.call = true
is_transfer Category.uncond_br = true
is_transfer Category.cond_br = true
is_transfer c = false

-- The body of the loop of AnalyzeBasicBlock.
unfoldable pub step : Image → Instruction → State → State
unfolding try_resolve apply_instruction
step image insn s =
    let s' = if is_transfer insn.category then (try_resolve insn s).0 else s in
    record s' { regs = apply_instruction image insn s'.regs }

unfoldable pub analyze_basic_block : Image → BasicBlock → State → Option State
unfolding step walk_block
analyze_basic_block image b s = walk_block s.instructions (step image) b.start b.end s

-- The blocks in their order in the function, the registers handed on.
unfoldable pub analyze_blocks : Image → List BasicBlock → State → Option State
unfolding analyze_basic_block
analyze_blocks image [] s = some s
analyze_blocks image (b ∷ bs) s =
    Option.bind (analyze_basic_block image b s) (analyze_blocks image bs)

unfoldable pub analyze_function :
    Image → Function → Map ℕ Instruction → Option (Function × Map ℕ Instruction)
unfolding analyze_blocks
analyze_function image f insns =
    Option.map (λ (s : State). (s.function, s.instructions))
      (analyze_blocks image f.blocks (record { function = f; instructions = insns; regs = [] }))
