-- ===== src/Passes/DataFlow/Known.antt =====
-- Where a known value of a register comes from.
use re_wizard.Prelude.{
  ℕ, zero, suc, refl, ap, inl, inr, Bool, true, false, Option, none, some, Bool-cases, ◌≡◌, ◌&&◌,
  ◌||◌, ◌==◌, if◌then◌else◌, nat_key,
}
use re_wizard.Prelude.Map
use re_wizard.Prelude.Map.{Map, find-insert}
use re_wizard.Insn.{Register, reg_beq, register_key, OperandKind, Operand, Instruction, operand}
use re_wizard.Passes.DataFlow.{
  Image, RegisterState, RegisterFile, is_mov, transfer, invalidate, apply_instruction,
}
use re_wizard.Passes.DataFlow.Made.{Made}

-- Whether an operand writes the register under its own name, or holds it as a hidden operand. A write
-- to a wider register, or to a part of it, has another name and is not counted.
abbrev pub writes : Operand → Register → Bool
writes op r = elim op.kind [
  | OperandKind.register q ↦ (op.hidden || op.written) && reg_beq q r
  | _ ↦ false
]

-- Whether one of the operands does, of which `n` are to go from `i` on.
abbrev pub any_writes : ℕ → ℕ → Instruction → Register → Bool
any_writes zero i insn r = false
any_writes (suc n) i insn r = writes (operand insn i) r || any_writes n (suc i) insn r

-- The state that is left of a register that an instruction at the address writes.
abbrev pub forgotten : ℕ → Bool → Option RegisterState → Option RegisterState
forgotten address false o = o
forgotten address true none = none
forgotten address true (some s) = if s.def_address == address then some s else none

-- The image is never read: the branch for a load from memory stands behind a test that an earlier
-- branch has passed already, so the pass computes the same whatever the memory holds.
pub apply_instruction-image :
    (image image' : Image) (insn : Instruction) (regs : RegisterFile)
    → apply_instruction image insn regs ≡ apply_instruction image' insn regs
unfolding apply_instruction transfer
apply_instruction-image image image' insn regs =
    ap (invalidate insn.operand_count 0 insn) (elim (Bool-cases (is_mov insn.mnemonic)) [
      | inl mov ↦ rw mov refl
      | inr not_mov ↦ rw not_mov refl
    ])
