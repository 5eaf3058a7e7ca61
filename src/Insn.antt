-- ===== src/Insn.antt =====
-- Decoded instructions: ReWizardLib/include/ReWizard/Disassembler/Disassembler.h, and of the
-- decoder's own types (Zydis) the fields and the enumerators that the source reads.
pub mod Walk
use re_wizard.Prelude.{ℕ, Bool, true, false, List, arith, get_or, Key, ◌≡◌, ◌↔◌, ◌==◌}

-- ZydisRegister: a general-purpose register of 64 or 32 bits is given by its number in the
-- instruction set (0 to 15, in the order rax, rcx, rdx, rbx, rsp, rbp, rsi, rdi, r8, …).
pub data Register : Type 0 where
  no_register rip eip : Register
  r64 r32 other : ℕ → Register

abbrev pub rax : Register
rax = r64 0

abbrev pub rcx : Register
rcx = r64 1

abbrev pub rdx : Register
rdx = r64 2

abbrev pub rbx : Register
rbx = r64 3

abbrev pub rsp : Register
rsp = r64 4

abbrev pub rbp : Register
rbp = r64 5

abbrev pub eax : Register
eax = r32 0

abbrev pub ecx : Register
ecx = r32 1

abbrev pub edx : Register
edx = r32 2

abbrev pub esp : Register
esp = r32 4

abbrev pub ebp : Register
ebp = r32 5

abbrev pub reg_beq : Register → Register → Bool
reg_beq no_register no_register = true
reg_beq rip rip = true
reg_beq eip eip = true
reg_beq (r64 m) (r64 n) = m == n
reg_beq (r32 m) (r32 n) = m == n
reg_beq (other m) (other n) = m == n
reg_beq a b = false

pub reg_beq_iff : (a b : Register) → (reg_beq a b ≡ true) ↔ (a ≡ b)
reg_beq_iff no_register no_register = ground arith
reg_beq_iff a b = ground arith

instance abbrev pub register_key : Key Register
register_key = record { beq = reg_beq; beq_iff = reg_beq_iff; before = λ a b. false }

-- ZydisMnemonic: those that the source names.
pub data Mnemonic : Type 0 where
  mov lea xor add sub and shl shr test cmp jz jnz js jns call jmp push pop : Mnemonic
  other : ℕ → Mnemonic

-- ZydisInstructionCategory: those that the source names.
pub data Category : Type 0 where
  call cond_br uncond_br ret : Category
  other : ℕ → Category

-- The type of an operand with the part of the operand's union that belongs to it. Immediates and
-- displacements are the 64-bit patterns: `imm.value.u`, and `disp.value` taken as a uintptr_t.
pub data OperandKind : Type 0 where
  register : Register → OperandKind
  memory : (base index : Register) (disp : ℕ) → OperandKind
  immediate : ℕ → OperandKind
  other : OperandKind

pub record Operand : Type 0 where
  pub kind : OperandKind
  pub size : ℕ
  -- visibility == ZYDIS_OPERAND_VISIBILITY_HIDDEN
  pub hidden : Bool
  -- actions & ZYDIS_OPERAND_ACTION_WRITE
  pub written : Bool

-- ExtendedInstruction
pub record Instruction : Type 0 where
  pub address : ℕ
  pub length : ℕ
  pub mnemonic : Mnemonic
  pub category : Category
  pub operands : List Operand
  pub operand_count : ℕ
  pub operand_count_visible : ℕ
  pub is_indirect : Bool
  pub indirect_value : ℕ

-- The operand array has a fixed size and starts zeroed, so a slot that the decoder left alone reads
-- as an unused operand.
abbrev pub unused_operand : Operand
unused_operand = record { kind = OperandKind.other; size = 0; hidden = false; written = false }

-- insn->Operands()[i]
abbrev pub operand : Instruction → ℕ → Operand
operand insn i = get_or insn.operands i unused_operand
