-- ===== src/Passes/DataFlow/Made.antt =====
-- What the effect of an instruction that DataFlowAnalysisPass::ApplyInstruction tracks leaves in a
-- register: ReWizardLib/source/Analysis/Passes/DataFlowAnalysisPass.cpp.
use re_wizard.Prelude.{
  ℕ, refl, sym, ap, inl, inr, true, some, arith, Bool-cases, Option-cases, ◌≡◌, ◌∙◌, ◌⊎◌, ◌&&◌,
  nat_key,
}
use mathlib.Core.Path.{subst, ap₂}
use mathlib.Core.Option.{some-injective}
use re_wizard.Prelude.Word.{add_word}
use re_wizard.Prelude.Map
use re_wizard.Prelude.Map.{Map, find-insert, find-erase}
use re_wizard.Insn.{
  Register, no_register, rip, reg_beq, reg_beq_iff, register_key, Mnemonic, OperandKind,
  Instruction, operand,
}
use re_wizard.Passes.DataFlow.{
  Image, RegisterState, RegisterFile, known_at, move_immediate, load_address, clear_register,
  is_mov, is_lea, is_xor, resolve_memory, transfer,
}

-- The instruction leaves the value in the register, by its own operands: it moves a constant, takes
-- the address of [rip + disp] or of [disp], or combines the register with itself by xor.
pub data Makes (insn : Instruction) (r : Register) : ℕ → Type 0 where
  moves :
      (v : ℕ)
      → insn.mnemonic ≡ Mnemonic.mov
      → (operand insn 0).kind ≡ OperandKind.register r
      → (operand insn 1).kind ≡ OperandKind.immediate v
      → Makes insn r v
  takes_relative :
      (disp : ℕ)
      → insn.mnemonic ≡ Mnemonic.lea
      → (operand insn 0).kind ≡ OperandKind.register r
      → (operand insn 1).kind ≡ OperandKind.memory rip no_register disp
      → Makes insn r (add_word (add_word insn.address insn.length) disp)
  takes_absolute :
      (disp : ℕ)
      → insn.mnemonic ≡ Mnemonic.lea
      → (operand insn 0).kind ≡ OperandKind.register r
      → (operand insn 1).kind ≡ OperandKind.memory no_register no_register disp
      → Makes insn r disp
  clears :
      insn.mnemonic ≡ Mnemonic.xor
      → (operand insn 0).kind ≡ OperandKind.register r
      → (operand insn 1).kind ≡ OperandKind.register r
      → Makes insn r 0

-- The instruction has put the state there.
abbrev pub Made : Instruction → Register → RegisterState → Type 0
Made insn r state = (v : ℕ) × Makes insn r v × (state ≡ known_at insn v)

-- An entry after the instruction's own effect is one that the instruction made, or an old one.
abbrev pub Sourced : Instruction → RegisterFile → RegisterFile → Register → Type 0
Sourced insn regs regs' r =
    ((state : RegisterState)
      → Map.find r regs' ≡ some state
      → Made insn r state ⊎ (Map.find r regs ≡ some state))

insert-Sourced :
    (insn : Instruction) (q r : Register) (v : ℕ) (regs : RegisterFile)
    → Makes insn q v
    → Sourced insn regs (Map.insert q (known_at insn v) regs) r
insert-Sourced insn q r v regs made state h = elim (Bool-cases (reg_beq q r)) [
  | inl same ↦
      let e = (reg_beq_iff q r).0 same in
      let put = find-insert q r (known_at insn v) regs in
      inl (v, subst (λ x. Makes insn x v) e made, ground (arith, same, put, h))
  | inr other ↦ inr (ground (arith, other, h, find-insert q r (known_at insn v) regs))
]

is_mov_sound : (m : Mnemonic) → is_mov m ≡ true → m ≡ Mnemonic.mov
is_mov_sound Mnemonic.mov h = refl
is_mov_sound m h = absurd (cc)

is_lea_sound : (m : Mnemonic) → is_lea m ≡ true → m ≡ Mnemonic.lea
is_lea_sound Mnemonic.lea h = refl
is_lea_sound m h = absurd (cc)

is_xor_sound : (m : Mnemonic) → is_xor m ≡ true → m ≡ Mnemonic.xor
is_xor_sound Mnemonic.xor h = refl
is_xor_sound m h = absurd (cc)

move_immediate-Sourced :
    (insn : Instruction) (dst src : OperandKind) (r : Register) (regs : RegisterFile)
    → insn.mnemonic ≡ Mnemonic.mov
    → (operand insn 0).kind ≡ dst
    → (operand insn 1).kind ≡ src
    → Sourced insn regs (move_immediate insn dst src regs) r
move_immediate-Sourced insn (OperandKind.register q) (OperandKind.immediate v) r regs m d s =
    insert-Sourced insn q r v regs (moves v m d s)
move_immediate-Sourced insn dst src r regs m d s = λ state h. inr h

both : (a b c d : Register) → (reg_beq a c && reg_beq b d) ≡ true → (a ≡ c) × (b ≡ d)
both a b c d h = ((reg_beq_iff a c).0 (ground (arith, h)), (reg_beq_iff b d).0 (ground (arith, h)))

resolve_memory-Makes :
    (insn : Instruction) (q base index : Register) (disp v : ℕ)
    → resolve_memory insn base index disp ≡ some v
    → insn.mnemonic ≡ Mnemonic.lea
    → (operand insn 0).kind ≡ OperandKind.register q
    → (operand insn 1).kind ≡ OperandKind.memory base index disp
    → Makes insn q v
unfolding resolve_memory
resolve_memory-Makes insn q base index disp v e m d s =
    let next = add_word (add_word insn.address insn.length) disp in
    elim (Bool-cases (reg_beq base rip && reg_beq index no_register)) [
      | inl relative ↦
          let (b, i) = both base index rip no_register relative in
          let value = some-injective next v (ground (arith, relative, e)) in
          subst (Makes insn q) value
            (takes_relative disp m d (s ∙ ap₂ (λ b i. OperandKind.memory b i disp) b i))
      | inr not_relative ↦
          elim (Bool-cases (reg_beq base no_register && reg_beq index no_register)) [
            | inl absolute ↦
                let (b, i) = both base index no_register no_register absolute in
                let value = some-injective disp v (ground (arith, not_relative, absolute, e)) in
                subst (Makes insn q) value
                  (takes_absolute disp m d (s ∙ ap₂ (λ b i. OperandKind.memory b i disp) b i))
            | inr neither ↦ absurd (ground (arith, not_relative, neither, e))
          ]
    ]

load_address-Sourced :
    (insn : Instruction) (dst src : OperandKind) (r : Register) (regs : RegisterFile)
    → insn.mnemonic ≡ Mnemonic.lea
    → (operand insn 0).kind ≡ dst
    → (operand insn 1).kind ≡ src
    → Sourced insn regs (load_address insn dst src regs) r
load_address-Sourced insn (OperandKind.register q) (OperandKind.memory base index disp) r regs m d
      s =
    elim (Option-cases (resolve_memory insn base index disp)) [
      | inl unknown ↦ rw (unknown, load_address) (λ state h. inr h)
      | inr (address, e) ↦
          rw (e, load_address)
            (insert-Sourced insn q r address regs
              (resolve_memory-Makes insn q base index disp address e m d s))
    ]
load_address-Sourced insn dst src r regs m d s = λ state h. inr h

clear_register-Sourced :
    (insn : Instruction) (dst src : OperandKind) (r : Register) (regs : RegisterFile)
    → insn.mnemonic ≡ Mnemonic.xor
    → (operand insn 0).kind ≡ dst
    → (operand insn 1).kind ≡ src
    → Sourced insn regs (clear_register insn dst src regs) r
clear_register-Sourced insn (OperandKind.register a) (OperandKind.register b) r regs m d s =
    elim (Bool-cases (reg_beq a b)) [
      | inl same ↦
          let e = (reg_beq_iff a b).0 same in
          rw same
            (insert-Sourced insn a r 0 regs (clears m d (s ∙ ap OperandKind.register (sym e))))
      | inr other ↦ rw other (λ state h. inr h)
    ]
clear_register-Sourced insn dst src r regs m d s = λ state h. inr h

pub transfer-Sourced :
    (image : Image) (insn : Instruction) (r : Register) (regs : RegisterFile)
    → Sourced insn regs (transfer image insn regs) r
unfolding transfer
transfer-Sourced image insn r regs =
    let dst = (operand insn 0).kind in
    let src = (operand insn 1).kind in
    elim (Bool-cases (is_mov insn.mnemonic)) [
      | inl mov ↦
          rw (mov, transfer)
            (move_immediate-Sourced insn dst src r regs (is_mov_sound insn.mnemonic mov) refl refl)
      | inr not_mov ↦ elim (Bool-cases (is_lea insn.mnemonic)) [
        | inl lea ↦
            rw (not_mov, lea, transfer)
              (load_address-Sourced insn dst src r regs (is_lea_sound insn.mnemonic lea) refl refl)
        | inr not_lea ↦ elim (Bool-cases (is_xor insn.mnemonic)) [
          | inl xor ↦
              rw (not_mov, not_lea, xor, transfer)
                (clear_register-Sourced insn dst src r regs (is_xor_sound insn.mnemonic xor) refl
                  refl)
          | inr other ↦ rw (not_mov, not_lea, other, transfer) (λ state h. inr h)
        ]
      ]
    ]
