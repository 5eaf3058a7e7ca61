-- ===== src/Passes/Domain/Stale.antt =====
-- What ApplyInstruction forgets, and what it keeps although the register was written.
use re_wizard.Prelude.{
  ℕ, zero, suc, refl, ap, inl, inr, Bool, true, false, Option, none, some, arith, Bool-cases, ◌≡◌,
  ◌∙◌, ◌&&◌, ◌||◌, if◌then◌else◌, nat_key,
}
use mathlib.Core.Option
use re_wizard.Prelude.Map
use re_wizard.Prelude.Map.{Map, find-erase}
use re_wizard.Insn.{
  Register, reg_beq, reg_beq_iff, register_key, Mnemonic, OperandKind, Operand, Instruction,
  operand,
}
use re_wizard.Passes.Interval.{Interval}
use re_wizard.Passes.Domain.{
  IntervalDomain, transfer, is_tracked, is_protected, is_zero, invalidate_register,
  invalidate_operand, invalidate, apply_instruction, move_immediate,
}

invalidate_operand-tracked :
    (m : Mnemonic) (op : Operand) (d : IntervalDomain)
    → is_tracked m ≡ true
    → invalidate_operand m op d ≡ d
unfolding invalidate_operand
invalidate_operand-tracked m op d h = ground (arith)

-- A tracked mnemonic invalidates nothing.
invalidate-tracked :
    (n i : ℕ) (insn : Instruction) (d : IntervalDomain)
    → is_tracked insn.mnemonic ≡ true
    → invalidate n i insn d ≡ d
unfolding invalidate
invalidate-tracked zero i insn d h = refl
invalidate-tracked (suc n) i insn d h =
    rw (invalidate_operand-tracked insn.mnemonic (operand insn i) d h)
      (invalidate-tracked n (suc i) insn d h)

-- What a copy or a load into a register is: `mov` whose source is no immediate.
abbrev pub NotImmediate : OperandKind → Type 0
NotImmediate (OperandKind.immediate v) = ⊥
NotImmediate k = Unit

move-NotImmediate :
    (dst src : OperandKind) (d : IntervalDomain) → NotImmediate src → move_immediate dst src d ≡ d
move-NotImmediate (OperandKind.register r) (OperandKind.immediate v) d h = absurd h
move-NotImmediate dst src d h = ground arith

mov_transfer :
    (insn : Instruction) (d : IntervalDomain)
    → insn.mnemonic ≡ Mnemonic.mov
    → NotImmediate (operand insn 1).kind
    → transfer insn d ≡ some d
unfolding transfer
mov_transfer insn d h src =
    rw (h, transfer) (ap some (move-NotImmediate (operand insn 0).kind (operand insn 1).kind d src))

-- A register that is overwritten by a copy of another register or by a load keeps the interval that
-- it had: on a `mov` whose source is no immediate the domain does not change at all.
pub apply_instruction-mov :
    (insn : Instruction) (d : IntervalDomain)
    → insn.mnemonic ≡ Mnemonic.mov
    → NotImmediate (operand insn 1).kind
    → apply_instruction insn d ≡ some d
unfolding apply_instruction
apply_instruction-mov insn d h src =
    let e : transfer insn d ≡ some d = mov_transfer insn d h src in
    let t : is_tracked insn.mnemonic ≡ true = unfold is_tracked in rw h refl in
    rw e (ap some (invalidate-tracked insn.operand_count 0 insn d t))

-- Whether an operand writes the register, or holds it as a hidden operand.
abbrev pub writes : Operand → Register → Bool
writes op r = elim op.kind [
  | OperandKind.register q ↦ (op.hidden || op.written) && reg_beq q r
  | _ ↦ false
]

-- Whether one of the operands does, of which `n` are to go from `i` on.
abbrev pub any_writes : ℕ → ℕ → Instruction → Register → Bool
any_writes zero i insn r = false
any_writes (suc n) i insn r = writes (operand insn i) r || any_writes n (suc i) insn r

-- The interval that stays although its register is written: a zero of rax, rcx or rdx.
abbrev pub stays_known : Register → Option Interval → Bool
stays_known r none = false
stays_known r (some i) = is_zero i && is_protected r

abbrev pub forgotten : Bool → Register → Option Interval → Option Interval
forgotten true r o = if stays_known r o then o else none
forgotten false r o = o

find-invalidate_register :
    (m : Mnemonic) (q r : Register) (d : IntervalDomain)
    → is_tracked m ≡ false
    → Map.find r (invalidate_register m q d) ≡ forgotten (reg_beq q r) r (Map.find r d)
unfolding invalidate_register
find-invalidate_register m q r d h = elim (Bool-cases (reg_beq q r)) [
  | inl same ↦
      let e = (reg_beq_iff q r).0 same in rw e (ground (arith, find-erase r r d, reg_beq_iff r r))
  | inr other ↦ ground (arith, find-erase q r d)
]

find-invalidate_operand :
    (m : Mnemonic) (op : Operand) (r : Register) (d : IntervalDomain)
    → is_tracked m ≡ false
    → Map.find r (invalidate_operand m op d) ≡ forgotten (writes op r) r (Map.find r d)
unfolding invalidate_operand
find-invalidate_operand m op r d h = kinds op.kind (op.hidden || op.written)
  where
    kinds :
        (k : OperandKind) (w : Bool)
        → Map.find r (elim k as (λ _. IntervalDomain) [
          | OperandKind.register q ↦ if w then invalidate_register m q d else d
          | _ ↦ d
        ])
          ≡ forgotten
              (elim k as (λ _. Bool) [ OperandKind.register q ↦ w && reg_beq q r | _ ↦ false ])
              r
              (Map.find r d)
    kinds (OperandKind.register q) true = find-invalidate_register m q r d h
    kinds (OperandKind.register q) false = refl
    kinds (OperandKind.memory base index disp) w = refl
    kinds (OperandKind.immediate v) w = refl
    kinds OperandKind.other w = refl

forgotten-twice :
    (a b : Bool) (r : Register) (o : Option Interval)
    → forgotten b r (forgotten a r o) ≡ forgotten (a || b) r o
forgotten-twice a b r o = ground arith

find-invalidate :
    (n i : ℕ) (insn : Instruction) (r : Register) (d : IntervalDomain)
    → is_tracked insn.mnemonic ≡ false
    → Map.find r (invalidate n i insn d) ≡ forgotten (any_writes n i insn r) r (Map.find r d)
unfolding invalidate
find-invalidate zero i insn r d h = refl
find-invalidate (suc n) i insn r d h =
    let d' = invalidate_operand insn.mnemonic (operand insn i) d in
    find-invalidate n (suc i) insn r d' h
    ∙ (ap (forgotten (any_writes n (suc i) insn r) r)
          (find-invalidate_operand insn.mnemonic (operand insn i) r d h)
        ∙ forgotten-twice (writes (operand insn i) r) (any_writes n (suc i) insn r) r
            (Map.find r d))

transfer-untracked :
    (insn : Instruction) (d : IntervalDomain)
    → is_tracked insn.mnemonic ≡ false
    → transfer insn d ≡ some d
unfolding transfer is_tracked
transfer-untracked insn d h = ground arith

-- An instruction whose mnemonic is none of the tracked ones makes the registers that its operands
-- write unknown, except rax, rcx, rdx, eax, ecx and edx where they are known to be 0, and changes
-- what is known of no other register.
pub apply_instruction-untracked :
    (insn : Instruction) (r : Register) (d : IntervalDomain)
    → is_tracked insn.mnemonic ≡ false
    → Option.map (Map.find r) (apply_instruction insn d)
      ≡ some (forgotten (any_writes insn.operand_count 0 insn r) r (Map.find r d))
unfolding apply_instruction
apply_instruction-untracked insn r d h =
    rw (transfer-untracked insn d h) (ap some (find-invalidate insn.operand_count 0 insn r d h))
