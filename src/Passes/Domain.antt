-- ===== src/Passes/Domain.antt =====
-- ReWizardLib/source/Analysis/Passes/AbstractInterpretationPass.cpp: intervals of the registers along
-- the blocks of a function, and the conditional branches that they decide. `none` is undefined
-- behaviour of the interval arithmetic, or a walk over a block that does not end.
pub mod Flags
pub mod Ends
pub mod Stale
pub mod Branch
use mathlib.Core.Option
use re_wizard.Prelude.{
  ℕ, zero, suc, Bool, true, false, not, Option, none, some, List, [], ◌&&◌, ◌||◌, ◌∷◌,
  if◌then◌else◌, nat_key,
}
use re_wizard.Prelude.Map
use re_wizard.Prelude.Set
use re_wizard.Prelude.Map.{Map}
use re_wizard.Prelude.Int.{ℤ, pos, leb_ℤ, ltb_ℤ, eqb_ℤ}
use re_wizard.Insn.{
  Register, rax, rcx, rdx, eax, ecx, edx, reg_beq, register_key, Mnemonic, Category, OperandKind,
  Operand, Instruction, operand,
}
use re_wizard.Insn.Walk.{walk_block}
use re_wizard.Units.BasicBlock.{BasicBlock}
use re_wizard.Units.Function.{Function}
use re_wizard.Passes.Interval
use re_wizard.Passes.Interval.{Interval, top, constant, is_constant, to_signed}

abbrev pub IntervalDomain : Type 0
IntervalDomain = Map Register Interval

unfoldable pub get_register_interval : IntervalDomain → Register → Interval
get_register_interval d reg = elim (Map.find reg d) [ none ↦ top | some i ↦ i ]

-- The interval of a source operand; only `add`, `sub` and `and` read a register there.
abbrev pub source_value : Bool → IntervalDomain → OperandKind → Interval
source_value reads_registers d (OperandKind.immediate v) = constant (to_signed v)
source_value true d (OperandKind.register r) = get_register_interval d r
source_value false d (OperandKind.register r) = top
source_value reads_registers d (OperandKind.memory base index disp) = top
source_value reads_registers d OperandKind.other = top

-- dst := f(dst, src), where dst is a register.
abbrev pub update_register :
    Bool
    → (Interval → Interval → Option Interval)
    → Instruction
    → IntervalDomain
    → Option IntervalDomain
update_register reads_registers f insn d = elim (operand insn 0).kind [
  | OperandKind.register dst ↦
      Option.map (λ i. Map.insert dst i d)
        (f (get_register_interval d dst) (source_value reads_registers d (operand insn 1).kind))
  | OperandKind.memory base index disp ↦ some d
  | OperandKind.immediate v ↦ some d
  | OperandKind.other ↦ some d
]

abbrev pub move_immediate : OperandKind → OperandKind → IntervalDomain → IntervalDomain
move_immediate (OperandKind.register dst) (OperandKind.immediate v) d =
    Map.insert dst (constant (to_signed v)) d
move_immediate dst src d = d

abbrev pub clear_register : OperandKind → OperandKind → IntervalDomain → IntervalDomain
clear_register (OperandKind.register a) (OperandKind.register b) d =
    if reg_beq a b then Map.insert a (constant (pos 0)) d else d
clear_register a b d = d

-- The chain of mnemonics at the head of ApplyInstruction.
unfoldable pub transfer : Instruction → IntervalDomain → Option IntervalDomain
unfolding get_register_interval
transfer insn d = elim insn.mnemonic [
  | Mnemonic.mov ↦ some (move_immediate (operand insn 0).kind (operand insn 1).kind d)
  | Mnemonic.xor ↦ some (clear_register (operand insn 0).kind (operand insn 1).kind d)
  | Mnemonic.add ↦ update_register true Interval.add insn d
  | Mnemonic.sub ↦ update_register true Interval.sub insn d
  | Mnemonic.and ↦ update_register true (λ a b. some (Interval.and a b)) insn d
  | Mnemonic.shl ↦ update_register false Interval.shl insn d
  | Mnemonic.shr ↦ update_register false Interval.shr insn d
  | _ ↦ some d
]

-- The switch of the invalidation loop.
unfoldable pub is_tracked : Mnemonic → Bool
is_tracked Mnemonic.mov = true
is_tracked Mnemonic.xor = true
is_tracked Mnemonic.add = true
is_tracked Mnemonic.sub = true
is_tracked Mnemonic.and = true
is_tracked Mnemonic.shl = true
is_tracked Mnemonic.shr = true
is_tracked m = false

-- rax, rcx and rdx with their lower halves, which a constant zero protects.
unfoldable pub is_protected : Register → Bool
is_protected r =
    reg_beq r rax
    || (reg_beq r eax || (reg_beq r rcx || (reg_beq r ecx || (reg_beq r rdx || reg_beq r edx))))

unfoldable pub is_zero : Interval → Bool
unfolding is_constant
is_zero i = is_constant i && eqb_ℤ i.lo (pos 0)

unfoldable pub invalidate_register : Mnemonic → Register → IntervalDomain → IntervalDomain
unfolding is_tracked is_protected is_zero
invalidate_register m r d = elim (Map.find r d) [
  | none ↦ d
  | some i ↦ if is_zero i && is_protected r then d else if is_tracked m then d else Map.erase r d
]

unfoldable pub invalidate_operand : Mnemonic → Operand → IntervalDomain → IntervalDomain
unfolding invalidate_register
invalidate_operand m op d = elim op.kind [
  | OperandKind.register r ↦ if op.hidden || op.written then invalidate_register m r d else d
  | _ ↦ d
]

-- The loop over the operands: `n` of them to go, from `i` on.
unfoldable pub invalidate : ℕ → ℕ → Instruction → IntervalDomain → IntervalDomain
unfolding invalidate_operand
invalidate zero i insn d = d
invalidate (suc n) i insn d =
    invalidate n (suc i) insn (invalidate_operand insn.mnemonic (operand insn i) d)

unfoldable pub apply_instruction : Instruction → IntervalDomain → Option IntervalDomain
unfolding transfer invalidate
apply_instruction insn d = Option.map (invalidate insn.operand_count 0 insn) (transfer insn d)

pub data PredicateResult : Type 0 where
  unknown always_true always_false : PredicateResult

-- What a branch does where the tested register holds `val`.
unfoldable pub decide_branch : Mnemonic → ℤ → PredicateResult
decide_branch Mnemonic.jz val = if eqb_ℤ val (pos 0) then always_true else always_false
decide_branch Mnemonic.jnz val = if not (eqb_ℤ val (pos 0)) then always_true else always_false
decide_branch Mnemonic.js val = if ltb_ℤ val (pos 0) then always_true else always_false
decide_branch Mnemonic.jns val = if leb_ℤ (pos 0) val then always_true else always_false
decide_branch m val = unknown

-- `test reg, reg` and `cmp reg, imm`: the register.
unfoldable pub tested_register : Instruction → Option Register
tested_register prev = elim (operand prev 0).kind [
  | OperandKind.register r ↦ elim prev.mnemonic [
    | Mnemonic.test ↦ elim (operand prev 1).kind [
      | OperandKind.register q ↦ if reg_beq r q then some r else none
      | _ ↦ none
    ]
    | Mnemonic.cmp ↦ elim (operand prev 1).kind [ OperandKind.immediate v ↦ some r | _ ↦ none ]
    | _ ↦ none
  ]
  | _ ↦ none
]

unfoldable pub evaluate_branch : Instruction → Option Instruction → IntervalDomain → PredicateResult
unfolding decide_branch
evaluate_branch branch none d = unknown
evaluate_branch branch (some prev) d = elim (tested_register prev) [
  | none ↦ unknown
  | some reg ↦
      let i = get_register_interval d reg in
      if is_constant i then decide_branch branch.mnemonic i.lo else unknown
]

-- The state of AnalyzeBasicBlock: the function, the domain and the instruction before.
pub record State : Type 0 where
  pub function : Function
  pub domain : IntervalDomain
  pub previous : Option Instruction

abbrev pub record_predicate : ℕ → Bool → Function → Function
record_predicate address taken f = record f {
  has_opaque_predicates = true;
  opaque_predicate_addresses = Set.insert address f.opaque_predicate_addresses;
  opaque_predicate_results = Map.insert address taken f.opaque_predicate_results;
}

abbrev pub note_predicate : ℕ → PredicateResult → Function → Function
note_predicate address unknown f = f
note_predicate address always_true f = record_predicate address true f
note_predicate address always_false f = record_predicate address false f

unfoldable pub detect : Instruction → State → Function
unfolding evaluate_branch
detect insn s = elim insn.category [
  | Category.cond_br ↦
      note_predicate insn.address (evaluate_branch insn s.previous s.domain) s.function
  | _ ↦ s.function
]

-- The body of the loop; a state that is lost to undefined behaviour stays lost.
unfoldable pub step : Instruction → Option State → Option State
unfolding detect apply_instruction
step insn none = none
step insn (some s) =
    Option.map (λ d. record { function = detect insn s; domain = d; previous = some insn })
      (apply_instruction insn s.domain)

unfoldable pub analyze_basic_block :
    Map ℕ Instruction → BasicBlock → Function × IntervalDomain → Option (Function × IntervalDomain)
unfolding step walk_block
analyze_basic_block insns b (f, d) =
    Option.bind
      (walk_block insns step b.start b.end
        (some (record { function = f; domain = d; previous = none })))
      (Option.map (λ (s : State). (s.function, s.domain)))

-- The loop over the blocks, in their order in the function: the domain after one is the domain
-- before the next, whatever the edges are.
unfoldable pub analyze_blocks :
    Map ℕ Instruction
    → List BasicBlock
    → Function × IntervalDomain
    → Option (Function × IntervalDomain)
unfolding analyze_basic_block
analyze_blocks insns [] s = some s
analyze_blocks insns (b ∷ bs) s =
    Option.bind (analyze_basic_block insns b s) (analyze_blocks insns bs)

unfoldable pub analyze_function : Map ℕ Instruction → Function → Option Function
unfolding analyze_blocks
analyze_function insns f = Option.map (λ s. s.0) (analyze_blocks insns f.blocks (f, []))

-- Run, over the functions of the module.
unfoldable pub analyze_functions : Map ℕ Instruction → List Function → Option (List Function)
unfolding analyze_function
analyze_functions insns [] = some []
analyze_functions insns (f ∷ fs) =
    Option.bind (analyze_function insns f)
      (λ g. Option.map (λ gs. g ∷ gs) (analyze_functions insns fs))
