-- ===== src/Passes/Domain/Branch.antt =====
-- EvaluateBranch against what the processor does: the flags that `test` and `cmp` leave, and the
-- conditional jumps that read them.
use mathlib.Core.Path.{ap₂}
use re_wizard.Prelude.{
  ℕ, refl, sym, ap, inl, inr, Bool, true, false, not, Option, none, some, arith, leb, Bool-cases,
  ◌+◌, ◌-◌, ◌%◌, ◌^◌, ◌<◌, ◌≡◌, ◌∙◌, ◌≢◌, ◌⊎◌, ◌==◌, nat_key,
}
use re_wizard.Prelude.Word.{word_mod}
use re_wizard.Prelude.Int.{ℤ, pos, negsuc, ◌≤ℤ◌, eq_of_parts}
use re_wizard.Insn.{
  Register, r64, r32, eip, register_key, Mnemonic, OperandKind, Instruction, operand,
}
use re_wizard.Passes.Interval.{Interval, constant, is_constant, to_pattern, to_signed, contains}
use re_wizard.Passes.Domain.{
  IntervalDomain, get_register_interval, PredicateResult, unknown, always_true, always_false,
  decide_branch, tested_register, evaluate_branch,
}

pub record Flags : Type 0 where
  pub zero_flag : Bool
  pub sign_flag : Bool

-- Whether an operation on the register has a 32-bit result.
abbrev pub is_narrow : Register → Bool
is_narrow (r32 n) = true
is_narrow eip = true
is_narrow q = false

-- The flags of a result that has 32 bits (true) or 64 (false): the sign is the highest of its bits.
abbrev pub flags_of : Bool → ℕ → Flags
flags_of true r = record { zero_flag = r % 2 ^ 32 == 0; sign_flag = leb (2 ^ 31) (r % 2 ^ 32) }
flags_of false r = record { zero_flag = r == 0; sign_flag = leb (2 ^ 63) r }

-- `test r, r` computes r & r, which is r; `cmp r, imm` computes r - imm.
abbrev pub flags_after : Bool → Mnemonic → OperandKind → ℕ → Flags
flags_after narrow Mnemonic.cmp (OperandKind.immediate v) r =
    flags_of narrow ((r + word_mod - v) % word_mod)
flags_after narrow m op r = flags_of narrow r

-- The signed values of a register with 32 bits (true) or 64 (false).
abbrev pub IsSigned : Bool → ℤ → Type 0
IsSigned true v = (negsuc (2 ^ 31 - 1) ≤ℤ v) × (v ≤ℤ pos (2 ^ 31 - 1))
IsSigned false v = (negsuc (2 ^ 63 - 1) ≤ℤ v) × (v ≤ℤ pos (2 ^ 63 - 1))

-- Whether a conditional jump is taken.
abbrev pub taken : Mnemonic → Flags → Option Bool
taken Mnemonic.jz f = some f.zero_flag
taken Mnemonic.jnz f = some (not f.zero_flag)
taken Mnemonic.js f = some f.sign_flag
taken Mnemonic.jns f = some (not f.sign_flag)
taken m f = none

-- What a predicate says of a jump.
abbrev pub says : PredicateResult → Option Bool
says unknown = none
says always_true = some true
says always_false = some false

-- The signed values of a general register, of 32 or of 64 bits. Of other registers nothing is said.
abbrev pub IsValueOf : Register → ℤ → Type 0
IsValueOf (r64 n) v = IsSigned false v
IsValueOf (r32 n) v = IsSigned true v
IsValueOf q v = ⊥

IsValueOf-IsSigned : (reg : Register) (v : ℤ) → IsValueOf reg v → IsSigned (is_narrow reg) v
IsValueOf-IsSigned (r64 n) v h = h
IsValueOf-IsSigned (r32 n) v h = h
IsValueOf-IsSigned q v h = absurd h

decide_branch-taken :
    (narrow : Bool) (m : Mnemonic) (v : ℤ)
    → IsSigned narrow v
    → says (decide_branch m v) ≡ taken m (flags_of narrow (to_pattern v))
unfolding decide_branch to_pattern
decide_branch-taken true Mnemonic.jz v h = ground arith
decide_branch-taken true Mnemonic.jnz v h = ground arith
decide_branch-taken true Mnemonic.js v h = ground arith
decide_branch-taken true Mnemonic.jns v h = ground arith
decide_branch-taken false Mnemonic.jz v h = ground arith
decide_branch-taken false Mnemonic.jnz v h = ground arith
decide_branch-taken false Mnemonic.js v h = ground arith
decide_branch-taken false Mnemonic.jns v h = ground arith
decide_branch-taken narrow m v h = refl

flags_after-eq :
    (narrow : Bool) (m : Mnemonic) (op : OperandKind) (r : ℕ)
    → (m ≡ Mnemonic.test) ⊎ (op ≡ OperandKind.immediate 0)
    → r < word_mod
    → flags_after narrow m op r ≡ flags_of narrow r
flags_after-eq narrow m op r (inl e) h = rw e refl
flags_after-eq narrow Mnemonic.cmp op r (inr e) h = rw e (ap (flags_of narrow) (omega (arith, h)))
flags_after-eq narrow m op r (inr e) h = refl

to_pattern-lt : (narrow : Bool) (v : ℤ) → IsSigned narrow v → to_pattern v < word_mod
unfolding to_pattern
to_pattern-lt true v h = ground arith
to_pattern-lt false v h = ground arith

constant-eq : (i : Interval) (v : ℤ) → is_constant i ≡ true → contains i v ≡ true → i.lo ≡ v
unfolding is_constant contains
constant-eq i v h k = ground (arith, eq_of_parts i.lo v)

-- Where the instruction before a branch is `test r, r`, or compares r with 0, and the signed value of
-- the register, a general one of 32 or of 64 bits, lies in its interval, a verdict on the branch is what the
-- processor does with the flags of a result of that width.
pub evaluate_branch_sound :
    (branch prev : Instruction) (d : IntervalDomain) (reg : Register) (v : ℤ)
    → tested_register prev ≡ some reg
    → (prev.mnemonic ≡ Mnemonic.test) ⊎ ((operand prev 1).kind ≡ OperandKind.immediate 0)
    → contains (get_register_interval d reg) v ≡ true
    → IsValueOf reg v
    → evaluate_branch branch (some prev) d ≢ unknown
    → says (evaluate_branch branch (some prev) d)
      ≡ taken branch.mnemonic
          (flags_after (is_narrow reg) prev.mnemonic (operand prev 1).kind (to_pattern v))
unfolding evaluate_branch
evaluate_branch_sound branch prev d reg v tested kind in_range value verdict =
    let width = IsValueOf-IsSigned reg v value in
    let i = get_register_interval d reg in
    elim (Bool-cases (is_constant i)) [
      | inr varies ↦ absurd (verdict (rw (tested, varies, evaluate_branch) refl))
      | inl fixed ↦
          let e : evaluate_branch branch (some prev) d ≡ decide_branch branch.mnemonic i.lo =
            rw (tested, fixed, evaluate_branch) refl in
          let f : i.lo ≡ v = constant-eq i v fixed in_range in
          let g =
            flags_after-eq (is_narrow reg) prev.mnemonic (operand prev 1).kind (to_pattern v) kind
              (to_pattern-lt (is_narrow reg) v width) in
          ap says (e ∙ ap (decide_branch branch.mnemonic) f)
          ∙ (decide_branch-taken (is_narrow reg) branch.mnemonic v width
              ∙ ap (taken branch.mnemonic) (sym g))
    ]

cmp_tested :
    (prev : Instruction) (reg : Register) (imm : ℕ)
    → prev.mnemonic ≡ Mnemonic.cmp
    → (operand prev 0).kind ≡ OperandKind.register reg
    → (operand prev 1).kind ≡ OperandKind.immediate imm
    → tested_register prev ≡ some reg
unfolding tested_register
cmp_tested prev reg imm cmp dst src = ground arith

evaluate-known :
    (branch prev : Instruction) (d : IntervalDomain) (reg : Register) (v : ℤ)
    → tested_register prev ≡ some reg
    → get_register_interval d reg ≡ constant v
    → evaluate_branch branch (some prev) d ≡ decide_branch branch.mnemonic v
unfolding evaluate_branch is_constant
evaluate-known branch prev d reg v tested known =
    rw (tested, evaluate_branch) (rw known (ground arith))

to_signed-ne :
    (narrow : Bool) (imm : ℕ)
    → 0 < imm
    → imm < word_mod
    → (decide_branch Mnemonic.jz (to_signed imm) ≡ always_false)
      × (taken Mnemonic.jz (
            flags_after narrow Mnemonic.cmp
              (OperandKind.immediate imm)
              (to_pattern (to_signed imm)))
          ≡ some true)
unfolding decide_branch to_signed to_pattern
to_signed-ne true imm h k = (ground arith, ground arith)
to_signed-ne false imm h k = (ground arith, ground arith)

-- The constant of a comparison is not read: where a register is known to hold the constant that it
-- is compared with, and that is not 0, a jump on equality is taken and the verdict is that it
-- never is.
pub evaluate_branch-cmp :
    (branch prev : Instruction) (d : IntervalDomain) (reg : Register) (imm : ℕ)
    → branch.mnemonic ≡ Mnemonic.jz
    → prev.mnemonic ≡ Mnemonic.cmp
    → (operand prev 0).kind ≡ OperandKind.register reg
    → (operand prev 1).kind ≡ OperandKind.immediate imm
    → get_register_interval d reg ≡ constant (to_signed imm)
    → 0 < imm
    → imm < word_mod
    → (evaluate_branch branch (some prev) d ≡ always_false)
      × (taken branch.mnemonic (
            flags_after
              (is_narrow reg)
              prev.mnemonic
              (operand prev 1).kind
              (to_pattern (to_signed imm)))
          ≡ some true)
evaluate_branch-cmp branch prev d reg imm jump cmp dst src known pos_imm small =
    let r = to_signed-ne (is_narrow reg) imm pos_imm small in
    (
      evaluate-known branch prev d reg (to_signed imm) (cmp_tested prev reg imm cmp dst src) known
          ∙ (ap (λ m. decide_branch m (to_signed imm)) jump ∙ r.0),
      ap₂ (λ m f. taken m f) jump
            (ap₂ (λ m k. flags_after (is_narrow reg) m k (to_pattern (to_signed imm))) cmp src)
          ∙ r.1,
    )
