-- ===== src/Passes/Domain/Ends.antt =====
-- The end of the loops of the interval pass.
use re_wizard.Prelude.{
  ℕ, refl, ap, Bool, true, false, Option, none, some, List, [], ◌≡◌, ◌∙◌, ◌∷◌, nat_key,
}
use mathlib.Core.Option
use re_wizard.Prelude.Map
use re_wizard.Prelude.Map.{Map}
use re_wizard.Insn.{register_key, Mnemonic, OperandKind, Instruction, operand}
use re_wizard.Insn.Walk.{IsDecoded, walk_block-total, walk_block-inv_in}
use re_wizard.Units.BasicBlock.{BasicBlock}
use re_wizard.Units.Function.{Function}
use re_wizard.Passes.Interval
use re_wizard.Passes.Domain.{
  IntervalDomain, get_register_interval, source_value, move_immediate, clear_register,
  update_register, transfer, invalidate, apply_instruction, State, step, detect,
  analyze_basic_block, analyze_blocks, analyze_function,
}

-- The mnemonics whose effect on an interval can be undefined: a signed overflow, or a shift by a
-- negative count or by 64 or more.
abbrev pub may_overflow : Mnemonic → Bool
may_overflow Mnemonic.add = true
may_overflow Mnemonic.sub = true
may_overflow Mnemonic.shl = true
may_overflow Mnemonic.shr = true
may_overflow m = false

abbrev IsSome {ℓ} : {A : Type ℓ} → Option A → Type ℓ
IsSome {A = A} o = (a : A) × (o ≡ some a)

update_register-IsSome :
    (reads : Bool) (insn : Instruction) (d : IntervalDomain)
    → IsSome (update_register reads (λ a b. some (Interval.and a b)) insn d)
update_register-IsSome reads insn d = kinds (operand insn 0).kind
  where
    kinds :
        (k : OperandKind)
        → IsSome (elim k as (λ _. Option IntervalDomain) [
          | OperandKind.register dst ↦
              Option.map
                (λ i. Map.insert dst i d)
                (some (
                  Interval.and
                    (get_register_interval d dst)
                    (source_value reads d (operand insn 1).kind)))
          | OperandKind.memory base index disp ↦ some d
          | OperandKind.immediate v ↦ some d
          | OperandKind.other ↦ some d
        ])
    kinds (OperandKind.register dst) = (_, refl)
    kinds (OperandKind.memory base index disp) = (d, refl)
    kinds (OperandKind.immediate v) = (d, refl)
    kinds OperandKind.other = (d, refl)

transfer-IsSome :
    (insn : Instruction) (d : IntervalDomain)
    → may_overflow insn.mnemonic ≡ false
    → IsSome (transfer insn d)
unfolding transfer
transfer-IsSome insn d h = mnemonics insn.mnemonic h
  where
    mnemonics :
        (m : Mnemonic)
        → may_overflow m ≡ false
        → IsSome (elim m as (λ _. Option IntervalDomain) [
          | Mnemonic.mov ↦ some (move_immediate (operand insn 0).kind (operand insn 1).kind d)
          | Mnemonic.xor ↦ some (clear_register (operand insn 0).kind (operand insn 1).kind d)
          | Mnemonic.add ↦ update_register true Interval.add insn d
          | Mnemonic.sub ↦ update_register true Interval.sub insn d
          | Mnemonic.and ↦ update_register true (λ a b. some (Interval.and a b)) insn d
          | Mnemonic.shl ↦ update_register false Interval.shl insn d
          | Mnemonic.shr ↦ update_register false Interval.shr insn d
          | _ ↦ some d
        ])
    mnemonics Mnemonic.add k = absurd (cc)
    mnemonics Mnemonic.sub k = absurd (cc)
    mnemonics Mnemonic.shl k = absurd (cc)
    mnemonics Mnemonic.shr k = absurd (cc)
    mnemonics Mnemonic.and k = update_register-IsSome true insn d
    mnemonics m k = (_, refl)

apply_instruction-IsSome :
    (insn : Instruction) (d : IntervalDomain)
    → may_overflow insn.mnemonic ≡ false
    → IsSome (apply_instruction insn d)
unfolding apply_instruction
apply_instruction-IsSome insn d h =
    let (d', e) = transfer-IsSome insn d h in
    (invalidate insn.operand_count 0 insn d', rw (e, apply_instruction) refl)

step-IsSome :
    (insn : Instruction) (s : Option State)
    → may_overflow insn.mnemonic ≡ false
    → IsSome s
    → IsSome (step insn s)
unfolding step
step-IsSome insn none h (t, e) = absurd (cc)
step-IsSome insn (some s) h (t, e) =
    let (d, kept) = apply_instruction-IsSome insn s.domain h in
    (record { function = detect insn s; domain = d; previous = some insn }, rw (kept, step) refl)

-- None of the instructions of the table may overflow.
abbrev pub Calm : Map ℕ Instruction → Type 0
Calm insns =
    (a : ℕ) (insn : Instruction) → Map.find a insns ≡ some insn → may_overflow insn.mnemonic ≡ false

analyze_blocks-IsSome :
    (insns : Map ℕ Instruction) (bs : List BasicBlock) (s : Function × IntervalDomain)
    → IsDecoded insns
    → Calm insns
    → IsSome (analyze_blocks insns bs s)
unfolding analyze_blocks analyze_basic_block Option.bind
analyze_blocks-IsSome insns [] s d calm = (s, refl)
analyze_blocks-IsSome insns (b ∷ bs) s d calm =
    let start : Option State = some (record { function = s.0; domain = s.1; previous = none }) in
    let (r, ends) = walk_block-total insns step b.start b.end start d in
    let (t, e) =
      walk_block-inv_in insns step IsSome b.start b.end start r
        (λ a insn t here. step-IsSome insn t (calm a insn here))
        (record { function = s.0; domain = s.1; previous = none }, refl) ends in
    let (u, last) = analyze_blocks-IsSome insns bs (t.function, t.domain) d calm in
    (u, rw (ends ∙ ap some e) last)

-- On decoded instructions of which none is an `add`, `sub`, `shl` or `shr`, whose intervals can
-- overflow, the interval analysis of a function returns.
pub analyze_function-returns :
    (insns : Map ℕ Instruction) (f : Function)
    → IsDecoded insns
    → ((a : ℕ) (insn : Instruction)
        → Map.find a insns ≡ some insn
        → may_overflow insn.mnemonic ≡ false)
    → (g : Function) × (analyze_function insns f ≡ some g)
unfolding analyze_function
analyze_function-returns insns f d calm =
    let (r, e) = analyze_blocks-IsSome insns f.blocks (f, []) d calm in (r.0, rw e refl)
