-- ===== src/Tests/Values.antt =====
-- The theorems on the values of registers, at sample code.
use re_wizard.Prelude.{
  ℕ, refl, inl, inr, true, false, some, [], arith, Bool-cases, ◌+◌, ◌<◌, ◌≡◌, ◌≢◌, ◌∷◌, ◌==◌,
  nat_key, pair_key,
}
use re_wizard.Prelude.Int.{pos, ◌+ℤ◌, ◌≤ℤ◌}
use mathlib.Core.Path.{subst}
use mathlib.Core.Option
use mathlib.Core.Option.{some-injective}
use re_wizard.Prelude.Map
use re_wizard.Prelude.Map.{Map}
use re_wizard.Prelude.Set
use re_wizard.Prelude.Word.{word_mod}
use re_wizard.Insn.{rax, register_key, Instruction}
use re_wizard.Insn.Walk.{IsDecoded}
use re_wizard.Units.Function.{Function}
use re_wizard.Passes.Interval
use re_wizard.Passes.Interval.{Interval, contains, join, constant, top, range, int64_min, int64_max}
use re_wizard.Passes.Interval.Sound.{add_sound}
use re_wizard.Passes.Domain.{
  IntervalDomain, evaluate_branch, PredicateResult, unknown, always_true, always_false,
}
use re_wizard.Passes.Domain
use re_wizard.Passes.Domain.Branch.{says, evaluate_branch_sound, evaluate_branch-cmp}
use re_wizard.Passes.Domain.Ends.{may_overflow, Calm, analyze_function-returns}
use re_wizard.Passes.Domain.Flags.{IsFlagged, SameCode, analyze_function-IsFlagged}
use re_wizard.Passes.DataFlow
use re_wizard.Passes.DataFlow.{Image, RegisterState, RegisterFile, known_at}
use re_wizard.Passes.DataFlow.Made.{Made}
use re_wizard.Tests.{function_of, block_of, mov_rax_5, test_rax, cmp_rax_5, jz_8}

abbrev low : Interval
low = range (pos 1) (pos 4)

abbrev high : Interval
high = range (pos 6) (pos 9)

add_sound_example :
    (contains (range (pos 7) (pos 13)) (pos 2 +ℤ pos 8) ≡ true)
    × (int64_min ≤ℤ (pos 2 +ℤ pos 8))
    × ((pos 2 +ℤ pos 8) ≤ℤ int64_max)
unfolding contains Interval.add ◌+ℤ◌
add_sound_example = add_sound low high (range (pos 7) (pos 13)) (pos 2) (pos 8) refl refl refl

abbrev rax_zero : IntervalDomain
rax_zero = (rax, constant (pos 0)) ∷ []

abbrev rax_five : IntervalDomain
rax_five = (rax, constant (pos 5)) ∷ []

apart : always_true ≢ unknown
apart h = absurd (cc)

evaluate_branch_sound_example : says (evaluate_branch jz_8 (some test_rax) rax_zero) ≡ some true
unfolding evaluate_branch Domain.tested_register contains Domain.get_register_interval Map.find
    Interval.is_constant Domain.decide_branch Interval.to_pattern
evaluate_branch_sound_example =
    evaluate_branch_sound jz_8 test_rax rax_zero rax (pos 0) refl (inl refl) refl
      (omega arith, omega arith) apart

evaluate_branch-cmp_example : evaluate_branch jz_8 (some cmp_rax_5) rax_five ≡ always_false
unfolding Domain.get_register_interval Map.find Interval.to_signed
evaluate_branch-cmp_example =
    (evaluate_branch-cmp jz_8 cmp_rax_5 rax_five rax 5 refl refl refl refl refl (omega arith)
      (omega arith)).0

abbrev code : Map ℕ Instruction
code = (16, mov_rax_5) ∷ (20, test_rax) ∷ (24, jz_8) ∷ []

abbrev straight : Function
straight = record (function_of (block_of 16 28 [] ∷ [])) { call_sites = (40, 48) ∷ [] }

straight-IsFlagged : IsFlagged straight
unfolding Set.contains Map.find
straight-IsFlagged = record { agree = λ a. refl; raised = λ a. refl }

pub IsDecoded-cons :
    (insn : Instruction) (rest : Map ℕ Instruction)
    → 0 < insn.length
    → insn.address + insn.length < word_mod
    → IsDecoded rest
    → IsDecoded ((insn.address, insn) ∷ rest)
unfolding Map.find
IsDecoded-cons insn rest p q d = record {
  address = λ a i h. ground (arith, d.address a i);
  positive = λ a i h. ground (arith, d.positive a i);
  fits = λ a i h. ground (arith, d.fits a i);
}

pub none-IsDecoded : IsDecoded []
unfolding Map.find
none-IsDecoded = record {
  address = λ a i h. absurd (cc);
  positive = λ a i h. absurd (cc);
  fits = λ a i h. absurd (cc);
}

code-IsDecoded : IsDecoded code
code-IsDecoded = IsDecoded-cons mov_rax_5 _ (omega arith) (omega arith) (
    IsDecoded-cons test_rax _ (omega arith) (omega arith)
      (IsDecoded-cons jz_8 _ (omega arith) (omega arith) none-IsDecoded))

Calm-cons :
    (insn : Instruction) (rest : Map ℕ Instruction)
    → may_overflow insn.mnemonic ≡ false
    → Calm rest
    → Calm ((insn.address, insn) ∷ rest)
unfolding Map.find
Calm-cons insn rest fits calm a i h = elim (Bool-cases (insn.address == a)) [
  | inl same ↦
      let e : insn ≡ i = some-injective insn i (rw same at h) in
      subst (λ x. may_overflow x.mnemonic ≡ false) e fits
  | inr other ↦ calm a i (rw other at h)
]

none-Calm : Calm []
unfolding Map.find
none-Calm a i h = absurd (cc)

code-Calm : Calm code
code-Calm = Calm-cons mov_rax_5 _ refl (Calm-cons test_rax _ refl (Calm-cons jz_8 _ refl none-Calm))

analyze_function-returns_example : (g : Function) × (Domain.analyze_function code straight ≡ some g)
analyze_function-returns_example = analyze_function-returns code straight code-IsDecoded code-Calm

abbrev flagged : Function
flagged = record straight {
  opaque_predicate_addresses = 24 ∷ [];
  opaque_predicate_results = (24, false) ∷ [];
  has_opaque_predicates = true;
}

analysed : Domain.analyze_function code straight ≡ some flagged
unfolding Domain.analyze_function Option.bind Map.find Domain.tested_register Map.insert
    Interval.to_signed Set.insert
analysed = refl

analyze_function-IsFlagged_example : IsFlagged flagged × SameCode straight flagged
analyze_function-IsFlagged_example =
    analyze_function-IsFlagged code straight flagged straight-IsFlagged analysed

abbrev image : Image
image = record { is_within_mapping = λ a. false; read_word = λ a. 0 }

abbrev other_image : Image
other_image = record { is_within_mapping = λ a. true; read_word = λ a. 7 }

abbrev five : RegisterState
five = record { def_address = 16; known_value = 5; is_known = true }

resolved : DataFlow.analyze_function image straight code ≡ some (straight, code)
unfolding DataFlow.analyze_function Option.bind Map.find DataFlow.resolved_target
resolved = refl
