-- ===== src/Passes/Rebuilder/Descend.antt =====
-- StaticControlFlowRebuilder::AnalyzeFunction of
-- ReWizardLib/source/Analysis/Passes/StaticControlFlowRebuilder.cpp, and DisassembleSingle of
-- ReWizardLib/source/Disassembler/Disassembler.cpp. The decoder is a parameter: what Zydis decodes
-- at an address, if anything. The log is not modelled.
use re_wizard.Prelude.{
  ℕ, zero, suc, Bool, true, false, not, Option, none, some, List, [], ltb, leb, ◌+◌, ◌&&◌, ◌||◌,
  ◌∷◌, ◌==◌, if◌then◌else◌, nat_key,
}
pub mod Rounds
pub mod Ends
pub mod Records
pub mod Visits
use mathlib.Core.Option
use re_wizard.Prelude.Map
use re_wizard.Prelude.Set
use re_wizard.Prelude.Set.{Set}
use re_wizard.Prelude.Word.{add_word}
use re_wizard.Insn.{
  Register, rsp, rbp, esp, ebp, reg_beq, Mnemonic, Category, OperandKind, Operand, Instruction,
  operand,
}
use re_wizard.Units.BasicBlock
use re_wizard.Units.BasicBlock.{BasicBlock}
use re_wizard.Units.Function.{Function, set_start, set_end, add_basic_block}
use re_wizard.Units.Function.Graph.{normalize_basic_blocks}
use re_wizard.Units.Module.{Module, add_instruction}
use re_wizard.Passes.Rebuilder.{
  Loader, Descent, image_end, handle_call, handle_branch, handle_trampoline, is_uncond_br,
}

-- The variables of AnalyzeFunction, with the context's set of visited addresses. `last` is the
-- address of lastInsn, which is set whenever there is a block.
pub record Sweep : Type 0 where
  pub in_module : Module
  pub visited : Set ℕ
  pub function : Function
  pub block : Option BasicBlock
  pub last : ℕ
  pub work : List ℕ
  pub function_work : List ℕ
  pub insn_count : ℕ
  pub stack_mod_count : ℕ

-- DisassembleSingle
abbrev pub disassemble : (ℕ → Option Instruction) → ℕ → Option Instruction
disassemble decode pc =
    Option.map (λ (insn : Instruction). record insn { address = pc }) (decode pc)

-- What a round of the inner loop ends with: the end of the loop, or the next address.
pub data Round : Type 0 where
  halt : Sweep → Round
  next : ℕ → Sweep → Round

abbrev pub is_stack_register : Register → Bool
is_stack_register r = reg_beq r rsp || reg_beq r rbp || reg_beq r esp || reg_beq r ebp

abbrev pub is_stack_operand : Operand → Bool
is_stack_operand op = elim op.kind [ OperandKind.register r ↦ is_stack_register r | _ ↦ false ]

abbrev pub is_wide_immediate : Operand → Bool
is_wide_immediate op = elim op.kind [ OperandKind.immediate v ↦ leb 32 op.size | _ ↦ false ]

abbrev pub is_push_or_pop : Mnemonic → Bool
is_push_or_pop Mnemonic.push = true
is_push_or_pop Mnemonic.pop = true
is_push_or_pop m = false

-- What an instruction adds to localStackModCount.
abbrev pub stack_mods : Instruction → ℕ
stack_mods insn =
    (if is_push_or_pop insn.mnemonic then 1 else 0)
    + (if leb 2 insn.operand_count_visible
          && (is_stack_operand (operand insn 0) && is_wide_immediate (operand insn 1))
        then 1
        else 0)

-- Where nothing decodes, an open block ends before it.
abbrev pub cut_block : ℕ → Sweep → Sweep
cut_block pc s = elim s.block [
  | none ↦ s
  | some b ↦ record s {
    block = some (record b { end = pc; last_insn_addr = s.last });
    function = set_end pc s.last s.function;
  }
]

-- The handlers set the flag of the instruction itself, which the module holds when it is the first
-- one decoded at its address.
abbrev pub write_back : Bool → Instruction → Module → Module
write_back held insn m =
    if held then record m { instructions = Map.insert insn.address insn m.instructions } else m

abbrev pub is_known : ℕ → Module → Bool
is_known address m = elim (Map.find address m.instructions) [ none ↦ false | some insn ↦ true ]

-- The block that the instruction belongs to, which is a new one where none is open.
abbrev pub open_block : ℕ → Sweep → BasicBlock
open_block pc s = elim s.block [ none ↦ BasicBlock.create pc | some b ↦ b ]

abbrev pub descent_of : ℕ → Instruction → Sweep → Descent
descent_of pc insn s = record {
  in_module = add_instruction insn s.in_module;
  function = s.function;
  block = open_block pc s;
  insn = insn;
  work = s.work;
  function_work = s.function_work;
}

-- What the handlers leave, with the block that is open afterwards.
abbrev pub resume : Bool → Option BasicBlock → Descent → Sweep → Sweep
resume held block d s = record s {
  in_module = write_back held d.insn d.in_module;
  function = d.function;
  block = block;
  work = d.work;
  function_work = d.function_work;
}

-- The end of a block at a `ret`.
abbrev pub close_return : Instruction → Descent → Descent
close_return insn d =
    let b = record d.block {
      end = add_word insn.address insn.length;
      last_insn_addr = insn.address;
    } in
    record d { block = b; function = add_basic_block b (set_end b.end b.last_insn_addr d.function) }

abbrev pub advance : ℕ → Instruction → Sweep → Round
advance pc insn s = next (add_word pc insn.length) (record s { last = insn.address })

-- The part of a round that depends on the category.
abbrev pub dispatch : Loader → ℕ → Instruction → Bool → Descent → Sweep → Round
unfolding handle_call handle_branch set_end add_basic_block
dispatch loader pc insn held d s = elim insn.category [
  | Category.call ↦
      let d' = handle_call loader s.visited pc d in
      advance pc insn (resume held (some d'.block) d' s)
  | Category.cond_br ↦ advance pc insn (resume held none (handle_branch loader s.visited pc d) s)
  | Category.uncond_br ↦ halt (resume held none (handle_branch loader s.visited pc d) s)
  | Category.ret ↦ halt (resume held none (close_return insn d) s)
  | Category.other n ↦ advance pc insn (resume held (some d.block) d s)
]

-- The part of a round behind the decoding.
unfoldable pub decoded : Loader → ℕ → Instruction → Sweep → Round
unfolding handle_call handle_branch handle_trampoline set_end add_basic_block add_instruction
decoded loader pc insn s =
    let held = not (is_known insn.address s.in_module) in
    let d = descent_of pc insn s in
    let s' = record s {
      visited = Set.insert insn.address s.visited;
      insn_count = suc s.insn_count;
    } in
    if s.insn_count == 0 && (handle_trampoline loader d).1
    then halt (resume held none (handle_trampoline loader d).0 s')
    else dispatch loader pc insn held d
        (record s' { stack_mod_count = s.stack_mod_count + stack_mods insn })

unfoldable pub round : Loader → (ℕ → Option Instruction) → ℕ → Sweep → Round
unfolding decoded set_end
round loader decode pc s =
    if Set.contains pc s.visited
    then halt s
    else if ltb pc loader.current_image_base || leb (image_end loader) pc
    then halt s
    else elim (disassemble decode pc) [
      | none ↦ halt (cut_block pc s)
      | some insn ↦ decoded loader pc insn s
    ]

-- The inner loop; `none` means that the fuel ran out.
unfoldable pub explore_block : ℕ → Loader → (ℕ → Option Instruction) → ℕ → Sweep → Option Sweep
unfolding round
explore_block zero loader decode pc s = none
explore_block (suc fuel) loader decode pc s = elim (round loader decode pc s) [
  | halt s' ↦ some s'
  | next pc' s' ↦ explore_block fuel loader decode pc' s'
]

-- `if (bb) function->AddBasicBlock(std::move(bb));`
abbrev pub add_open_block : Sweep → Sweep
unfolding add_basic_block
add_open_block s = elim s.block [
  | none ↦ s
  | some b ↦ record s { block = none; function = add_basic_block b s.function }
]

-- The outer loop.
unfoldable pub explore : ℕ → Loader → (ℕ → Option Instruction) → Sweep → Option Sweep
unfolding explore_block add_basic_block
explore zero loader decode s = none
explore (suc fuel) loader decode s = elim s.work [
  | [] ↦ some s
  | pc ∷ rest ↦
      let s' = record s { work = rest; block = none } in
      if Set.contains pc s.visited
      then explore fuel loader decode s'
      else Option.bind (explore_block (suc loader.mapped_size) loader decode pc s')
          (λ t. explore fuel loader decode (add_open_block t))
]

unfoldable pub analyze_function :
    Loader → (ℕ → Option Instruction) → ℕ → Module → Set ℕ → Function → List ℕ → Option Sweep
unfolding explore set_start normalize_basic_blocks
analyze_function loader decode start m visited f function_work =
    Option.bind
      (explore (2 + loader.mapped_size) loader decode (record {
        in_module = m;
        visited = visited;
        function = set_start start f;
        block = none;
        last = 0;
        work = start ∷ [];
        function_work = function_work;
        insn_count = 0;
        stack_mod_count = 0;
      }))
      (λ s. Option.map (λ g. record s { function = g }) (normalize_basic_blocks s.function))
