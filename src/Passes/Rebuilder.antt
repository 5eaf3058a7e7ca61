-- ===== src/Passes/Rebuilder.antt =====
-- HandleCall, HandleBranch and HandleTrampoline of
-- ReWizardLib/source/Analysis/Passes/StaticControlFlowRebuilder.cpp: what the recursive descent does
-- at a call, at a branch, and at a function that starts with a jump. Of the loader it uses the
-- mapped range and the executable sections.
pub mod Edges
pub mod Handlers
pub mod Descend
pub mod Explorer
use re_wizard.Prelude.{
  ℕ, Bool, true, false, not, none, some, List, [], ltb, leb, ◌&&◌, ◌∷◌, ◌++◌, if◌then◌else◌,
  nat_key, string_key,
}
use text.Mathlib.Text.{◌==◌ as str_eq}
use re_wizard.Prelude.Set
use re_wizard.Prelude.Set.{Set}
use re_wizard.Prelude.Word.{add_word}
use re_wizard.Insn.{
  Register, no_register, rip, reg_beq, Mnemonic, Category, OperandKind, Operand, Instruction,
  operand,
}
use re_wizard.Xrefs.{add_xref}
use re_wizard.Units.BasicBlock.{BasicBlock, Name, plain, hexed, add_successor}
use re_wizard.Units.Function.{Function, add_call_site, set_end, add_basic_block, set_name}
use re_wizard.Units.Module.{Module, get_function_for_address}

pub record Loader : Type 0 where
  pub current_image_base : ℕ
  pub mapped_size : ℕ
  pub executable_sections : List (ℕ × ℕ)

abbrev pub image_end : Loader → ℕ
image_end loader = add_word loader.current_image_base loader.mapped_size

abbrev pub is_within_mapping : Loader → ℕ → Bool
is_within_mapping loader ptr = leb loader.current_image_base ptr && ltb ptr (image_end loader)

abbrev pub in_sections : List (ℕ × ℕ) → ℕ → Bool
in_sections [] addr = false
in_sections ((start, end) ∷ rest) addr =
    if leb start addr && ltb addr end then true else in_sections rest addr

abbrev pub is_executable_address : Loader → ℕ → Bool
is_executable_address loader addr = in_sections loader.executable_sections addr

-- The function and the block under construction, the instruction (whose flag the handlers set),
-- the queue of blocks to visit and the queue of functions to visit.
pub record Descent : Type 0 where
  pub in_module : Module
  pub function : Function
  pub block : BasicBlock
  pub insn : Instruction
  pub work : List ℕ
  pub function_work : List ℕ

-- AddCallSite with AddXref.
abbrev pub add_site : ℕ → ℕ → Descent → Descent
add_site pc target d = record d {
  function = add_call_site pc target d.function;
  in_module = record d.in_module {
    xref_manager = add_xref pc target "call" d.in_module.xref_manager;
  };
}

abbrev pub add_reference : ℕ → ℕ → Descent → Descent
add_reference pc target d = record d {
  in_module = record d.in_module {
    xref_manager = add_xref pc target "jump" d.in_module.xref_manager;
  };
}

abbrev pub indirect_call : ℕ → Descent → Descent
indirect_call pc d =
    let d' = add_site pc d.insn.indirect_value d in
    record d' {
      insn = record d'.insn { is_indirect = true };
      block = record d'.block { contains_indirect_calls = true };
      function = record d'.function { contains_indirect_calls = true };
    }

unfoldable pub handle_call : Loader → Set ℕ → ℕ → Descent → Descent
unfolding add_call_site add_xref
handle_call loader visited pc d =
    let next_pc = add_word pc d.insn.length in
    elim (operand d.insn 0).kind [
      | OperandKind.immediate v ↦
          let target = add_word next_pc v in
          let d' = add_site pc target d in
          if is_within_mapping loader target
            && not (Set.contains target visited)
            && is_executable_address loader target
          then record d' { function_work = d'.function_work ++ target ∷ [] }
          else d'
      | OperandKind.memory base index disp ↦
          if reg_beq base rip
          then add_site pc (add_word next_pc disp) d
          else if reg_beq base no_register && reg_beq index no_register
          then add_site pc disp d
          else indirect_call pc d
      | _ ↦ indirect_call pc d
    ]

abbrev pub is_uncond_br : Category → Bool
is_uncond_br Category.uncond_br = true
is_uncond_br c = false

abbrev pub is_cond_br : Category → Bool
is_cond_br Category.cond_br = true
is_cond_br c = false

-- A jump that is always taken, to a target in the image.
unfoldable pub handle_jump : Set ℕ → ℕ → ℕ → Descent → Descent
unfolding add_call_site add_xref get_function_for_address
handle_jump visited pc target d = elim (get_function_for_address d.in_module target) [
  | some existing ↦
      add_reference pc target (record d { function = add_call_site pc target d.function })
  | none ↦
      if Set.contains target visited
      then d
      else add_reference pc target (record d {
        work = d.work ++ target ∷ [];
        function_work = d.function_work ++ target ∷ [];
      })
]

abbrev pub enqueue : Set ℕ → ℕ → Descent → Descent
enqueue visited target d =
    if Set.contains target visited then d else record d { work = d.work ++ target ∷ [] }

abbrev pub indirect_jump : ℕ → Descent → Descent
indirect_jump pc d =
    let d' =
      add_reference pc d.insn.indirect_value
        (record d { function = add_call_site pc d.insn.indirect_value d.function }) in
    record d' {
      insn = record d'.insn { is_indirect = true };
      block = record d'.block { contains_indirect_jumps = true };
      function = record d'.function { contains_indirect_jumps = true };
    }

abbrev pub block_successor : ℕ → Descent → Descent
block_successor address d = record d { block = add_successor address d.block }

-- The first half of HandleBranch: the edge to the operand.
unfoldable pub branch_target_edge : Loader → Set ℕ → ℕ → Descent → Descent
unfolding handle_jump add_successor
branch_target_edge loader visited pc d = elim (operand d.insn 0).kind [
  | OperandKind.immediate v ↦
      let target = add_word (add_word pc d.insn.length) v in
      if is_within_mapping loader target && is_executable_address loader target
      then block_successor target (
          if is_uncond_br d.insn.category
          then handle_jump visited pc target d
          else add_reference pc target (enqueue visited target d))
      else d
  | OperandKind.other ↦ d
  | _ ↦ indirect_jump pc d
]

abbrev pub fallthrough_edge : ℕ → Descent → Descent
fallthrough_edge pc d =
    let next_pc = add_word pc d.insn.length in
    if is_cond_br d.insn.category then add_reference pc next_pc (block_successor next_pc d) else d

-- The end of the block and of the function, and the block handed to the function.
abbrev pub close_block : ℕ → Descent → Descent
close_block pc d =
    let b = record d.block { end = add_word pc d.insn.length; last_insn_addr = pc } in
    record d { block = b; function = add_basic_block b (set_end b.end b.last_insn_addr d.function) }

unfoldable pub handle_branch : Loader → Set ℕ → ℕ → Descent → Descent
unfolding branch_target_edge set_end add_basic_block
handle_branch loader visited pc d =
    close_block pc (fallthrough_edge pc (branch_target_edge loader visited pc d))

abbrev pub is_entrypoint : Name → Bool
is_entrypoint (plain t) = str_eq t "__entrypoint"
is_entrypoint (hexed prefix address) = false

-- The target of the jump, 0 when it is not known, and the marks of an indirect one.
abbrev pub trampoline_target : Descent → ℕ × Descent
trampoline_target d = elim (operand d.insn 0).kind [
  | OperandKind.immediate v ↦
      let target = add_word (add_word d.insn.address d.insn.length) v in
      (target, record d { function = add_call_site d.insn.address target d.function })
  | OperandKind.other ↦ (0, d)
  | _ ↦ (
    0,
    record d {
      insn = record d.insn { is_indirect = true };
      block = record d.block { contains_indirect_jumps = true };
      function = record d.function { contains_indirect_jumps = true };
    },
  )
]

-- A function that only jumps into the image is named after the target, but the entry point.
abbrev pub name_trampoline : Loader → ℕ → Function → Function
name_trampoline loader target f =
    if is_within_mapping loader target && not (is_entrypoint f.name)
    then set_name (hexed "j__" target) f
    else f

abbrev pub close_trampoline : Loader → ℕ × Descent → Descent
close_trampoline loader (target, d) =
    let e = close_block d.insn.address d in
    record e {
      function = record (name_trampoline loader target e.function) { is_trampoline = true };
    }

unfoldable pub handle_trampoline : Loader → Descent → Descent × Bool
unfolding add_call_site set_end add_basic_block set_name
handle_trampoline loader d =
    if is_uncond_br d.insn.category
    then (close_trampoline loader (trampoline_target d), true)
    else (d, false)
