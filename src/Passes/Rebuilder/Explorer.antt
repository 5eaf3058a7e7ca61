-- ===== src/Passes/Rebuilder/Explorer.antt =====
-- CollectEntryPoints, StaticPathExplorer, LinearSweepFallback, Run and ReAnalyzeFrom of
-- ReWizardLib/source/Analysis/Passes/StaticControlFlowRebuilder.cpp, with reAnalyzeAll = false,
-- which is what both callers pass. The decoder is a parameter, and so are the entry point and the
-- preferred base of the image, which LIEF reads.
pub mod Ends
pub mod Starts
use re_wizard.Prelude.{
  ℕ, zero, suc, Bool, true, false, not, Option, none, some, List, [], ltb, length, is_empty, ◌+◌,
  ◌-◌, ◌*◌, ◌&&◌, ◌||◌, ◌∷◌, ◌++◌, ◌==◌, if◌then◌else◌, nat_key, pair_key, string_key,
}
use mathlib.Core.Option
use re_wizard.Prelude.Set
use re_wizard.Prelude.Set.{Set}
use re_wizard.Prelude.Word.{add_word, sub_word}
use re_wizard.Prelude.Count.{unseen}
use re_wizard.Insn.{
  Register, rbp, ebp, rsp, esp, reg_beq, Mnemonic, OperandKind, Operand, Instruction, operand,
}
use re_wizard.Symbols.Table.{ExportedSymbol}
use re_wizard.Units.BasicBlock.{plain}
use re_wizard.Units.Function.{Function, create, set_start, mark_for_hybrid_analysis}
use re_wizard.Units.Module.{Module, add_function, get_function_for_address}
use re_wizard.Passes.Rebuilder.{Loader, is_within_mapping, is_executable_address}
use re_wizard.Passes.Rebuilder.Descend.{Sweep, disassemble, analyze_function}

-- LIEF::Binary
pub record Binary : Type 0 where
  pub entrypoint : ℕ
  pub imagebase : ℕ

-- The context's module and set of visited addresses, and the queue of functions.
pub record Explorer : Type 0 where
  pub in_module : Module
  pub visited : Set ℕ
  pub function_work : List ℕ

-- The loop over the exports.
abbrev pub collect_exports : Loader → List ExportedSymbol → Set ℕ → Set ℕ
collect_exports loader [] entries = entries
collect_exports loader (exp ∷ exports) entries = collect_exports loader exports (
    if not (exp.address == 0)
      && (is_within_mapping loader exp.address && is_executable_address loader exp.address)
    then Set.insert exp.address entries
    else entries)

unfoldable pub collect_entry_points : Loader → Binary → Module → Set ℕ
collect_entry_points loader binary m =
    let ep =
      if not (binary.imagebase == loader.current_image_base)
      then add_word (sub_word binary.entrypoint binary.imagebase) loader.current_image_base
      else binary.entrypoint in
    collect_exports loader m.symbol_table.exports
      (if is_executable_address loader ep then Set.insert ep [] else [])

abbrev pub is_in_function : Module → ℕ → Bool
unfolding get_function_for_address
is_in_function m address = elim (get_function_for_address m address) [
  | none ↦ false
  | some i ↦ true
]

-- The loop over the call sites of a function.
unfoldable pub enqueue_callees : Loader → Module → Set ℕ → List (ℕ × ℕ) → List ℕ → List ℕ
unfolding get_function_for_address
enqueue_callees loader m visited [] queue = queue
enqueue_callees loader m visited ((src, dest) ∷ sites) queue =
    enqueue_callees loader m visited sites (
      if not (dest == 0) && not (Set.contains dest visited)
      then if is_within_mapping loader dest && not (is_in_function m dest)
        then queue ++ dest ∷ []
        else queue
      else queue)

-- A new function at `pc`: what is known of it is marked by `mark`, which sees the number of its
-- instructions.
unfoldable pub start_function :
    Loader → (ℕ → Option Instruction) → (ℕ → Function → Function) → ℕ → Explorer → Option Explorer
unfolding set_start analyze_function add_function enqueue_callees
start_function loader decode mark pc e =
    let fn = record (set_start pc (create (plain ""))) { end = pc } in
    Option.map
      (λ (s : Sweep).
        let f = mark s.insn_count s.function in
        record {
          in_module = add_function f s.in_module;
          visited = s.visited;
          function_work = enqueue_callees loader s.in_module s.visited f.call_sites s.function_work;
        })
      (analyze_function loader decode pc e.in_module e.visited fn e.function_work)

-- The loop over the queue of functions; `allowed` is the test before a function is started.
unfoldable pub drain :
    ℕ
    → Loader
    → (ℕ → Option Instruction)
    → (ℕ → Bool)
    → (ℕ → Function → Function)
    → Explorer
    → Option Explorer
unfolding start_function get_function_for_address
drain zero loader decode allowed mark e = none
drain (suc fuel) loader decode allowed mark e = elim e.function_work [
  | [] ↦ some e
  | pc ∷ rest ↦
      let e' = record e { function_work = rest } in
      if Set.contains pc e.visited || is_in_function e.in_module pc || not (allowed pc)
      then drain fuel loader decode allowed mark e'
      else Option.bind (start_function loader decode mark pc e')
          (λ t. drain fuel loader decode allowed mark t)
]

-- Enough rounds: each address that is visited brings at most two entries into the queue.
abbrev pub drain_fuel : Loader → Explorer → ℕ
drain_fuel loader e =
    suc (length e.function_work + 2 * unseen loader.current_image_base loader.mapped_size e.visited)

-- The marks of StaticPathExplorer.
unfoldable pub mark_function : Bool → ℕ → Function → Function
unfolding mark_for_hybrid_analysis
mark_function bypass_heur insn_count f =
    if bypass_heur
    then mark_for_hybrid_analysis f
    else if not (insn_count == 0) && (f.contains_indirect_calls || f.contains_indirect_jumps)
    then mark_for_hybrid_analysis f
    else f

abbrev pub is_frame_pointer : Operand → Bool
is_frame_pointer op = elim op.kind [
  | OperandKind.register r ↦ reg_beq r rbp || reg_beq r ebp
  | _ ↦ false
]

abbrev pub is_stack_pointer : Operand → Bool
is_stack_pointer op = elim op.kind [
  | OperandKind.register r ↦ reg_beq r rsp || reg_beq r esp
  | _ ↦ false
]

abbrev pub is_immediate : Operand → Bool
is_immediate op = elim op.kind [ OperandKind.immediate v ↦ true | _ ↦ false ]

-- push rbp, mov rbp, rsp, and sub rsp, imm
abbrev pub is_prologue : Instruction → Bool
is_prologue insn = elim insn.mnemonic [
  | Mnemonic.push ↦ is_frame_pointer (operand insn 0)
  | Mnemonic.mov ↦ is_frame_pointer (operand insn 0) && is_stack_pointer (operand insn 1)
  | Mnemonic.sub ↦ is_stack_pointer (operand insn 0) && is_immediate (operand insn 1)
  | _ ↦ false
]

-- The sweep over a section; `none` means that the fuel ran out.
unfoldable pub sweep_section :
    ℕ → Loader → (ℕ → Option Instruction) → ℕ → ℕ → Explorer → Option Explorer
unfolding get_function_for_address
sweep_section zero loader decode addr end e = if ltb addr end then none else some e
sweep_section (suc fuel) loader decode addr end e =
    if ltb addr end
    then if Set.contains addr e.visited
      then sweep_section fuel loader decode (add_word addr 1) end e
      else elim (disassemble decode addr) [
        | none ↦ sweep_section fuel loader decode (add_word addr 1) end e
        | some insn ↦ sweep_section fuel loader decode (add_word addr insn.length) end (
            if is_prologue insn
              && (not (is_in_function e.in_module addr) && is_executable_address loader addr)
            then record e { function_work = e.function_work ++ addr ∷ [] }
            else e)
      ]
    else some e

unfoldable pub sweep_sections :
    Loader → (ℕ → Option Instruction) → List (ℕ × ℕ) → Explorer → Option Explorer
unfolding sweep_section
sweep_sections loader decode [] e = some e
sweep_sections loader decode ((start, end) ∷ sections) e =
    Option.bind (sweep_section (end - start) loader decode start end e)
      (sweep_sections loader decode sections)

unfoldable pub linear_sweep_fallback :
    Loader → (ℕ → Option Instruction) → Explorer → Option Explorer
unfolding sweep_sections drain
linear_sweep_fallback loader decode e =
    Option.bind (sweep_sections loader decode loader.executable_sections e)
      (λ t. drain (drain_fuel loader t) loader decode (λ pc. true) (λ n f. f) t)

-- The queue at the start.
abbrev pub first_work : Loader → Binary → ℕ → Module → List ℕ
unfolding collect_entry_points
first_work loader binary from_address m =
    if is_empty m.functions
    then collect_entry_points loader binary m
    else if not (from_address == 0)
    then from_address ∷ []
    else []

unfoldable pub static_path_explorer :
    Loader → (ℕ → Option Instruction) → Binary → ℕ → Bool → Module → Set ℕ → Option Explorer
unfolding drain linear_sweep_fallback mark_function collect_entry_points
static_path_explorer loader decode binary from_address bypass_heur m visited =
    let e : Explorer = record {
      in_module = m;
      visited = visited;
      function_work = first_work loader binary from_address m;
    } in
    Option.bind
      (drain (drain_fuel loader e) loader decode (is_executable_address loader)
        (mark_function bypass_heur) e)
      (linear_sweep_fallback loader decode)

unfoldable pub re_analyze_from :
    Loader → (ℕ → Option Instruction) → Binary → ℕ → Module → Set ℕ → Option Explorer
unfolding static_path_explorer
re_analyze_from loader decode binary address m visited =
    if address == 0
    then some (record { in_module = m; visited = visited; function_work = [] })
    else static_path_explorer loader decode binary address false m visited

unfoldable pub run : Loader → (ℕ → Option Instruction) → Binary → Module → Set ℕ → Option Explorer
unfolding static_path_explorer
run loader decode binary m visited = static_path_explorer loader decode binary 0 false m visited
