-- ===== src/Tests/Descents.antt =====
-- The theorems on the descent, at an image with one function of two instructions.
use re_wizard.Prelude.{
  ℕ, refl, sym, inl, inr, true, false, Option, none, some, [], arith, Bool-cases, length, keep, ◌+◌,
  ◌≤◌, ◌≡◌, ◌⊎◌, ◌∷◌, ◌==◌, if◌then◌else◌, nat_key, pair_key, string_key,
}
use mathlib.Core.Option
use mathlib.Core.Option.{some-injective, none-ne-some}
use re_wizard.Prelude.Set
use re_wizard.Prelude.Set.{Set, contains}
use re_wizard.Insn.{Mnemonic, Category, Instruction}
use re_wizard.Symbols.Table
use re_wizard.Xrefs
use re_wizard.Prelude.Map
use re_wizard.Units.BasicBlock
use re_wizard.Units.Function.Lookup.{block_covering}
use re_wizard.Units.BasicBlock.{BasicBlock, plain, hexed}
use re_wizard.Units.Function.{Function, create}
use re_wizard.Units.Module.{Module}
use re_wizard.Passes.Rebuilder.{Loader}
use re_wizard.Passes.Rebuilder.Descend.{Sweep, analyze_function, explore, is_known}
use re_wizard.Passes.Rebuilder.Descend.Rounds.{left}
use re_wizard.Passes.Rebuilder.Descend.Ends.{analyze_function-ends}
use re_wizard.Passes.Rebuilder.Descend.Visits.{Decodable, analyze_function-visits}
use re_wizard.Passes.Rebuilder.Explorer.{Binary, Explorer, static_path_explorer}
use re_wizard.Passes.Rebuilder.Explorer.Ends.{Decodes, static_path_explorer-total}
use re_wizard.Tests.{insn_of, push_rcx}

abbrev pub loader : Loader
loader = record { current_image_base = 16; mapped_size = 8; executable_sections = (16, 24) ∷ [] }

abbrev ret_insn : Instruction
ret_insn = insn_of 20 (Mnemonic.other 1) Category.ret []

abbrev pub code : ℕ → Option Instruction
code a = if a == 16 then some push_rcx else if a == 20 then some ret_insn else none

abbrev pub binary : Binary
binary = record { entrypoint = 16; imagebase = 16 }

abbrev pub blank : Module
blank = record {
  instructions = [];
  functions = [];
  function_by_start = [];
  symbol_table = Table.empty;
  xref_manager = Xrefs.empty;
}

pub code-Decodes : Decodes code
code-Decodes a insn h = elim (Bool-cases (a == 16)) [
  | inl first ↦
      let e : push_rcx ≡ insn = some-injective push_rcx insn (rw (first, code) at h) in
      rw (sym e) (omega arith, omega arith)
  | inr later ↦ elim (Bool-cases (a == 20)) [
    | inl second ↦
        let e : ret_insn ≡ insn = some-injective ret_insn insn (rw (later, second, code) at h) in
        rw (sym e) (omega arith, omega arith)
    | inr none_there ↦ absurd (none-ne-some insn (rw (later, none_there, code) at h))
  ]
]

static_path_explorer-total_example :
    (t : Explorer) × (static_path_explorer loader code binary 0 false blank [] ≡ some t)
static_path_explorer-total_example =
    static_path_explorer-total loader code binary 0 false blank [] code-Decodes (omega arith, tt)

abbrev fn : Function
fn = create (plain "f")

analyze_function-ends_example :
    (t : Sweep) × (analyze_function loader code 16 blank [] fn [] ≡ some t)
    × (length t.function_work + left loader t.visited ≤ 0 + left loader [])
    × (length t.function.call_sites + left loader t.visited ≤ 0 + left loader [])
analyze_function-ends_example = analyze_function-ends loader code 16 blank [] fn []

abbrev body : BasicBlock
body = record {
  name = hexed "loc_" 16;
  start = 16;
  end = 24;
  last_insn_addr = 20;
  contains_indirect_calls = false;
  contains_indirect_jumps = false;
  successors = [];
  predecessors = [];
}

abbrev swept : Sweep
swept = record {
  in_module = record blank {
    instructions = (16, record push_rcx { address = 16 }) ∷ (20, ret_insn) ∷ [];
  };
  visited = 16 ∷ 20 ∷ [];
  function = record fn {
    start = 16;
    end = 24;
    last_insn_addr = 20;
    blocks = body ∷ [];
    graph = record { vertices = 1; edges = [] };
  };
  block = none;
  last = 16;
  work = [];
  function_work = [];
  insn_count = 2;
  stack_mod_count = 1;
}

analyze_function-visits_example :
    (contains {K = ℕ} 20 [] ≡ true)
    ⊎ (Decodable loader code 20 × (is_known 20 swept.in_module ≡ true))
unfolding analyze_function explore contains Set.insert Option.bind keep BasicBlock.create
    block_covering Map.find Map.insert Map.emplace
analyze_function-visits_example =
    analyze_function-visits loader code 16 20 blank [] fn [] swept refl refl

abbrev found : Function
found = record swept.function { name = hexed "sub_" 16 }

abbrev explored : Explorer
explored = record {
  in_module = record swept.in_module { functions = found ∷ []; function_by_start = (16, 0) ∷ [] };
  visited = swept.visited;
  function_work = [];
}
