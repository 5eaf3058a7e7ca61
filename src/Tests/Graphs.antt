-- ===== src/Tests/Graphs.antt =====
-- The theorems on the graph of a function, at sample code with a cycle.
use re_wizard.Prelude.{
  ℕ, refl, none, some, [], arith, ltb, get_elem?, In, ◌≤◌, ◌≡◌, ◌↔◌, ◌∷◌, if◌then◌else◌, nat_key,
}
use re_wizard.Prelude.Set
use re_wizard.Prelude.Map
use re_wizard.Prelude.Set.{contains}
use re_wizard.Units.Function.{Function}
use re_wizard.Units.Function.Lookup.{block_covering}
use re_wizard.Units.Function.Graph.{build_cfg, normalize_basic_blocks}
use re_wizard.Units.Function.Graph.Steps.{Edge, Reach}
use re_wizard.Units.Function.Graph.Correct.{
  build_cfg-total, build_cfg-edges, normalize_basic_blocks-total,
}
use re_wizard.Symbols.Table
use re_wizard.Xrefs
use re_wizard.Units.Module.{Module, get_function_for_address}
use re_wizard.Units.Module.Index.{IsIndexed, add_functions, get_function_for_address-nearest}
use re_wizard.Tests.{block_of, function_of, looping}

-- The second block jumps back to the first.
abbrev cyclic : Function
cyclic = function_of (block_of 16 24 (24 ∷ []) ∷ block_of 24 32 (16 ∷ 96 ∷ []) ∷ [])

abbrev linked : Function
linked = record cyclic { graph = record { vertices = 2; edges = (0, 1) ∷ (1, 0) ∷ [] } }

build_cfg-total_example : (g : Function) × (build_cfg cyclic ≡ some g)
build_cfg-total_example = build_cfg-total cyclic

build_cfg-edges_example :
    In {A = ℕ × ℕ} (1, 0) ((0, 1) ∷ (1, 0) ∷ [])
    ↔ (Reach cyclic.blocks 0 1 × Edge cyclic.blocks 1 0)
unfolding build_cfg block_covering contains Set.insert
build_cfg-edges_example = build_cfg-edges cyclic linked 0 1 0 refl refl

normalize_basic_blocks-total_example : (g : Function) × (normalize_basic_blocks looping ≡ some g)
normalize_basic_blocks-total_example = normalize_basic_blocks-total looping

abbrev bare : Module
bare = record {
  instructions = [];
  functions = [];
  function_by_start = [];
  symbol_table = Table.empty;
  xref_manager = Xrefs.empty;
}

bare-IsIndexed : IsIndexed bare
unfolding Map.find
bare-IsIndexed = (tt, λ s i e. absurd (cc), λ j g e. absurd (cc))

-- A function that encloses another one.
abbrev outer : Function
outer = function_of []

abbrev inner : Function
inner = record outer { start = 24; end = 32 }

get_function_for_address-nearest_example :
    (i : ℕ) × (f : Function) × (get_elem? (add_functions (outer ∷ inner ∷ []) bare).functions i
      ≡ some f)
    × (16 ≤ f.start)
    × (f.start ≤ 40)
    × (get_function_for_address (add_functions (outer ∷ inner ∷ []) bare) 40
        ≡ (if ltb 40 f.end then some i else none))
unfolding add_functions
get_function_for_address-nearest_example =
    get_function_for_address-nearest (outer ∷ inner ∷ []) bare 40 0 outer bare-IsIndexed refl
      (omega arith)
