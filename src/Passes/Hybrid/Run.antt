-- ===== src/Passes/Hybrid/Run.antt =====
-- HybridAnalysisPass::Run of ReWizardLib/source/Analysis/Passes/HybridAnalysisPass.cpp. The reading of
-- a trace file is a parameter, which yields its records, and so are the decoder and what LIEF reads.
pub mod Verified
use re_wizard.Prelude.{
  ℕ, String, true, not, Option, none, some, List, [], ◌&&◌, ◌∷◌, if◌then◌else◌, nat_key,
}
use text.Mathlib.Text.{◌==◌ as str_eq}
use re_wizard.Prelude.Map.{Map}
use re_wizard.Prelude.Set
use re_wizard.Prelude.Set.{Set}
use re_wizard.Insn.{Instruction}
use re_wizard.Trace.{TraceRecord, TraceReader, load}
use re_wizard.Units.Function.{Function}
use re_wizard.Units.Function.Indirect.{get_indirect_instructions}
use re_wizard.Units.Module.{Module}
use re_wizard.Passes.Hybrid.{resolve_indirects, process_opaque_predicates}
use re_wizard.Passes.Rebuilder.{Loader, is_within_mapping}
use re_wizard.Passes.Rebuilder.Explorer.{Binary, Explorer, is_in_function, re_analyze_from}

-- The pass's reader, or a new one for the trace of the context, where there is one that loads.
unfoldable pub obtain_reader :
    (String → Option (List TraceRecord)) → Option TraceReader → String → Option TraceReader
obtain_reader read_trace (some reader) trace_path = some reader
obtain_reader read_trace none trace_path =
    if str_eq trace_path ""
    then none
    else elim (read_trace trace_path) [ none ↦ none | some recs ↦ some (load recs) ]

-- One function: one that is not marked stays as it is.
unfoldable pub verify_function :
    TraceReader → Map ℕ Instruction → Function → Set ℕ → Option (Function × Set ℕ)
unfolding get_indirect_instructions resolve_indirects process_opaque_predicates
verify_function reader insns f targets =
    if not f.marked_for_hybrid_analysis
    then some (f, targets)
    else elim (get_indirect_instructions insns f) [
      | none ↦ none
      | some (g, indirects) ↦
          let (resolved, found) = resolve_indirects reader indirects (g, targets) in
          some
            (record (process_opaque_predicates reader resolved) { hybrid_verified = true }, found)
    ]

-- The loop over the functions.
unfoldable pub verify_functions :
    TraceReader → Map ℕ Instruction → List Function → Set ℕ → Option (List Function × Set ℕ)
verify_functions reader insns [] targets = some ([], targets)
verify_functions reader insns (f ∷ fs) targets = elim (verify_function reader insns f targets) [
  | none ↦ none
  | some (g, found) ↦ elim (verify_functions reader insns fs found) [
    | none ↦ none
    | some (gs, more) ↦ some (g ∷ gs, more)
  ]
]

-- The loop over the resolved targets: static analysis from those that are new.
unfoldable pub explore_targets :
    Loader → (ℕ → Option Instruction) → Binary → List ℕ → Module → Set ℕ → Option (Module × Set ℕ)
unfolding re_analyze_from
explore_targets loader decode binary [] m visited = some (m, visited)
explore_targets loader decode binary (target ∷ targets) m visited =
    if is_within_mapping loader target
      && (not (Set.contains target visited) && not (is_in_function m target))
    then elim (re_analyze_from loader decode binary target m visited) [
      | none ↦ none
      | some e ↦ explore_targets loader decode binary targets e.in_module e.visited
    ]
    else explore_targets loader decode binary targets m visited

-- The module and the visited addresses afterwards, for a context that has a module; the pass
-- returns true on every path.
unfoldable pub run :
    (String → Option (List TraceRecord))
    → Loader
    → (ℕ → Option Instruction)
    → Binary
    → Option TraceReader
    → String
    → Module
    → Set ℕ
    → Option (Module × Set ℕ)
unfolding obtain_reader verify_functions explore_targets
run read_trace loader decode binary reader trace_path m visited =
    elim (obtain_reader read_trace reader trace_path) [
      | none ↦ some (m, visited)
      | some reader' ↦ elim (verify_functions reader' m.instructions m.functions []) [
        | none ↦ none
        | some (fs, targets) ↦
            explore_targets loader decode binary targets (record m { functions = fs }) visited
      ]
    ]
