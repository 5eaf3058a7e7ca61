-- ===== src/Passes/Manager.antt =====
-- AnalysisPassManager::TopologicalSort and RunAll of
-- ReWizardLib/source/Analysis/PassManager.cpp. A pass is its name with the names that it depends on;
-- the adjacency lists are one list of edges in the order in which they were added. What a pass does
-- to the context is a parameter, and so is the order in which the hash table of the degrees is
-- walked.
pub mod Order
pub mod Stops
use re_wizard.Prelude.{
  ℕ, zero, suc, String, Bool, true, false, Option, none, some, List, [], map, length, keep, ◌+◌,
  ◌-◌, ◌∷◌, ◌++◌, ◌==◌, if◌then◌else◌, nat_key, string_key,
}
use text.Mathlib.Text.{◌==◌ as str_eq}
use mathlib.Core.Option
use re_wizard.Prelude.Map
use re_wizard.Prelude.Map.{Map}

abbrev pub is_registered : Map String (List String) → String → Bool
is_registered passes name = elim (Map.find name passes) [ none ↦ false | some deps ↦ true ]

-- The loop over the dependencies of a pass; one that is not registered is skipped.
unfoldable pub edges_into : Map String (List String) → String → List String → List (String × String)
edges_into passes name [] = []
edges_into passes name (dep ∷ deps) =
    let rest = edges_into passes name deps in
    if is_registered passes dep then (dep, name) ∷ rest else rest

-- The loop over the passes in `todo`.
unfoldable pub edges_of :
    Map String (List String) → Map String (List String) → List (String × String)
unfolding edges_into
edges_of passes [] = []
edges_of passes ((name, deps) ∷ todo) = edges_into passes name deps ++ edges_of passes todo

-- inDegree after the loop.
unfoldable pub in_degree : List (String × String) → String → ℕ
in_degree [] n = 0
in_degree ((dep, name) ∷ edges) n = (if str_eq name n then 1 else 0) + in_degree edges n

-- adj[name]
unfoldable pub dependents : List (String × String) → String → List String
dependents [] name = []
dependents ((dep, n) ∷ edges) name =
    let rest = dependents edges name in if str_eq dep name then n ∷ rest else rest

-- inDegree[name]--; a degree falls to 0 when it was 1.
abbrev pub lower : String → (String → ℕ) → String → ℕ
lower name degree n = if str_eq name n then degree n - 1 else degree n

pub record Sort : Type 0 where
  pub degree : String → ℕ
  pub queue : List String
  pub result : List String

-- The loop over the dependents of a pass.
unfoldable pub release : List String → Sort → Sort
release [] s = s
release (name ∷ names) s = release names (record s {
  degree = lower name s.degree;
  queue = if s.degree name == 1 then s.queue ++ name ∷ [] else s.queue;
})

-- The loop over the queue; `none` means that the fuel ran out.
unfoldable pub sort : ℕ → List (String × String) → Sort → Option (List String)
unfolding release dependents
sort zero edges s = none
sort (suc fuel) edges s = elim s.queue [
  | [] ↦ some s.result
  | name ∷ rest ↦
      sort fuel edges (
        release (dependents edges name) (record s { queue = rest; result = s.result ++ name ∷ [] }))
]

-- `walk` is the order in which the loop over the degrees sees the names.
unfoldable pub topological_sort :
    (List String → List String) → Map String (List String) → Option (List String)
unfolding edges_of in_degree sort
topological_sort walk passes =
    let edges = edges_of passes passes in
    let queue = keep (λ n. in_degree edges n == 0) (walk (map (λ e. e.0) passes)) in
    sort (suc (length queue + length edges)) edges
      (record { degree = in_degree edges; queue = queue; result = [] })

-- PreRun, Run and PostRun of a pass.
pub record Actions (C : Type 0) : Type 0 where
  pub pre_run : C → C × Bool
  pub run : C → C × Bool
  pub post_run : C → C × Bool

-- The next of the three, if the last one went well.
abbrev pub and_then : {C : Type 0} → C × Bool → (C → C × Bool) → C × Bool
and_then (c, true) next = next c
and_then (c, false) next = (c, false)

-- The loop of RunAll, with the value of `ok`.
unfoldable pub run_passes : {C : Type 0} → (String → Actions C) → List String → C × Bool → C × Bool
run_passes actions [] r = r
run_passes actions (name ∷ names) r =
    let a = actions name in
    let r' = and_then (and_then (a.pre_run r.0) a.run) a.post_run in
    if r'.1 then run_passes actions names r' else r'

unfoldable pub run_all :
    {C : Type 0}
    → (List String → List String)
    → (String → Actions C)
    → Map String (List String)
    → C
    → Option (C × Bool)
unfolding topological_sort run_passes
run_all walk actions passes c =
    Option.map (λ (names : List String). run_passes actions names (c, false))
      (topological_sort walk passes)
