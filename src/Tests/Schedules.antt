-- ===== src/Tests/Schedules.antt =====
-- The theorem on the order of the passes, at two passes, one of which depends on a missing one.
use re_wizard.Prelude.{ℕ, suc, String, refl, true, false, some, List, [], keep, ◌≡◌, ◌∷◌, nat_key}
use text.Mathlib.Text.{◌==◌ as str_eq}
use re_wizard.Prelude.Map
use re_wizard.Prelude.Map.{Map}
use re_wizard.Passes.Manager.{Actions, topological_sort}

abbrev passes : Map String (List String)
passes =
    ("ImportAnalysisPass", [])
    ∷ ("StaticControlFlowRebuilder", "ImportAnalysisPass" ∷ "MissingPass" ∷ [])
    ∷ []

-- The order that comes out.
sorted :
    topological_sort (λ names. names) passes
    ≡ some ("ImportAnalysisPass" ∷ "StaticControlFlowRebuilder" ∷ [])
unfolding topological_sort keep Map.find
sorted = refl

-- The first pass fails in its Run.
abbrev failing : String → Actions ℕ
failing name = record {
  pre_run = λ c. (suc c, true);
  run = λ c. (suc c, false);
  post_run = λ c. (suc c, true);
}
