-- ===== src/Tests/Reports.antt =====
-- The theorems on the exports of a result and on the registry of the passes, at sample functions.
use re_wizard.Prelude.{ℕ, String, none, some, List, [], ◌≡◌, ◌∷◌}
use re_wizard.Units.Function.{Function}
use re_wizard.Report.{Context, from_context}
use re_wizard.Report.Export.{to_dot}
use re_wizard.Report.Export.Lines.{drawing, to_dot-drawing}
use re_wizard.Report.Printed.{to_text}
use re_wizard.Report.Printed.Summary.{report, to_text-report}
use re_wizard.Passes.Registry.{fresh, get, add_passes, get-first}
use re_wizard.Tests.{looping}
use re_wizard.Tests.Descents.{blank}

abbrev no_disassembly : Function → List String
no_disassembly f = []

abbrev context : Context
context = record {
  name = "sample.exe";
  loader = some (0x140000000, 64);
  in_module = some (record blank { functions = looping ∷ [] });
  visited = 16 ∷ [];
}

to_dot-drawing_example :
    (to_dot (from_context no_disassembly (some context)) ≡ some (drawing (looping ∷ [])))
    × (to_dot (from_context no_disassembly none) ≡ none)
to_dot-drawing_example = to_dot-drawing no_disassembly context

to_text-report_example :
    (to_text (from_context no_disassembly (some context)) ≡ some (report no_disassembly context))
    × (to_text (from_context no_disassembly none) ≡ none)
to_text-report_example = to_text-report no_disassembly context

abbrev pass_name : String × ℕ → String
pass_name pass = pass.0

get-first_example :
    (get pass_name "hybrid" (
      add_passes pass_name
        (("hybrid", 2) ∷ [])
        (record (fresh {P = String × ℕ}) { factories = ("hybrid", 1) ∷ [] }))).1
    ≡ some ("hybrid", ("hybrid", 1))
get-first_example = get-first pass_name (("hybrid", 1) ∷ []) (("hybrid", 2) ∷ []) "hybrid"
