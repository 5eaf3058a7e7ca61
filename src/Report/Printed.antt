-- ===== src/Report/Printed.antt =====
-- AnalysisResult::ToText of ReWizardLib/source/Analysis/AnalysisResult.cpp: the lines of the report,
-- in order, with what each prints.
pub mod Summary
use re_wizard.Prelude.{
  ℕ, String, Bool, true, false, Option, none, some, List, [], map, length, ◌%◌, ◌^◌, ◌∷◌, ◌++◌,
  ◌>>=◌, string_key,
}
use re_wizard.Report.Values.{
  Json, null, array, object, find_member, member_at, items, items_at, as_number, as_boolean,
  as_text, number_at, each, concat,
}
use re_wizard.Units.BasicBlock.{Name, plain}

pub data Line : Type 0 where
  target disassembled : Name → Line
  image_base image_size functions : ℕ → Line
  rule : Line
  function_name : Name → Line
  starts ends basic_blocks call_sites : ℕ → Line
  trampoline marked verified opaque : Line
  imports exports relocations : ℕ → Line

-- m_root.value(key, 0): the type of the default is int, so the value is converted to an int, of
-- which std::hex prints the 32 bits.
unfoldable pub value_int : String → Json → Option ℕ
unfolding find_member as_number
value_int key (object ms) = elim (find_member key ms) [
  | none ↦ some 0
  | some v ↦ do n ← as_number v; some (n % 2 ^ 32)
]
value_int key j = none

-- m_root.value(key, "unknown")
unfoldable pub value_text : String → Json → Option Name
unfolding find_member as_text
value_text key (object ms) = elim (find_member key ms) [
  | none ↦ some (plain "unknown")
  | some v ↦ as_text v
]
value_text key j = none

unfoldable pub boolean_at : String → Json → Option Bool
unfolding member_at as_boolean
boolean_at key j = do v ← member_at key j; as_boolean v

-- json.size(): that of an array or an object, 0 for null and 1 for any other value.
unfoldable pub size_at : String → Json → Option ℕ
unfolding items_at
size_at key j = do vs ← items_at key j; some (length vs)

abbrev pub when : Bool → Line → List Line
when true line = line ∷ []
when false line = []

unfoldable pub function_report : Json → Option (List Line)
unfolding member_at number_at boolean_at size_at items_at as_text
function_report fn = do
  named ← member_at "name" fn
  name ← as_text named
  start ← number_at "start" fn
  end ← number_at "end" fn
  blocks ← size_at "basic_blocks" fn
  sites ← size_at "call_sites" fn
  is_trampoline ← boolean_at "is_trampoline" fn
  is_marked ← boolean_at "marked_for_hybrid" fn
  is_verified ← boolean_at "hybrid_verified" fn
  is_opaque ← boolean_at "has_opaque_predicates" fn
  lines ← items_at "disassembly" fn
  printed ← each as_text lines
  some (
      function_name name
      ∷ starts start
      ∷ ends end
      ∷ basic_blocks blocks
      ∷ call_sites sites
      ∷ (when is_trampoline trampoline
          ++ (when is_marked marked
              ++ (when is_verified verified
                  ++ (when is_opaque opaque ++ map disassembled printed)))))

unfoldable pub symbols_report : Json → Option (List Line)
unfolding size_at
symbols_report null = some []
symbols_report symbols = do
  imps ← size_at "imports" symbols
  exps ← size_at "exports" symbols
  relocs ← size_at "relocations" symbols
  some (rule ∷ imports imps ∷ exports exps ∷ relocations relocs ∷ [])

-- `none` is an exception, or a read that the library does not define.
unfoldable pub to_text : Json → Option (List Line)
unfolding value_text value_int items_at member_at function_report symbols_report
to_text root = do
  name ← value_text "target" root
  base ← value_int "image_base" root
  size ← value_int "image_size" root
  fns ← items_at "functions" root
  reports ← each function_report fns
  symbols ← member_at "symbols" root
  summary ← symbols_report symbols
  some (
      target name
      ∷ image_base base
      ∷ image_size size
      ∷ functions (length fns)
      ∷ rule
      ∷ (concat reports ++ summary))
