-- ===== src/Report/Printed/Summary.antt =====
-- What ToText reports of a module: ReWizardLib/source/Analysis/AnalysisResult.cpp.
use re_wizard.Prelude.{
  ℕ, String, refl, ap, inl, inr, Option, none, some, List, [], map, Option-cases, length,
  length-map, ◌%◌, ◌^◌, ◌≡◌, ◌∙◌, ◌∷◌, ◌++◌, string_key,
}
use re_wizard.Report.Values.{
  Json, null, string, elements, members, listed, listed-elements, items_at, items, member_at,
  number_at, as_text, each-map, concat,
}
use re_wizard.Report.{
  Context, serialize_basic_block, serialize_function, serialize_symbols, serialize_import,
  serialize_export, serialize_relocation, call_site, functions_of, symbols_of, image_of,
  from_context,
}
use re_wizard.Report.Printed.{
  Line, target, disassembled, image_base, image_size, functions, rule, function_name, starts, ends,
  basic_blocks, call_sites, trampoline, marked, verified, opaque, imports, exports, relocations,
  value_int, value_text, boolean_at, size_at, when, function_report, symbols_report, to_text,
}
use re_wizard.Units.BasicBlock.{plain}
use re_wizard.Units.Function.{Function}
use re_wizard.Units.Module.{Module}
use re_wizard.Symbols.Table.{SymbolTable}

-- The report of a function: its bounds, what it has, the marks that are set, and its disassembly.
abbrev pub reported : (Function → List String) → Function → List Line
reported dis f =
    function_name f.name
    ∷ starts f.start
    ∷ ends f.end
    ∷ basic_blocks (length f.blocks)
    ∷ call_sites (length f.call_sites)
    ∷ (when f.is_trampoline trampoline
        ++ (when f.marked_for_hybrid_analysis marked
            ++ (when f.hybrid_verified verified
                ++ (when f.has_opaque_predicates opaque
                    ++ map disassembled (map (λ l. plain l) (dis f))))))

-- The counts of the symbols, where there is a module.
abbrev pub counted : Option Module → List Line
counted none = []
counted (some m) =
    rule
    ∷ imports (length m.symbol_table.imports)
    ∷ exports (length m.symbol_table.exports)
    ∷ relocations (length m.symbol_table.relocations)
    ∷ []

-- The low 32 bits of where the image lies and of its size; 0 without a loader.
abbrev pub bounds : Option (ℕ × ℕ) → ℕ × ℕ
bounds none = (0, 0)
bounds (some (base, size)) = (base % 2 ^ 32, size % 2 ^ 32)

abbrev pub report : (Function → List String) → Context → List Line
report dis c =
    target (plain c.name)
    ∷ image_base (bounds c.loader).0
    ∷ image_size (bounds c.loader).1
    ∷ functions (length (functions_of c))
    ∷ rule
    ∷ (concat (map (reported dis) (functions_of c)) ++ counted c.in_module)

-- What the report reads of a serialized function.
record Reads (dis : Function → List String) (f : Function) : Type 0 where
  name : member_at "name" (serialize_function dis f) ≡ some (string f.name)
  start : number_at "start" (serialize_function dis f) ≡ some f.start
  end : number_at "end" (serialize_function dis f) ≡ some f.end
  blocks : size_at "basic_blocks" (serialize_function dis f) ≡ some (length f.blocks)
  sites : size_at "call_sites" (serialize_function dis f) ≡ some (length f.call_sites)
  is_trampoline : boolean_at "is_trampoline" (serialize_function dis f) ≡ some f.is_trampoline
  is_marked :
      boolean_at "marked_for_hybrid" (serialize_function dis f) ≡ some f.marked_for_hybrid_analysis
  is_verified : boolean_at "hybrid_verified" (serialize_function dis f) ≡ some f.hybrid_verified
  is_opaque :
      boolean_at "has_opaque_predicates" (serialize_function dis f) ≡ some f.has_opaque_predicates
  lines :
      items_at "disassembly" (serialize_function dis f) ≡ some (map (λ l. string (plain l)) (dis f))

size_listed :
    {A : Type 0} (g : A → Json) (xs : List A)
    → some (length (listed (elements (map g xs)))) ≡ some (length xs)
size_listed g xs = ap some (ap length (listed-elements (map g xs)) ∙ length-map g xs)

function-Reads : (dis : Function → List String) (f : Function) → Reads dis f
unfolding member_at number_at size_at items_at items boolean_at serialize_function members
function-Reads dis f = record {
  name = refl;
  start = refl;
  end = refl;
  blocks = size_listed serialize_basic_block f.blocks;
  sites = size_listed call_site f.call_sites;
  is_trampoline = refl;
  is_marked = refl;
  is_verified = refl;
  is_opaque = refl;
  lines = ap some (listed-elements (map (λ l. string (plain l)) (dis f)));
}

function_report-reported :
    (dis : Function → List String) (f : Function)
    → function_report (serialize_function dis f) ≡ some (reported dis f)
unfolding function_report as_text
function_report-reported dis f =
    let r = function-Reads dis f in
    rw
      (
        r.name,
        r.start,
        r.end,
        r.blocks,
        r.sites,
        r.is_trampoline,
        r.is_marked,
        r.is_verified,
        r.is_opaque,
        r.lines,
        each-map as_text (λ (l : String). string (plain l)) (λ l. plain l) (dis f) (λ l. refl),
      )
      refl

-- What the report reads of the serialized symbols.
sizes :
    (t : SymbolTable)
    → (size_at "imports" (serialize_symbols t) ≡ some (length t.imports))
      × (size_at "exports" (serialize_symbols t) ≡ some (length t.exports))
      × (size_at "relocations" (serialize_symbols t) ≡ some (length t.relocations))
unfolding size_at items_at items serialize_symbols members
sizes t = (
  size_listed serialize_import t.imports,
  size_listed serialize_export t.exports,
  size_listed serialize_relocation t.relocations,
)

symbols_report-counted :
    (m : Option Module)
    → symbols_report (elim m [ none ↦ null | some t ↦ serialize_symbols t.symbol_table ])
      ≡ some (counted m)
unfolding symbols_report serialize_symbols
symbols_report-counted none = refl
symbols_report-counted (some m) = let (i, e, r) = sizes m.symbol_table in rw (i, e, r) refl

-- What the report reads of the root.
record ReadsRoot (dis : Function → List String) (c : Context) : Type 0 where
  name : value_text "target" (from_context dis (some c)) ≡ some (plain c.name)
  base : value_int "image_base" (from_context dis (some c)) ≡ some (bounds c.loader).0
  size : value_int "image_size" (from_context dis (some c)) ≡ some (bounds c.loader).1
  fns :
      items_at "functions" (from_context dis (some c))
      ≡ some (map (serialize_function dis) (functions_of c))
  symbols : member_at "symbols" (from_context dis (some c)) ≡ some (symbols_of c)

root-ReadsRoot : (dis : Function → List String) (c : Context) → ReadsRoot dis c
unfolding value_text value_int items_at items member_at from_context members
root-ReadsRoot dis c = elim (Option-cases c.loader) [
  | inl e ↦
      rw (e, image_of, bounds)
        (record {
          name = refl;
          base = refl;
          size = refl;
          fns = ap some (listed-elements _);
          symbols = refl;
        })
  | inr (image, e) ↦
      rw (e, image_of, bounds)
        (record {
          name = refl;
          base = refl;
          size = refl;
          fns = ap some (listed-elements _);
          symbols = refl;
        })
]

-- ToText of a result that was built from a context never fails, and reports each function of the
-- module; of the base and the size of the image it prints only the low 32 bits. A result that was
-- built without a context has no report.
pub to_text-report :
    (dis : Function → List String) (c : Context)
    → (to_text (from_context dis (some c)) ≡ some (report dis c))
      × (to_text (from_context dis none) ≡ none)
unfolding to_text value_text from_context
to_text-report dis c =
    let r = root-ReadsRoot dis c in
    (
      rw
          (
            r.name,
            r.base,
            r.size,
            r.fns,
            r.symbols,
            each-map function_report (serialize_function dis) (reported dis) (functions_of c)
                (function_report-reported dis),
            symbols_report-counted c.in_module,
            length-map (serialize_function dis) (functions_of c),
          )
          refl,
      refl,
    )
