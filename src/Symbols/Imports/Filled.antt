-- ===== src/Symbols/Imports/Filled.antt =====
-- What ImportAnalysisPass::Run of ReWizardLib/source/Analysis/Passes/ImportAnalysisPass.cpp leaves in
-- the symbol table, against the entries of the image.
use Prim.Native.String
use mathlib.Core.Path.{subst, ap₂}
use mathlib.Core.List.{append-nil}
use re_wizard.Prelude.{
  ℕ, String, refl, ap, inl, inr, true, Option, none, some, List, [], map, Option-cases, ◌+◌, ◌%◌,
  ◌≡◌, ◌∙◌, ◌&&◌, ◌∷◌, ◌++◌, if◌then◌else◌, string_key,
}
use re_wizard.Prelude.Word.{word_mod}
use re_wizard.Symbols.Table.{ImportedSymbol, ExportedSymbol, RelocationEntry, SymbolTable, empty}
use re_wizard.Symbols.Lookups.{
  Call, import_symbol, export_symbol, relocation, apply, run, added_imports, added_exports,
  added_relocations, FindsLast, run-FindsLast,
}
use re_wizard.Symbols.Imports.{
  ImportEntry, Import, ExportEntry, Relocation, Pe, is_empty_string, import_name, import_of,
  export_of, relocation_of, add_entries, add_imports, add_exports, add_block, add_relocations,
  analyze_imports,
}

added_imports-append :
    (cs ds : List Call) → added_imports (cs ++ ds) ≡ added_imports cs ++ added_imports ds
added_imports-append [] ds = refl
added_imports-append (import_symbol s ∷ cs) ds = ap (λ l. s ∷ l) (added_imports-append cs ds)
added_imports-append (export_symbol s ∷ cs) ds = added_imports-append cs ds
added_imports-append (relocation r ∷ cs) ds = added_imports-append cs ds

added_exports-append :
    (cs ds : List Call) → added_exports (cs ++ ds) ≡ added_exports cs ++ added_exports ds
added_exports-append [] ds = refl
added_exports-append (import_symbol s ∷ cs) ds = added_exports-append cs ds
added_exports-append (export_symbol s ∷ cs) ds = ap (λ l. s ∷ l) (added_exports-append cs ds)
added_exports-append (relocation r ∷ cs) ds = added_exports-append cs ds

added_relocations-append :
    (cs ds : List Call)
    → added_relocations (cs ++ ds) ≡ added_relocations cs ++ added_relocations ds
added_relocations-append [] ds = refl
added_relocations-append (import_symbol s ∷ cs) ds = added_relocations-append cs ds
added_relocations-append (export_symbol s ∷ cs) ds = added_relocations-append cs ds
added_relocations-append (relocation r ∷ cs) ds = ap (λ l. r ∷ l) (added_relocations-append cs ds)

-- What a list of calls adds.
abbrev Adds : List Call → List ImportedSymbol → List ExportedSymbol → List RelocationEntry → Type 0
Adds cs is es rs = (added_imports cs ≡ is) × (added_exports cs ≡ es) × (added_relocations cs ≡ rs)

Adds-append :
    (cs ds : List Call) (is is' : List ImportedSymbol) (es es' : List ExportedSymbol)
    (rs rs' : List RelocationEntry)
    → Adds cs is es rs
    → Adds ds is' es' rs'
    → Adds (cs ++ ds) (is ++ is') (es ++ es') (rs ++ rs')
Adds-append cs ds is is' es es' rs rs' (i, e, r) (i', e', r') = (
  added_imports-append cs ds ∙ ap₂ (λ a b. a ++ b) i i',
  added_exports-append cs ds ∙ ap₂ (λ a b. a ++ b) e e',
  added_relocations-append cs ds ∙ ap₂ (λ a b. a ++ b) r r',
)

FindsLast-run :
    (cs : List Call) (is : List ImportedSymbol) (es : List ExportedSymbol)
    (rs : List RelocationEntry) (t : SymbolTable)
    → Adds cs is es rs
    → run cs empty ≡ t
    → FindsLast is es rs t
FindsLast-run cs is es rs t (i, e, r) same =
    let is' = added_imports cs in
    let es' = added_exports cs in
    let filled = subst (FindsLast is' es' (added_relocations cs)) same (run-FindsLast cs) in
    let with_relocations = subst (λ l. FindsLast is' es' l t) r filled in
    let with_exports = subst (λ l. FindsLast is' l rs t) e with_relocations in
    subst (λ l. FindsLast l es rs t) i with_exports

module _ (to_string : ℕ → String) where
  -- The same as one list of calls.
  entry_calls : ℕ → String → List ImportEntry → List Call
  entry_calls base dll es = map (λ e. import_symbol (import_of to_string base dll e)) es

  import_calls : ℕ → List Import → List Call
  import_calls base [] = []
  import_calls base (i ∷ is) = entry_calls base i.name i.entries ++ import_calls base is

  export_calls : ℕ → Option (List ExportEntry) → List Call
  export_calls base none = []
  export_calls base (some es) = map (λ e. export_symbol (export_of to_string base e)) es

  relocation_calls : ℕ → List Relocation → List Call
  relocation_calls base [] = []
  relocation_calls base (r ∷ rs) =
      map (λ e. relocation (relocation_of to_string base r.virtual_address e)) r.entries
      ++ relocation_calls base rs

  run-append : (cs ds : List Call) (t : SymbolTable) → run (cs ++ ds) t ≡ run ds (run cs t)
  unfolding run
  run-append [] ds t = refl
  run-append (c ∷ cs) ds t = run-append cs ds (apply c t)

  run-entry_calls :
      (base : ℕ) (dll : String) (es : List ImportEntry) (t : SymbolTable)
      → run (entry_calls base dll es) t ≡ add_entries to_string base dll es t
  unfolding run entry_calls add_entries
  run-entry_calls base dll [] t = refl
  run-entry_calls base dll (e ∷ es) t = run-entry_calls base dll es _

  run-import_calls :
      (base : ℕ) (is : List Import) (t : SymbolTable)
      → run (import_calls base is) t ≡ add_imports to_string base is t
  unfolding import_calls add_imports
  run-import_calls base [] t = unfold run in refl
  run-import_calls base (i ∷ is) t =
      run-append (entry_calls base i.name i.entries) (import_calls base is) t
      ∙ (ap (run (import_calls base is)) (run-entry_calls base i.name i.entries t)
          ∙ run-import_calls base is _)

  run-exports :
      (base : ℕ) (es : List ExportEntry) (t : SymbolTable)
      → run (map (λ e. export_symbol (export_of to_string base e)) es) t
        ≡ add_exports to_string base es t
  unfolding run add_exports
  run-exports base [] t = refl
  run-exports base (e ∷ es) t = run-exports base es _

  run-block :
      (base page : ℕ) (es : List (ℕ × ℕ)) (t : SymbolTable)
      → run (map (λ e. relocation (relocation_of to_string base page e)) es) t
        ≡ add_block to_string base page es t
  unfolding run add_block
  run-block base page [] t = refl
  run-block base page (e ∷ es) t = run-block base page es _

  run-relocation_calls :
      (base : ℕ) (rs : List Relocation) (t : SymbolTable)
      → run (relocation_calls base rs) t ≡ add_relocations to_string base rs t
  unfolding relocation_calls add_relocations
  run-relocation_calls base [] t = unfold run in refl
  run-relocation_calls base (r ∷ rs) t =
      run-append
        (map (λ e. relocation (relocation_of to_string base r.virtual_address e)) r.entries)
        (relocation_calls base rs) t
      ∙ (ap (run (relocation_calls base rs)) (run-block base r.virtual_address r.entries t)
          ∙ run-relocation_calls base rs _)

  -- Every entry of the image as one addition to the table, in the order of the image.
  pub pe_calls : ℕ → Pe → List Call
  unfolding import_calls export_calls relocation_calls
  pe_calls base pe =
      import_calls base pe.imports
      ++ (export_calls base pe.export_table ++ relocation_calls base pe.relocations)

  run-pe_calls :
      (base : ℕ) (pe : Pe) (t : SymbolTable)
      → run (pe_calls base pe) empty ≡ (analyze_imports to_string (some pe) base t).0
  unfolding pe_calls analyze_imports
  run-pe_calls base pe t = elim (Option-cases pe.export_table) [
    | inl absent ↦
        rw
          (
            absent,
            run-append (import_calls base pe.imports) _ empty,
            run-import_calls base pe.imports empty,
            run-append [] (relocation_calls base pe.relocations) _,
          )
          (unfold run in run-relocation_calls base pe.relocations _)
    | inr (es, here) ↦
        rw
          (
            here,
            run-append (import_calls base pe.imports) _ empty,
            run-import_calls base pe.imports empty,
            run-append (map (λ e. export_symbol (export_of to_string base e)) es)
                (relocation_calls base pe.relocations) _,
            run-exports base es _,
          )
          (run-relocation_calls base pe.relocations _)
  ]

  -- What the table is to hold of the image, written from the format: an import of an ordinal without
  -- a name is called after its library and the ordinal, and addresses are relative to the base.
  abbrev pub imported_as : ℕ → String → ImportEntry → ImportedSymbol
  imported_as base dll e =
      let address = (base + e.iat_address) % word_mod in
      let ordinal_name = String.◌++◌ dll (String.◌++◌ "!Ordinal_" (to_string e.ordinal)) in
      record {
        name = if e.is_ordinal && is_empty_string e.name then ordinal_name else e.name;
        dll = dll;
        address = address;
        iat_entry = address;
      }

  abbrev pub expected_imports : ℕ → List Import → List ImportedSymbol
  expected_imports base [] = []
  expected_imports base (i ∷ is) =
      map (imported_as base i.name) i.entries ++ expected_imports base is

  abbrev pub expected_exports : ℕ → Option (List ExportEntry) → List ExportedSymbol
  expected_exports base none = []
  expected_exports base (some es) =
      map
        (λ (e : ExportEntry). record {
          name = e.name;
          address = (base + e.address) % word_mod;
          ordinal = e.ordinal;
        })
        es

  abbrev pub expected_relocations : ℕ → List Relocation → List RelocationEntry
  expected_relocations base [] = []
  expected_relocations base (r ∷ rs) =
      map
        (λ (e : ℕ × ℕ). record {
          address = ((base + r.virtual_address) % word_mod + e.0) % word_mod;
          type = e.1;
        })
        r.entries
      ++ expected_relocations base rs

  entry_calls-Adds :
      (base : ℕ) (dll : String) (es : List ImportEntry)
      → Adds (entry_calls base dll es) (map (imported_as base dll) es) [] []
  unfolding entry_calls import_of import_name
  entry_calls-Adds base dll [] = (refl, refl, refl)
  entry_calls-Adds base dll (e ∷ es) =
      let (i, x, r) = entry_calls-Adds base dll es in (ap (λ l. imported_as base dll e ∷ l) i, x, r)

  import_calls-Adds :
      (base : ℕ) (is : List Import) → Adds (import_calls base is) (expected_imports base is) [] []
  unfolding import_calls
  import_calls-Adds base [] = (refl, refl, refl)
  import_calls-Adds base (i ∷ is) =
      Adds-append (entry_calls base i.name i.entries) (import_calls base is)
        (map (imported_as base i.name) i.entries) (expected_imports base is) [] [] [] []
        (entry_calls-Adds base i.name i.entries) (import_calls-Adds base is)

  export_calls-Adds :
      (base : ℕ) (es : Option (List ExportEntry))
      → Adds (export_calls base es) [] (expected_exports base es) []
  unfolding export_calls export_of
  export_calls-Adds base none = (refl, refl, refl)
  export_calls-Adds base (some []) = (refl, refl, refl)
  export_calls-Adds base (some (e ∷ es)) =
      let (i, x, r) = export_calls-Adds base (some es) in
      (i, ap (λ l. export_of to_string base e ∷ l) x, r)

  block_calls-Adds :
      (base page : ℕ) (es : List (ℕ × ℕ))
      → Adds (map (λ e. relocation (relocation_of to_string base page e)) es) [] [] (
          map
            (λ (e : ℕ × ℕ). record {
              address = ((base + page) % word_mod + e.0) % word_mod;
              type = e.1;
            })
            es)
  unfolding relocation_of
  block_calls-Adds base page [] = (refl, refl, refl)
  block_calls-Adds base page (e ∷ es) =
      let (i, x, r) = block_calls-Adds base page es in
      (i, x, ap (λ l. relocation_of to_string base page e ∷ l) r)

  relocation_calls-Adds :
      (base : ℕ) (rs : List Relocation)
      → Adds (relocation_calls base rs) [] [] (expected_relocations base rs)
  unfolding relocation_calls
  relocation_calls-Adds base [] = (refl, refl, refl)
  relocation_calls-Adds base (r ∷ rs) =
      Adds-append
        (map (λ e. relocation (relocation_of to_string base r.virtual_address e)) r.entries)
        (relocation_calls base rs) [] [] [] [] _ (expected_relocations base rs)
        (block_calls-Adds base r.virtual_address r.entries) (relocation_calls-Adds base rs)

  pe_calls-Adds :
      (base : ℕ) (pe : Pe)
      → Adds
          (pe_calls base pe)
          (expected_imports base pe.imports)
          (expected_exports base pe.export_table)
          (expected_relocations base pe.relocations)
  unfolding pe_calls
  pe_calls-Adds base pe =
      let is = expected_imports base pe.imports in
      let es = expected_exports base pe.export_table in
      let rs = expected_relocations base pe.relocations in
      let (i, e, r) =
        Adds-append (import_calls base pe.imports)
          (export_calls base pe.export_table ++ relocation_calls base pe.relocations) is [] []
          (es ++ []) [] rs (import_calls-Adds base pe.imports)
          (Adds-append (export_calls base pe.export_table) (relocation_calls base pe.relocations) []
            [] es [] [] rs (export_calls-Adds base pe.export_table)
            (relocation_calls-Adds base pe.relocations)) in
      (i ∙ append-nil is, e ∙ append-nil es, r)

  -- On a PE image the pass succeeds and, whatever the table held, leaves in it exactly the imports,
  -- exports and relocations of the image in their order, imports of a nameless ordinal named after
  -- library and ordinal, addresses relative to the base; each lookup returns the last entry of the
  -- key. Without a PE image the pass succeeds and changes nothing.
  pub analyze_imports_lem :
      (pe : Pe) (base : ℕ) (t : SymbolTable)
      → ((analyze_imports to_string (some pe) base t).1 ≡ true)
        × FindsLast
            (expected_imports base pe.imports)
            (expected_exports base pe.export_table)
            (expected_relocations base pe.relocations)
            (analyze_imports to_string (some pe) base t).0
        × (analyze_imports to_string none base t ≡ (t, true))
  unfolding analyze_imports
  analyze_imports_lem pe base t =
      let added = pe_calls-Adds base pe in
      (
        refl,
        FindsLast-run (pe_calls base pe) (expected_imports base pe.imports)
            (expected_exports base pe.export_table) (expected_relocations base pe.relocations)
            (analyze_imports to_string (some pe) base t).0 added (run-pe_calls base pe t),
        refl,
      )
