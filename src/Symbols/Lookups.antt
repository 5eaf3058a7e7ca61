-- ===== src/Symbols/Lookups.antt =====
-- The four indices of the symbol table after any sequence of additions.
use text.Mathlib.Text.{◌==◌ as str_eq}
use re_wizard.Prelude.{
  ℕ, suc, String, refl, sym, ap, inl, inr, Bool, Option, none, some, List, [], arith, Option-cases,
  length, get_elem?, Key, ◌≡◌, ◌∙◌, ◌∷◌, ◌++◌, ◌==◌, if◌then◌else◌, nat_key, string_key,
}
use mathlib.Core.List.{append-nil, append_assoc}
use re_wizard.Prelude.Map
use re_wizard.Prelude.Map.{Map, find-insert}
use re_wizard.Symbols.Table.{
  ImportedSymbol, ExportedSymbol, RelocationEntry, SymbolTable, empty, add_import, add_export,
  add_relocation, at_index, get_import_by_address, get_import_by_name, get_export_by_address,
  get_export_by_name,
}

module _ {A : Type 0} where
  -- The last element that passes the test, and its position.
  unfoldable pub last : (A → Bool) → List A → Option A
  last p [] = none
  last p (x ∷ xs) = elim (last p xs) [ some y ↦ some y | none ↦ if p x then some x else none ]

  pub last_index : (A → Bool) → List A → Option ℕ
  last_index p [] = none
  last_index p (x ∷ xs) = elim (last_index p xs) [
    | some i ↦ some (suc i)
    | none ↦ if p x then some 0 else none
  ]

  last_index-concat :
      (p : A → Bool) (xs : List A) (y : A)
      → last_index p (xs ++ y ∷ []) ≡ (if p y then some (length xs) else last_index p xs)
  unfolding last_index
  last_index-concat p [] y = refl
  last_index-concat p (x ∷ xs) y = ground (arith, last_index-concat p xs y)

  last-absent : (p : A → Bool) (xs : List A) → last_index p xs ≡ none → last p xs ≡ none
  unfolding last_index last
  last-absent p [] h = refl
  last-absent p (x ∷ xs) h = ground (arith, last-absent p xs)

  -- The position found is in bounds.
  last_index-get :
      (p : A → Bool) (xs : List A) (i : ℕ)
      → last_index p xs ≡ some i
      → (x : A) × (get_elem? xs i ≡ some x) × (last p xs ≡ some x)
  unfolding last_index last
  last_index-get p [] i h = absurd (cc)
  last_index-get p (x ∷ xs) i h = elim (Option-cases (last_index p xs)) [
    | inl absent ↦
        (x, ground (arith, last-absent p xs absent), ground (arith, last-absent p xs absent))
    | inr (j, here) ↦
        let (y, got, is_last) = last_index-get p xs j here in (y, ground arith, ground arith)
  ]

  at_index-last_index : (p : A → Bool) (xs : List A) → at_index xs (last_index p xs) ≡ last p xs
  unfolding at_index last_index last
  at_index-last_index p xs = elim (Option-cases (last_index p xs)) [
    | inl absent ↦ rw (absent, last-absent p xs absent) refl
    | inr (i, here) ↦ let (y, got, is_last) = last_index-get p xs i here in rw (here, is_last) got
  ]

module _ {A K : Type 0} ⦃e : Key K⦄ (key : A → K) where
  -- The index of a vector by a key of its elements.
  abbrev IsIndex : List A → Map K ℕ → Type 0
  IsIndex xs m = (k : K) → Map.find k m ≡ last_index (λ x. e.beq (key x) k) xs

  IsIndex-push :
      (xs : List A) (m : Map K ℕ) (x : A)
      → IsIndex xs m
      → IsIndex (xs ++ x ∷ []) (Map.insert (key x) (length xs) m)
  IsIndex-push xs m x h k = ground (
    arith,
    find-insert (key x) k (length xs) m,
    last_index-concat (λ y. e.beq (key y) k) xs x,
    h k,
  )

pub record IsIndexed (t : SymbolTable) : Type 0 where
  pub import_addresses : IsIndex (λ s. s.address) t.imports t.import_by_addr
  pub import_names : IsIndex (λ s. s.name) t.imports t.import_by_name
  pub export_addresses : IsIndex (λ s. s.address) t.exports t.export_by_addr
  pub export_names : IsIndex (λ s. s.name) t.exports t.export_by_name

-- The calls by which a table is filled.
pub data Call : Type 0 where
  import_symbol : ImportedSymbol → Call
  export_symbol : ExportedSymbol → Call
  relocation : RelocationEntry → Call

unfoldable pub apply : Call → SymbolTable → SymbolTable
apply (import_symbol s) t = add_import s t
apply (export_symbol s) t = add_export s t
apply (relocation r) t = add_relocation r t

unfoldable pub run : List Call → SymbolTable → SymbolTable
unfolding apply
run [] t = t
run (c ∷ cs) t = run cs (apply c t)

empty-IsIndexed : IsIndexed empty
unfolding last_index Map.find
empty-IsIndexed = record {
  import_addresses = λ k. refl;
  import_names = λ k. refl;
  export_addresses = λ k. refl;
  export_names = λ k. refl;
}

apply-IsIndexed : (c : Call) (t : SymbolTable) → IsIndexed t → IsIndexed (apply c t)
unfolding apply add_import add_export add_relocation
apply-IsIndexed (import_symbol s) t h = record {
  export_addresses = h.export_addresses;
  export_names = h.export_names;
  import_addresses = IsIndex-push (λ s. s.address) t.imports t.import_by_addr s h.import_addresses;
  import_names = IsIndex-push (λ s. s.name) t.imports t.import_by_name s h.import_names;
}
apply-IsIndexed (export_symbol s) t h = record {
  import_addresses = h.import_addresses;
  import_names = h.import_names;
  export_addresses = IsIndex-push (λ s. s.address) t.exports t.export_by_addr s h.export_addresses;
  export_names = IsIndex-push (λ s. s.name) t.exports t.export_by_name s h.export_names;
}
apply-IsIndexed (relocation r) t h = record {
  import_addresses = h.import_addresses;
  import_names = h.import_names;
  export_addresses = h.export_addresses;
  export_names = h.export_names;
}

run-IsIndexed : (cs : List Call) (t : SymbolTable) → IsIndexed t → IsIndexed (run cs t)
unfolding run
run-IsIndexed [] t h = h
run-IsIndexed (c ∷ cs) t h = run-IsIndexed cs (apply c t) (apply-IsIndexed c t h)

-- The symbols that the calls add, in the order of the calls.
abbrev pub added_imports : List Call → List ImportedSymbol
added_imports [] = []
added_imports (import_symbol s ∷ cs) = s ∷ added_imports cs
added_imports (c ∷ cs) = added_imports cs

abbrev pub added_exports : List Call → List ExportedSymbol
added_exports [] = []
added_exports (export_symbol s ∷ cs) = s ∷ added_exports cs
added_exports (c ∷ cs) = added_exports cs

abbrev pub added_relocations : List Call → List RelocationEntry
added_relocations [] = []
added_relocations (relocation r ∷ cs) = r ∷ added_relocations cs
added_relocations (c ∷ cs) = added_relocations cs

-- A table holds exactly the given symbols in their order, and each of its four lookups returns the
-- last of them with the asked-for address or name, and nothing where there is none.
pub record FindsLast (is : List ImportedSymbol) (es : List ExportedSymbol)
    (rs : List RelocationEntry) (t : SymbolTable) : Type 0 where
  pub imports : t.imports ≡ is
  pub exports : t.exports ≡ es
  pub relocations : t.relocations ≡ rs
  pub import_address : (a : ℕ) → get_import_by_address t a ≡ last (λ s. s.address == a) is
  pub import_name : (n : String) → get_import_by_name t n ≡ last (λ s. str_eq s.name n) is
  pub export_address : (a : ℕ) → get_export_by_address t a ≡ last (λ s. s.address == a) es
  pub export_name : (n : String) → get_export_by_name t n ≡ last (λ s. str_eq s.name n) es

run-imports :
    (cs : List Call) (t : SymbolTable) → (run cs t).imports ≡ t.imports ++ added_imports cs
unfolding run apply add_import add_export add_relocation
run-imports [] t = sym (append-nil t.imports)
run-imports (import_symbol s ∷ cs) t =
    run-imports cs (add_import s t) ∙ append_assoc t.imports (s ∷ []) (added_imports cs)
run-imports (export_symbol s ∷ cs) t = run-imports cs (add_export s t)
run-imports (relocation r ∷ cs) t = run-imports cs (add_relocation r t)

run-exports :
    (cs : List Call) (t : SymbolTable) → (run cs t).exports ≡ t.exports ++ added_exports cs
unfolding run apply add_import add_export add_relocation
run-exports [] t = sym (append-nil t.exports)
run-exports (import_symbol s ∷ cs) t = run-exports cs (add_import s t)
run-exports (export_symbol s ∷ cs) t =
    run-exports cs (add_export s t) ∙ append_assoc t.exports (s ∷ []) (added_exports cs)
run-exports (relocation r ∷ cs) t = run-exports cs (add_relocation r t)

run-relocations :
    (cs : List Call) (t : SymbolTable)
    → (run cs t).relocations ≡ t.relocations ++ added_relocations cs
unfolding run apply add_import add_export add_relocation
run-relocations [] t = sym (append-nil t.relocations)
run-relocations (import_symbol s ∷ cs) t = run-relocations cs (add_import s t)
run-relocations (export_symbol s ∷ cs) t = run-relocations cs (add_export s t)
run-relocations (relocation r ∷ cs) t =
    run-relocations cs (add_relocation r t)
    ∙ append_assoc t.relocations (r ∷ []) (added_relocations cs)

-- After any sequence of additions to the empty table it holds exactly the symbols and relocations that
-- were added, in their order, and each of the four lookups returns the last symbol added under the
-- address or name, and nothing where there is none.
pub run-FindsLast :
    (cs : List Call)
    → FindsLast (added_imports cs) (added_exports cs) (added_relocations cs) (run cs empty)
unfolding get_import_by_address get_import_by_name get_export_by_address get_export_by_name
run-FindsLast cs =
    let t = run cs empty in
    let h = run-IsIndexed cs empty empty-IsIndexed in
    let imported = run-imports cs empty in
    let exported = run-exports cs empty in
    record {
      imports = imported;
      exports = exported;
      relocations = run-relocations cs empty;
      import_address = λ a.
          rw (h.import_addresses a)
            (at_index-last_index (λ (s : ImportedSymbol). s.address == a) t.imports)
          ∙ ap (last (λ (s : ImportedSymbol). s.address == a)) imported;
      import_name = λ n.
          rw (h.import_names n)
            (at_index-last_index (λ (s : ImportedSymbol). str_eq s.name n) t.imports)
          ∙ ap (last (λ (s : ImportedSymbol). str_eq s.name n)) imported;
      export_address = λ a.
          rw (h.export_addresses a)
            (at_index-last_index (λ (s : ExportedSymbol). s.address == a) t.exports)
          ∙ ap (last (λ (s : ExportedSymbol). s.address == a)) exported;
      export_name = λ n.
          rw (h.export_names n)
            (at_index-last_index (λ (s : ExportedSymbol). str_eq s.name n) t.exports)
          ∙ ap (last (λ (s : ExportedSymbol). str_eq s.name n)) exported;
    }
