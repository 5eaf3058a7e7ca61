-- ===== src/Database/References.antt =====
-- XrefManager::SaveTo and LoadFrom of ReWizardLib/source/Analysis/Units/XrefManager.cpp, over SaveXref
-- and QueryAllXrefs of ReWizardLib/source/Database/AnalysisDatabase.cpp.
use re_wizard.Prelude.{
  ℕ, inl, inr, true, false, Option, none, some, List, [], map, arith, Bool-cases, In, ◌≡◌, ◌↔◌, ◌⊎◌,
  ◌∷◌, nat_key, string_key,
}
use re_wizard.Prelude.Set
use re_wizard.Prelude.Set.{contains, contains_iff}
use re_wizard.Xrefs.{Xref, xref_key, xref_beq_iff, XrefManager, empty, add_xref}
use re_wizard.Xrefs.Queries.{add_remove_stored}
use re_wizard.Xrefs.Consistent.{IsConsistent, empty-IsConsistent, add_xref-IsConsistent}
use re_wizard.Database.{insert_xref, Sqlite, Database, exec_on, c_str, save_xref, query_all_xrefs}

-- A reference with its type cut before the first NUL.
abbrev pub cut : Xref → Xref
cut x = record x { type = c_str x.type }

-- The references of the rows, without the ids.
abbrev pub references : List (ℕ × Xref) → List Xref
references rows = map (λ (row : ℕ × Xref). row.1) rows

-- What SQLite documents of an insertion that does nothing on a conflict with the unique triple: one
-- that succeeds leaves the row there and keeps the others, one that fails changes no row.
pub record ReferenceTable (engine : Sqlite) : Type 0 where
  pub insert_kept :
      (x : Xref) (c : engine.Connection) (y : Xref)
      → (engine.exec (insert_xref x) c).1 ≡ true
      → In y (references (engine.select_xrefs (engine.exec (insert_xref x) c).0))
        ↔ ((y ≡ x) ⊎ In y (references (engine.select_xrefs c)))
  pub insert_refused :
      (x : Xref) (c : engine.Connection) (y : Xref)
      → (engine.exec (insert_xref x) c).1 ≡ false
      → In y (references (engine.select_xrefs (engine.exec (insert_xref x) c).0))
        ↔ In y (references (engine.select_xrefs c))

-- The loop of LoadFrom over the rows.
unfoldable pub add_all : List Xref → XrefManager → XrefManager
add_all [] m = m
add_all (x ∷ xs) m = add_all xs (add_xref x.from x.to x.type m)

pub add_all-IsConsistent :
    (xs : List Xref) (m : XrefManager) → IsConsistent m → IsConsistent (add_all xs m)
unfolding add_all
add_all-IsConsistent [] m h = h
add_all-IsConsistent (x ∷ xs) m h =
    add_all-IsConsistent xs _ (add_xref-IsConsistent x.from x.to x.type m h)

stored-add_all :
    (x : Xref) (xs : List Xref) (m : XrefManager)
    → (contains x (add_all xs m).all ≡ true) ↔ (In x xs ⊎ (contains x m.all ≡ true))
unfolding add_all
stored-add_all x [] m = (inr, elim [ inl h ↦ absurd h.0 | inr h ↦ h ])
stored-add_all x (y ∷ ys) m =
    let m' = add_xref y.from y.to y.type m in
    ground (
      arith,
      xref_beq_iff y x,
      (add_remove_stored y.from y.to y.type m x).0,
      stored-add_all x ys m',
    )

module _ (engine : Sqlite) where
  -- The loop of SaveTo over the set of references, which does not look at the results.
  unfoldable pub save_all : Set.Set Xref → Database engine → Database engine
  unfolding save_xref
  save_all [] db = db
  save_all (x ∷ xs) db = save_all xs (save_xref engine x.from x.to x.type db).0

  -- XrefManager::SaveTo; the outer `none` is a null pointer.
  unfoldable pub save_to : XrefManager → Option (Database engine) → Option (Database engine)
  unfolding save_all
  save_to m none = none
  save_to m (some db) = some (save_all m.all db)

  -- XrefManager::LoadFrom, which clears first.
  unfoldable pub load_from : Option (Database engine) → XrefManager → XrefManager
  unfolding add_all query_all_xrefs
  load_from none m = m
  load_from (some db) m = add_all (references (query_all_xrefs engine db)) empty

  -- A loaded table is consistent, if the loader was, whatever the database holds.
  pub load_from-IsConsistent :
      (db : Option (Database engine)) (m : XrefManager)
      → IsConsistent m
      → IsConsistent (load_from db m)
  unfolding load_from
  load_from-IsConsistent none m h = h
  load_from-IsConsistent (some db) m h =
      add_all-IsConsistent (references (query_all_xrefs engine db)) empty empty-IsConsistent

  -- The reference is that of a row whose save succeeds.
  abbrev pub Saved : Xref → Set.Set Xref → Database engine → Type 0
  Saved y [] db = ⊥
  Saved y (x ∷ xs) db =
      let r = save_xref engine x.from x.to x.type db in
      ((y ≡ cut x) × (r.1 ≡ true)) ⊎ Saved y xs r.0

  module _ (table : ReferenceTable engine) where
    query-save_xref :
        (x : Xref) (db : Database engine) (y : Xref)
        → In y (references (query_all_xrefs engine (save_xref engine x.from x.to x.type db).0)) ↔ (
            ((y ≡ cut x) × ((save_xref engine x.from x.to x.type db).1 ≡ true))
            ⊎ In y (references (query_all_xrefs engine db)))
    unfolding save_xref query_all_xrefs exec_on
    query-save_xref x none y = ground arith
    query-save_xref x (some c) y = elim (Bool-cases (engine.exec (insert_xref (cut x)) c).1) [
      | inl saved ↦ ground (arith, saved, table.insert_kept (cut x) c y)
      | inr lost ↦ ground (arith, lost, table.insert_refused (cut x) c y)
    ]

    query-save_all :
        (y : Xref) (s : Set.Set Xref) (db : Database engine)
        → In y (references (query_all_xrefs engine (save_all s db)))
          ↔ (Saved y s db ⊎ In y (references (query_all_xrefs engine db)))
    unfolding save_all
    query-save_all y [] db = (inr, elim [ inl h ↦ absurd h | inr h ↦ h ])
    query-save_all y (x ∷ s) db = ground (
      arith,
      query-save_all y s (save_xref engine x.from x.to x.type db).0,
      query-save_xref x db y,
    )

    -- Saving a table and loading it into any other gives a table that holds exactly the references
    -- that could be saved and those that were in the database before.
    pub load_from-save_to :
        (m m' : XrefManager) (db : Database engine) (y : Xref)
        → (contains y (load_from (save_to m (some db)) m').all ≡ true)
          ↔ (Saved y m.all db ⊎ In y (references (query_all_xrefs engine db)))
    unfolding load_from save_to contains
    load_from-save_to m m' db y = ground (
      arith,
      stored-add_all y (references (query_all_xrefs engine (save_all m.all db))) empty,
      query-save_all y m.all db,
    )
