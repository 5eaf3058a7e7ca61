-- ===== src/Database/Annotations.antt =====
-- SymbolManager::SaveTo and LoadFrom of ReWizardLib/source/Analysis/Units/SymbolManager.cpp, over
-- SaveAnnotation and QueryAllAnnotations of ReWizardLib/source/Database/AnalysisDatabase.cpp.
use re_wizard.Prelude.{
  ℕ, refl, inl, inr, Bool, true, false, not, Option, none, some, [], arith, Bool-cases, ◌≡◌, ◌&&◌,
  ◌∷◌, ◌==◌, if◌then◌else◌, nat_key, string_key,
}
--@P
use re_wizard.Prelude.Map
use re_wizard.Prelude.Map.{Map, Distinct, find-insert_all}
use re_wizard.Symbols.Annotations.{Annotation, SymbolManager, get_annotation}
use re_wizard.Database.{
  upsert_annotation, Sqlite, c_str, bound, exec_on, Database, save_annotation,
  query_all_annotations,
}

-- What SQLite documents of an upsert on the primary key: one that succeeds puts the row of the address
-- there and leaves the others, one that fails changes no row; no address has two rows.
pub record AnnotationTable (engine : Sqlite) : Type 0 where
  pub find-upsert :
      (address : ℕ) (ann : Annotation) (c : engine.Connection) (a : ℕ)
      → (engine.exec (upsert_annotation address ann) c).1 ≡ true
      → Map.find a (engine.select_annotations (engine.exec (upsert_annotation address ann) c).0)
        ≡ (if address == a then some ann else Map.find a (engine.select_annotations c))
  pub find-refused :
      (address : ℕ) (ann : Annotation) (c : engine.Connection) (a : ℕ)
      → (engine.exec (upsert_annotation address ann) c).1 ≡ false
      → Map.find a (engine.select_annotations (engine.exec (upsert_annotation address ann) c).0)
        ≡ Map.find a (engine.select_annotations c)
  pub rows-Distinct : (c : engine.Connection) → Distinct (engine.select_annotations c)

-- The annotation with each of its texts cut before the first NUL.
abbrev pub cut : Annotation → Annotation
cut ann = record {
  name = c_str ann.name;
  comment = c_str ann.comment;
  type = c_str ann.type;
  kind = c_str ann.kind;
}

module _ (engine : Sqlite) where
  -- The loop of SaveTo, which does not look at the results.
  unfoldable pub save_annotations : SymbolManager → Database engine → Database engine
  unfolding save_annotation
  save_annotations [] db = db
  save_annotations ((address, ann) ∷ m) db =
      save_annotations m (save_annotation engine address ann db).0

  -- SymbolManager::SaveTo; the outer `none` is a null pointer.
  unfoldable pub save_to : SymbolManager → Option (Database engine) → Option (Database engine)
  unfolding save_annotations
  save_to m none = none
  save_to m (some db) = some (save_annotations m db)

  -- SymbolManager::LoadFrom: Clear, and m_annotations[rec.address] takes the four texts of each row.
  unfoldable pub load_from : Option (Database engine) → SymbolManager → SymbolManager
  unfolding query_all_annotations Map.insert_all
  load_from none m = m
  load_from (some db) m = Map.insert_all (query_all_annotations engine db) []

  -- Whether the save of the annotation at an address fails.
  abbrev pub refused : ℕ → SymbolManager → Database engine → Bool
  refused a [] db = false
  refused a ((address, ann) ∷ m) db =
      let r = save_annotation engine address ann db in
      let rest = refused a m r.0 in if address == a then not r.1 else rest

  module _ (table : AnnotationTable engine) where
    query-save_annotation :
        (address : ℕ) (ann : Annotation) (db : Database engine) (a : ℕ)
        → Map.find a (query_all_annotations engine (save_annotation engine address ann db).0) ≡ (
            if (save_annotation engine address ann db).1 && address == a
            then some (cut ann)
            else Map.find a (query_all_annotations engine db))
    unfolding save_annotation query_all_annotations exec_on bound
    query-save_annotation address ann none a = refl
    query-save_annotation address ann (some c) a =
        elim (Bool-cases (engine.exec (upsert_annotation address (bound ann)) c).1) [
          | inl saved ↦ rw saved (table.find-upsert address (bound ann) c a saved)
          | inr lost ↦ rw lost (table.find-refused address (bound ann) c a lost)
        ]

    query-save_annotations :
        (m : SymbolManager) (db : Database engine) (a : ℕ)
        → Distinct m
        → Map.find a (query_all_annotations engine (save_annotations m db)) ≡ elim (Map.find a m) [
          | none ↦ Map.find a (query_all_annotations engine db)
          | some x ↦
              if refused a m db then Map.find a (query_all_annotations engine db) else some (cut x)
        ]
    unfolding save_annotations Map.find
    query-save_annotations [] db a d = refl
    query-save_annotations ((k, v) ∷ m) db a d = ground (
      arith,
      query-save_annotations m (save_annotation engine k v db).0 a d.1,
      query-save_annotation k v db a,
    )

    query-Distinct : (db : Database engine) → Distinct (query_all_annotations engine db)
    unfolding query_all_annotations
    query-Distinct none = tt
    query-Distinct (some c) = table.rows-Distinct c

    -- Saving annotations and loading them back, whatever the loader held, gives at each address the
    -- saved annotation, its texts cut before a NUL, or what the database held there before where
    -- that annotation could not be saved or there was none: an annotation that was removed since
    -- the last save comes back.
    pub get_annotation-load_from :
        (m m' : SymbolManager) (db : Database engine) (a : ℕ)
        → Distinct m
        → get_annotation (load_from (save_to m (some db)) m') a ≡ elim (get_annotation m a) [
          | none ↦ Map.find a (query_all_annotations engine db)
          | some x ↦
              if refused a m db then Map.find a (query_all_annotations engine db) else some (cut x)
        ]
    unfolding load_from save_to get_annotation Map.find
    get_annotation-load_from m m' db a d = ground (
      arith,
      find-insert_all a (query_all_annotations engine (save_annotations m db)) []
          (query-Distinct (save_annotations m db)),
      query-save_annotations m db a d,
    )
