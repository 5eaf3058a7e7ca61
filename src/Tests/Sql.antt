-- ===== src/Tests/Sql.antt =====
-- A small engine that fulfils what is assumed of SQLite, and the theorems on the database at it.
use re_wizard.Prelude.{
  ℕ, refl, sym, ap, inl, inr, Bool, true, false, Option, none, some, [], map, arith, Bool-cases,
  ◌≡◌, ◌∙◌, ◌⊎◌, ◌∷◌, ◌==◌, if◌then◌else◌, nat_key,
}
use mathlib.Core.Option
use re_wizard.Prelude.Map
use re_wizard.Prelude.Map.{Map}
use re_wizard.Units.Function.{Function}
use re_wizard.Units.Module.{Module}
use re_wizard.Symbols.Lookups.{last}
use re_wizard.Xrefs
use re_wizard.Symbols.Table
use re_wizard.Database.{
  Statement, create_tables, begin_transaction, commit_transaction, rollback_transaction,
  prepare_symbols, insert_function, insert_basic_block, insert_symbol, insert_xref,
  upsert_annotation, erase_annotation, Sqlite, FunctionRow, row_of, and_then, exec_on, begin,
  create_schema, finish, rollback, save_each, save_function, save_functions, save_module,
}
use re_wizard.Database.Transactions.{
  Transactional, is_change, stored, has_transaction, save_functions-stored, save_module-fails,
}
use re_wizard.Database.Rows.{Upserting, row_at, save_functions-rows}
use re_wizard.Tests.{looping}

-- Outside a transaction there is one set of rows; inside one, the committed rows and those that the
-- connection sees. A row for the address 0 is refused.
data Session : Type 0 where
  idle : Map ℕ FunctionRow → Session
  busy : (kept rows : Map ℕ FunctionRow) → Session

abbrev saved : Session → Map ℕ FunctionRow
saved (idle rows) = rows
saved (busy kept rows) = kept

abbrev shown : Session → Map ℕ FunctionRow
shown (idle rows) = rows
shown (busy kept rows) = rows

abbrev in_transaction : Session → Bool
in_transaction (idle rows) = false
in_transaction (busy kept rows) = true

abbrev begun : Session → Session × Bool
begun (idle rows) = (busy rows rows, true)
begun (busy kept rows) = (busy kept rows, false)

abbrev put : FunctionRow → Session → Session
put row (idle rows) = idle (Map.insert row.address row rows)
put row (busy kept rows) = busy kept (Map.insert row.address row rows)

abbrev run : Statement → Session → Session × Bool
run begin_transaction s = begun s
run commit_transaction s = (idle (shown s), true)
run rollback_transaction s = (idle (saved s), true)
run (insert_function row) s = if row.address == 0 then (s, false) else (put row s, true)
run create_tables s = (s, true)
run prepare_symbols s = (s, true)
run (insert_basic_block id start end name) s = (s, true)
run (insert_symbol row) s = (s, true)
run (insert_xref x) s = (s, true)
run (upsert_annotation a ann) s = (s, true)
run (erase_annotation a) s = (s, true)

abbrev sessions : Sqlite
sessions = record {
  Connection = Session;
  exec = run;
  select_functions = λ s. map (λ (e : ℕ × FunctionRow). (1, e.1)) (shown s);
  select_function = λ s a. Option.map (λ row. (1, row)) (Map.find a (shown s));
  select_symbols = λ s a. [];
  select_xrefs_to = λ s a. [];
  select_xrefs_from = λ s a. [];
  select_xrefs = λ s. [];
  select_annotations = λ s. [];
}

begin_nested : (s : Session) → in_transaction s ≡ true → (begun s).1 ≡ false
begin_nested (idle rows) h = absurd (cc)
begin_nested (busy kept rows) h = refl

begin_opens : (s : Session) → (begun s).1 ≡ true → in_transaction (begun s).0 ≡ true
begin_opens (idle rows) ok = refl
begin_opens (busy kept rows) ok = refl

begin_refused : (s : Session) → (begun s).1 ≡ false → in_transaction (begun s).0 ≡ in_transaction s
begin_refused (idle rows) h = absurd (cc)
begin_refused (busy kept rows) h = refl

begin_keeps : (s : Session) → saved (begun s).0 ≡ saved s
begin_keeps (idle rows) = refl
begin_keeps (busy kept rows) = refl

put_keeps :
    (row : FunctionRow) (s : Session)
    → in_transaction s ≡ true
    → (saved (put row s) ≡ saved s) × (in_transaction (put row s) ≡ true)
put_keeps row (idle rows) h = absurd (cc)
put_keeps row (busy kept rows) h = (refl, refl)

change_keeps :
    (x : Statement) (s : Session)
    → is_change x ≡ true
    → in_transaction s ≡ true
    → (saved (run x s).0 ≡ saved s) × (in_transaction (run x s).0 ≡ true)
change_keeps begin_transaction s change h = absurd (cc)
change_keeps commit_transaction s change h = absurd (cc)
change_keeps rollback_transaction s change h = absurd (cc)
change_keeps create_tables s change h = absurd (cc)
change_keeps (insert_function row) s change h = elim (Bool-cases (row.address == 0)) [
  | inl refused ↦ rw refused (refl, h)
  | inr taken ↦ rw taken (put_keeps row s h)
]
change_keeps prepare_symbols s change h = (refl, h)
change_keeps (insert_basic_block id start end name) s change h = (refl, h)
change_keeps (insert_symbol row) s change h = (refl, h)
change_keeps (insert_xref x) s change h = (refl, h)
change_keeps (upsert_annotation a ann) s change h = (refl, h)
change_keeps (erase_annotation a) s change h = (refl, h)

commit_works {ℓ} : {P : Type ℓ} → ◌≡◌ {A = Bool} true false → P
commit_works h = absurd (cc)

abbrev sessions-Transactional : Transactional sessions
sessions-Transactional = record {
  Content = Map ℕ FunctionRow;
  committed = λ s. saved s;
  in_transaction = λ s. in_transaction s;
  begin_nested = begin_nested;
  begin_opens = begin_opens;
  begin_keeps = begin_keeps;
  begin_refused = begin_refused;
  change_keeps = λ x s change h. (change_keeps x s change h).0;
  change_opens = λ x s change h ok. (change_keeps x s change h).1;
  rollback_keeps = λ s. refl;
  rollback_closes = λ s. refl;
  commit_fails = λ s lost. commit_works lost;
}

found-begin : (s : Session) (a : ℕ) → Map.find a (shown (begun s).0) ≡ Map.find a (shown s)
found-begin (idle rows) a = refl
found-begin (busy kept rows) a = refl

found-put :
    (row : FunctionRow) (s : Session) (a : ℕ)
    → Map.find a (shown (put row s)) ≡ (if row.address == a then some row else Map.find a (shown s))
found-put row (idle rows) a = Map.find-insert row.address a row rows
found-put row (busy kept rows) a = Map.find-insert row.address a row rows

without_id :
    (o : Option FunctionRow)
    → Option.map (λ (r : ℕ × FunctionRow). r.1) (Option.map (λ (row : FunctionRow). (1, row)) o) ≡ o
without_id none = refl
without_id (some row) = refl

abbrev sessions-Upserting : Upserting sessions
sessions-Upserting = record {
  select-begin = λ s a ok.
      without_id (Map.find a (shown (begun s).0))
      ∙ (found-begin s a ∙ sym (without_id (Map.find a (shown s))));
  select-commit = λ s a ok. refl;
  select-insert = λ row s a ok. elim (Bool-cases (row.address == 0)) [
    | inl refused ↦ absurd (ground (refused, arith))
    | inr taken ↦ rw taken (
        without_id (Map.find a (shown (put row s)))
        ∙ (found-put row s a
            ∙ ap (λ o. if row.address == a then some row else o)
                (sym (without_id (Map.find a (shown s))))))
  ];
}

abbrev sample : Module
sample = record {
  instructions = [];
  functions = looping ∷ [];
  function_by_start = (16, 0) ∷ [];
  symbol_table = Table.empty;
  xref_manager = Xrefs.empty;
}

-- A function whose row is refused.
abbrev lost_one : Function
lost_one = record looping { start = 0 }

save_functions-stored_example :
    (stored sessions sessions-Transactional
        (save_functions sessions (looping ∷ lost_one ∷ []) (some (idle []))).0
      ≡ stored sessions sessions-Transactional (some (idle [])))
    × ((has_transaction sessions sessions-Transactional
            (save_functions sessions (looping ∷ lost_one ∷ []) (some (idle []))).0
          ≡ false)
        ⊎ ((has_transaction sessions sessions-Transactional (some (idle [])) ≡ true)
            ⊎ ((and_then sessions
                  (begin sessions (some (idle [])))
                  (save_each sessions (save_function sessions) (looping ∷ lost_one ∷ []))).1
                ≡ true)))
unfolding save_functions begin exec_on finish save_each save_function row_of rollback
save_functions-stored_example =
    save_functions-stored sessions sessions-Transactional (looping ∷ lost_one ∷ []) (some (idle []))
      refl

save_module-fails_example :
    ((save_module sessions sample (some (idle []))).1 ≡ false)
    × (stored sessions sessions-Transactional (save_module sessions sample (some (idle []))).0
        ≡ stored sessions sessions-Transactional
            (and_then sessions
              (create_schema sessions (some (idle [])))
              (save_functions sessions sample.functions)).0)
save_module-fails_example =
    save_module-fails sessions sessions-Transactional sample (some (idle []))

save_functions-rows_example :
    row_at sessions sessions-Upserting
      (save_functions sessions (looping ∷ []) (some (idle []))).0
      16
    ≡ some (row_of looping)
unfolding save_functions begin exec_on last
save_functions-rows_example =
    save_functions-rows sessions sessions-Upserting (looping ∷ []) (some (idle [])) 16 refl
