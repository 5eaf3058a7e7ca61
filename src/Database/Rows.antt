-- ===== src/Database/Rows.antt =====
-- The rows of functions that a save leaves, by what SQLite documents of an upsert on a unique
-- column.
use re_wizard.Prelude.{
  ℕ, refl, sym, ap, Bool, true, false, Option, none, some, List, [], ◌≡◌, ◌∙◌, ◌∷◌, ◌==◌,
  if◌then◌else◌,
}
use mathlib.Core.Option
use re_wizard.Symbols.Lookups.{last}
use re_wizard.Units.Function.{Function}
use re_wizard.Database.{
  begin_transaction, commit_transaction, insert_function, Sqlite, FunctionRow, row_of, Outcome,
  and_then, exec_on, save_each, begin, commit, finish, save_function, save_functions,
  query_function_by_address,
}

-- The row of an address, as the connection sees it. INSERT … ON CONFLICT(address) DO UPDATE puts a
-- row under its address; BEGIN and COMMIT change no row.
pub record Upserting (engine : Sqlite) : Type 0 where
  pub select-begin :
      (c : engine.Connection) (a : ℕ)
      → (engine.exec begin_transaction c).1 ≡ true
      → Option.map (λ r. r.1) (engine.select_function (engine.exec begin_transaction c).0 a)
        ≡ Option.map (λ r. r.1) (engine.select_function c a)
  pub select-commit :
      (c : engine.Connection) (a : ℕ)
      → (engine.exec commit_transaction c).1 ≡ true
      → Option.map (λ r. r.1) (engine.select_function (engine.exec commit_transaction c).0 a)
        ≡ Option.map (λ r. r.1) (engine.select_function c a)
  pub select-insert :
      (row : FunctionRow) (c : engine.Connection) (a : ℕ)
      → (engine.exec (insert_function row) c).1 ≡ true
      → Option.map (λ r. r.1) (engine.select_function (engine.exec (insert_function row) c).0 a) ≡ (
          if row.address == a then some row else Option.map (λ r. r.1) (engine.select_function c a))

module _ (engine : Sqlite) (laws : Upserting engine) where
  open engine use {Connection, exec, select_function}
  open laws use {select-begin, select-commit, select-insert}

  -- The row of an address, without its id.
  abbrev pub row_at : Option Connection → ℕ → Option FunctionRow
  row_at db a = Option.map (λ (r : ℕ × FunctionRow). r.1) (query_function_by_address engine db a)

  abbrev pub else_row : Option Function → Option FunctionRow → Option FunctionRow
  else_row none o = o
  else_row (some f) o = some (row_of f)

  and_then-ok :
      (r : Outcome engine) (next : Option Connection → Outcome engine)
      → (and_then engine r next).1 ≡ true
      → (r.1 ≡ true) × (and_then engine r next ≡ next r.0)
  and_then-ok (db, true) next ok = (refl, refl)
  and_then-ok (db, false) next ok = absurd (cc)

  save_function-row :
      (f : Function) (db : Option Connection) (a : ℕ)
      → (save_function engine f db).1 ≡ true
      → row_at (save_function engine f db).0 a
        ≡ (if f.start == a then some (row_of f) else row_at db a)
  unfolding save_function exec_on query_function_by_address row_of
  save_function-row f none a ok = absurd (cc)
  save_function-row f (some c) a ok = select-insert (row_of f) c a ok

  merge :
      (o : Option Function) (f : Function) (a : ℕ) (old new : Option FunctionRow)
      → new ≡ (if f.start == a then some (row_of f) else old)
      → else_row o new
        ≡ else_row
            (elim o as (λ _. Option Function) [
              | none ↦ if f.start == a then some f else none
              | some g ↦ some g
            ])
            old
  merge (some g) f a old new e = refl
  merge none f a old new e = e ∙ tested (f.start == a)
    where
      tested :
          (b : Bool)
          → (if b then some (row_of f) else old) ≡ else_row (if b then some f else none) old
      tested true = refl
      tested false = refl

  save_each-row :
      (fs : List Function) (db : Option Connection) (a : ℕ)
      → (save_each engine (save_function engine) fs db).1 ≡ true
      → row_at (save_each engine (save_function engine) fs db).0 a
        ≡ else_row (last (λ f. f.start == a) fs) (row_at db a)
  unfolding save_each last
  save_each-row [] db a ok = refl
  save_each-row (f ∷ fs) db a ok =
      let r = save_function engine f db in
      let next = save_each engine (save_function engine) fs in
      let (went, e) = and_then-ok r next ok in
      let rest = save_each-row fs r.0 a (ap (λ q. q.1) (sym e) ∙ ok) in
      let one = save_function-row f db a went in
      ap (λ q. row_at q.0 a) e
      ∙ (rest ∙ merge (last (λ g. g.start == a) fs) f a (row_at db a) (row_at r.0 a) one)

  finish-row :
      (r : Outcome engine) (a : ℕ)
      → (finish engine r).1 ≡ true
      → (r.1 ≡ true) × (row_at (finish engine r).0 a ≡ row_at r.0 a)
  unfolding finish commit exec_on query_function_by_address
  finish-row (none, true) a ok = absurd (cc)
  finish-row (some c, true) a ok = (refl, select-commit c a ok)
  finish-row (db, false) a ok = absurd (cc)

  begin-row :
      (db : Option Connection) (a : ℕ)
      → (begin engine db).1 ≡ true
      → row_at (begin engine db).0 a ≡ row_at db a
  unfolding begin exec_on query_function_by_address
  begin-row none a ok = absurd (cc)
  begin-row (some c) a ok = select-begin c a ok

  -- After a save of functions that succeeds, the row of an address is that of the last saved
  -- function that starts there, with its size, name and flags; where none does, it is the row that
  -- was there before.
  pub save_functions-rows :
      (fs : List Function) (db : Option Connection) (a : ℕ)
      → (save_functions engine fs db).1 ≡ true
      → row_at (save_functions engine fs db).0 a
        ≡ else_row (last (λ f. f.start == a) fs) (row_at db a)
  unfolding save_functions
  save_functions-rows fs db a ok =
      let next : Option Connection → Outcome engine =
        λ opened. finish engine (save_each engine (save_function engine) fs opened) in
      let (went, e) = and_then-ok (begin engine db) next ok in
      let opened = (begin engine db).0 in
      let (saved, same) =
        finish-row (save_each engine (save_function engine) fs opened) a
          (ap (λ q. q.1) (sym e) ∙ ok) in
      ap (λ q. row_at q.0 a) e
      ∙ (same
          ∙ (save_each-row fs opened a saved
              ∙ ap (else_row (last (λ f. f.start == a) fs)) (begin-row db a went)))
