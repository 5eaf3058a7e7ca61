-- ===== src/Database/Transactions.antt =====
-- What is stored after the methods that run in a transaction, by what SQLite documents of
-- transactions.
use re_wizard.Prelude.{
  ℕ, refl, ap, inl, inr, Bool, true, false, Option, none, some, List, [], Bool-cases, Option-cases,
  ◌≡◌, ◌∙◌, ◌⊎◌, ◌∷◌, nat_key,
}
use mathlib.Core.Option
use re_wizard.Prelude.Map
use re_wizard.Prelude.Map.{Map}
use re_wizard.Units.Function.{Function}
use re_wizard.Units.Module.{Module}
use re_wizard.Symbols.Table.{SymbolTable}
use re_wizard.Database.{
  Statement, create_tables, begin_transaction, commit_transaction, rollback_transaction,
  prepare_symbols, c_name, insert_function, insert_basic_block, insert_xref, Sqlite, FunctionRow,
  Outcome, and_then, exec_on, save_each, create_schema, begin, commit, rollback, finish,
  save_function, save_functions, query_functions, save_basic_block, save_symbol_table, save_symbols,
  save_xref, save_code, save_contents, save_module, id_by_address,
}

-- The statements that change rows, or nothing.
abbrev pub is_change : Statement → Bool
is_change create_tables = false
is_change begin_transaction = false
is_change commit_transaction = false
is_change rollback_transaction = false
is_change s = true

-- What SQLite documents: what is committed is what another connection sees. Inside a transaction
-- no statement but COMMIT changes it, and a statement that succeeds leaves the transaction open (one
-- that fails may end it). A BEGIN inside a transaction fails, one that fails opens none, and after a
-- ROLLBACK none is open.
pub record Transactional (engine : Sqlite) : Type 1 where
  pub Content : Type 0
  pub committed : engine.Connection → Content
  pub in_transaction : engine.Connection → Bool
  pub begin_nested :
      (c : engine.Connection)
      → in_transaction c ≡ true
      → (engine.exec begin_transaction c).1 ≡ false
  pub begin_opens :
      (c : engine.Connection)
      → (engine.exec begin_transaction c).1 ≡ true
      → in_transaction (engine.exec begin_transaction c).0 ≡ true
  pub begin_refused :
      (c : engine.Connection)
      → (engine.exec begin_transaction c).1 ≡ false
      → in_transaction (engine.exec begin_transaction c).0 ≡ in_transaction c
  pub begin_keeps :
      (c : engine.Connection) → committed (engine.exec begin_transaction c).0 ≡ committed c
  pub change_keeps :
      (s : Statement) (c : engine.Connection)
      → is_change s ≡ true
      → in_transaction c ≡ true
      → committed (engine.exec s c).0 ≡ committed c
  pub change_opens :
      (s : Statement) (c : engine.Connection)
      → is_change s ≡ true
      → in_transaction c ≡ true
      → (engine.exec s c).1 ≡ true
      → in_transaction (engine.exec s c).0 ≡ true
  pub rollback_keeps :
      (c : engine.Connection) → committed (engine.exec rollback_transaction c).0 ≡ committed c
  pub rollback_closes :
      (c : engine.Connection) → in_transaction (engine.exec rollback_transaction c).0 ≡ false
  pub commit_fails :
      (c : engine.Connection)
      → (engine.exec commit_transaction c).1 ≡ false
      → committed (engine.exec commit_transaction c).0 ≡ committed c

module _ (engine : Sqlite) (laws : Transactional engine) where
  open engine use {Connection, exec}
  open laws use {
    Content, committed, in_transaction, begin_nested, begin_opens, begin_refused, begin_keeps,
    change_keeps, change_opens, rollback_keeps, rollback_closes, commit_fails,
  }

  -- What is stored, if the database is open.
  abbrev pub stored : Option Connection → Option Content
  stored = Option.map committed

  -- Nothing is stored yet, and the transaction is open while all goes well.
  abbrev Pending : Content → Outcome engine → Type 0
  Pending k (none, ok) = ⊥
  Pending k (some c, ok) = (committed c ≡ k) × (ok ≡ true → in_transaction c ≡ true)

  -- A step that keeps a transaction pending.
  abbrev Careful : (Option Connection → Outcome engine) → Type 0
  Careful step =
      (k : Content) (c : Connection)
      → committed c ≡ k
      → in_transaction c ≡ true
      → Pending k (step (some c))

  exec_on-Careful : (s : Statement) → is_change s ≡ true → Careful (exec_on engine s)
  unfolding exec_on
  exec_on-Careful s change k c e t = (change_keeps s c change t ∙ e, change_opens s c change t)

  and_then-Pending :
      (k : Content) (r : Outcome engine) (next : Option Connection → Outcome engine)
      → Pending k r
      → Careful next
      → Pending k (and_then engine r next)
  and_then-Pending k (none, ok) next h careful = absurd h
  and_then-Pending k (some c, true) next h careful = careful k c h.0 (h.1 refl)
  and_then-Pending k (some c, false) next h careful = h

  save_each-Careful :
      {A : Type 0} (save : A → Option Connection → Outcome engine) (xs : List A)
      → ((x : A) → Careful (save x))
      → Careful (save_each engine save xs)
  unfolding save_each
  save_each-Careful save [] careful k c e t = (e, λ ok. t)
  save_each-Careful save (x ∷ xs) careful k c e t =
      and_then-Pending k (save x (some c)) (save_each engine save xs) (careful x k c e t)
        (save_each-Careful save xs careful)

  -- A transaction that does not end well stores nothing.
  finish-stored :
      (k : Content) (r : Outcome engine)
      → Pending k r
      → (finish engine r).1 ≡ false
      → stored (finish engine r).0 ≡ some k
  unfolding finish commit rollback exec_on
  finish-stored k (none, ok) h lost = absurd h
  finish-stored k (some c, true) h lost = ap some (commit_fails c lost ∙ h.0)
  finish-stored k (some c, false) h lost = ap some (rollback_keeps c ∙ h.0)

  -- A transaction around careful steps: either it ends well, or nothing is stored.
  transaction-stored :
      (body : Option Connection → Outcome engine) (db : Option Connection)
      → Careful body
      → (and_then engine (begin engine db) (λ opened. finish engine (body opened))).1 ≡ false
      → stored (and_then engine (begin engine db) (λ opened. finish engine (body opened))).0
        ≡ stored db
  unfolding begin exec_on
  transaction-stored body none careful lost = refl
  transaction-stored body (some c) careful lost =
      starts (exec begin_transaction c) (begin_keeps c) (begin_opens c) lost
    where
      starts :
          (r : Connection × Bool)
          → committed r.0 ≡ committed c
          → (r.1 ≡ true → in_transaction r.0 ≡ true)
          → (and_then engine (some r.0, r.1) (λ opened. finish engine (body opened))).1 ≡ false
          → stored (and_then engine (some r.0, r.1) (λ opened. finish engine (body opened))).0
            ≡ some (committed c)
      starts (c', true) keeps opens lost' =
          finish-stored (committed c) (body (some c')) (careful (committed c) c' keeps (opens refl))
            lost'
      starts (c', false) keeps opens lost' = ap some keeps

  -- Whether a transaction is open.
  abbrev pub has_transaction : Option Connection → Bool
  has_transaction none = false
  has_transaction (some c) = in_transaction c

  finish-closed :
      (r : Outcome engine) → (has_transaction (finish engine r).0 ≡ false) ⊎ (r.1 ≡ true)
  unfolding finish rollback exec_on
  finish-closed (db, true) = inr refl
  finish-closed (none, false) = inl refl
  finish-closed (some c, false) = inl (rollback_closes c)

  -- A transaction stays open only where one was open before, or the steps went well and COMMIT was the
  -- last.
  transaction-closed :
      (body : Option Connection → Outcome engine) (db : Option Connection)
      → (has_transaction
            (and_then engine (begin engine db) (λ opened. finish engine (body opened))).0
          ≡ false)
        ⊎ ((has_transaction db ≡ true) ⊎ ((and_then engine (begin engine db) body).1 ≡ true))
  unfolding begin exec_on
  transaction-closed body none = inl refl
  transaction-closed body (some c) = starts (exec begin_transaction c) (begin_refused c)
    where
      starts :
          (r : Connection × Bool)
          → (r.1 ≡ false → in_transaction r.0 ≡ in_transaction c)
          → (has_transaction
                (and_then engine (some r.0, r.1) (λ opened. finish engine (body opened))).0
              ≡ false)
            ⊎ ((in_transaction c ≡ true) ⊎ ((and_then engine (some r.0, r.1) body).1 ≡ true))
      starts (c', true) refused = elim (finish-closed (body (some c'))) [
        | inl closed ↦ inl closed
        | inr ok ↦ inr (inr ok)
      ]
      starts (c', false) refused = elim (Bool-cases (in_transaction c)) [
        | inl was_open ↦ inr (inl was_open)
        | inr closed ↦ inl (refused refl ∙ closed)
      ]

  -- A save of functions that fails, at whatever statement, leaves what is stored as it was, and no
  -- transaction is left open, unless one was open before or every row was saved and COMMIT failed.
  pub save_functions-stored :
      (fs : List Function) (db : Option Connection)
      → (save_functions engine fs db).1 ≡ false
      → (stored (save_functions engine fs db).0 ≡ stored db)
        × ((has_transaction (save_functions engine fs db).0 ≡ false)
            ⊎ ((has_transaction db ≡ true)
                ⊎ ((and_then engine
                      (begin engine db)
                      (save_each engine (save_function engine) fs)).1
                    ≡ true)))
  unfolding save_functions save_function
  save_functions-stored fs db lost = (
    transaction-stored (save_each engine (save_function engine) fs) db
        (save_each-Careful (save_function engine) fs
          (λ f. exec_on-Careful (insert_function _) refl))
        lost,
    transaction-closed (save_each engine (save_function engine) fs) db,
  )

  -- The same, and the step has failed.
  abbrev Refused : Content → Outcome engine → Type 0
  Refused k r = Pending k r × (r.1 ≡ false)

  -- BEGIN inside a transaction: the symbol table is never saved there.
  save_symbol_table-Refused :
      (st : SymbolTable) (k : Content) (c : Connection)
      → committed c ≡ k
      → in_transaction c ≡ true
      → Refused k (save_symbol_table engine st (some c))
  unfolding save_symbol_table begin exec_on
  save_symbol_table-Refused st k c e t =
      refuses (exec begin_transaction c) (begin_keeps c ∙ e) (begin_nested c t)
    where
      refuses :
          (r : Connection × Bool)
          → committed r.0 ≡ k
          → r.1 ≡ false
          → Refused k (
              and_then engine
                (some r.0, r.1)
                (λ opened. finish engine (
                  and_then engine
                    (exec_on engine prepare_symbols opened)
                    (save_symbols engine st))))
      refuses (c', true) keeps nested = absurd (cc)
      refuses (c', false) keeps nested = ((keeps, λ ok. absurd (cc)), refl)

  save_code-Careful : (ids : Map ℕ ℕ) (f : Function) → Careful (save_code engine ids f)
  unfolding save_code save_basic_block save_xref
  save_code-Careful ids f k c e t = elim (Option-cases (Map.find f.start ids)) [
    | inl unknown ↦ rw (unknown, save_code) (e, λ ok. t)
    | inr (id, here) ↦
        rw (here, save_code)
          (and_then-Pending k (save_each engine (save_basic_block engine id) f.blocks (some c))
            (save_each engine (λ (cs : ℕ × ℕ). save_xref engine cs.0 cs.1 "call") f.call_sites)
            (save_each-Careful (save_basic_block engine id) f.blocks
              (λ b. exec_on-Careful (insert_basic_block id b.start b.end (c_name b.name)) refl) k c
              e t)
            (save_each-Careful (λ (cs : ℕ × ℕ). save_xref engine cs.0 cs.1 "call") f.call_sites
              (λ cs. exec_on-Careful (insert_xref _) refl)))
  ]

  and_then-Refused :
      (k : Content) (r : Outcome engine) (next : Option Connection → Outcome engine)
      → Pending k r
      → ((c : Connection) → committed c ≡ k → in_transaction c ≡ true → Refused k (next (some c)))
      → Refused k (and_then engine r next)
  and_then-Refused k (none, ok) next h refused = absurd h
  and_then-Refused k (some c, true) next h refused = refused c h.0 (h.1 refl)
  and_then-Refused k (some c, false) next h refused = (h, refl)

  finish-Refused :
      (k : Content) (r : Outcome engine)
      → Refused k r
      → ((finish engine r).1 ≡ false) × (stored (finish engine r).0 ≡ some k)
  unfolding finish rollback exec_on
  finish-Refused k (none, ok) h = absurd h.0
  finish-Refused k (some c, true) h = absurd (cc h.1)
  finish-Refused k (some c, false) h = (refl, ap some (rollback_keeps c ∙ h.0.0))

  save_contents-fails :
      (rows : List (ℕ × FunctionRow)) (m : Module) (db : Option Connection)
      → ((save_contents engine rows m db).1 ≡ false)
        × (stored (save_contents engine rows m db).0 ≡ stored db)
  unfolding save_contents begin exec_on
  save_contents-fails rows m none = (refl, refl)
  save_contents-fails rows m (some c) =
      starts (exec begin_transaction c) (begin_keeps c) (begin_opens c)
    where
      code : Option Connection → Outcome engine
      code = save_each engine (save_code engine (id_by_address rows [])) m.functions

      body : Option Connection → Outcome engine
      body opened = and_then engine (code opened) (save_symbol_table engine m.symbol_table)

      starts :
          (r : Connection × Bool)
          → committed r.0 ≡ committed c
          → (r.1 ≡ true → in_transaction r.0 ≡ true)
          → ((and_then engine (some r.0, r.1) (λ opened. finish engine (body opened))).1 ≡ false)
            × (stored (and_then engine (some r.0, r.1) (λ opened. finish engine (body opened))).0
                ≡ some (committed c))
      starts (c', true) keeps opens = finish-Refused (committed c) (body (some c')) (
          and_then-Refused (committed c) (code (some c')) (save_symbol_table engine m.symbol_table)
            (save_each-Careful (save_code engine (id_by_address rows [])) m.functions
              (save_code-Careful (id_by_address rows [])) (committed c) c' keeps (opens refl))
            (save_symbol_table-Refused m.symbol_table (committed c)))
      starts (c', false) keeps opens = (refl, ap some keeps)

  -- A module is never saved: SaveModule opens a transaction and SaveSymbolTable a second one inside
  -- it, which SQLite refuses. Whatever the module and the database, the result is false, and what
  -- is stored afterwards is what the schema and the save of the functions alone have stored.
  pub save_module-fails :
      (m : Module) (db : Option Connection)
      → ((save_module engine m db).1 ≡ false)
        × (stored (save_module engine m db).0
            ≡ stored
                (and_then engine (create_schema engine db) (save_functions engine m.functions)).0)
  unfolding save_module
  save_module-fails m db =
      goes (and_then engine (create_schema engine db) (save_functions engine m.functions))
    where
      goes :
          (r : Outcome engine)
          → ((and_then engine r
                (λ saved. save_contents engine (query_functions engine saved) m saved)).1
              ≡ false)
            × (stored
                  (and_then engine r
                    (λ saved. save_contents engine (query_functions engine saved) m saved)).0
                ≡ stored r.0)
      goes (saved, true) = save_contents-fails (query_functions engine saved) m saved
      goes (saved, false) = (refl, refl)
