-- ===== src/Passes/Registry.antt =====
-- PassRegistry and PassProvider of ReWizardLib/source/Analysis/PassProvider.cpp and
-- include/ReWizard/Analysis/PassProvider.h, on any type of passes with a name. The order of the names,
-- in which GetAll traverses the passes, is not modelled, nor is the static registration.
use mathlib.Core.Option
use re_wizard.Prelude.{
  String, refl, sym, ap, Bool, true, false, not, Option, none, some, List, [], arith, string_key,
  ◌≡◌, ◌∙◌, ◌∷◌, ◌++◌, if◌then◌else◌, nat_key,
}
use re_wizard.Prelude.Map
use re_wizard.Prelude.Map.{Map, find-insert}

-- PassProvider, with the factories of PassRegistry; a factory is known by the pass that it makes.
pub record PassProvider (P : Type 0) : Type 0 where
  pub factories : List P
  pub passes : Map String P
  pub initialized : Bool

abbrev pub fresh : {P : Type 0} → PassProvider P
fresh = record { factories = []; passes = []; initialized = false }

module _ {P : Type 0} (name : P → String) where
  unfoldable pub add_factory : P → PassProvider P → PassProvider P
  add_factory factory p = record p { factories = p.factories ++ factory ∷ [] }

  -- m_passes.emplace(pass->Name(), …) for each pass of the list, in order.
  unfoldable pub emplace_all : List P → Map String P → Map String P
  emplace_all [] m = m
  emplace_all (pass ∷ passes) m = emplace_all passes (Map.emplace (name pass) pass m)

  unfoldable pub init : PassProvider P → PassProvider P
  unfolding emplace_all
  init p =
      if p.initialized
      then p
      else record p { passes = emplace_all p.factories p.passes; initialized = true }

  unfoldable pub ensure_initialized : PassProvider P → PassProvider P
  unfolding init
  ensure_initialized p = if not p.initialized then init p else p

  -- The provider afterwards and the pass of the name.
  unfoldable pub get : String → PassProvider P → PassProvider P × Option (String × P)
  unfolding ensure_initialized
  get key p =
      let q = ensure_initialized p in
      (q, Option.map (λ (pass : P). (key, pass)) (Map.find key q.passes))

  unfoldable pub get_all : PassProvider P → PassProvider P × Map String P
  unfolding ensure_initialized
  get_all p = let q = ensure_initialized p in (q, q.passes)

  unfoldable pub add_pass : P → PassProvider P → PassProvider P
  unfolding ensure_initialized
  add_pass pass p =
      let q = ensure_initialized p in record q { passes = Map.emplace (name pass) pass q.passes }

  -- A provider to which passes were added one by one.
  unfoldable pub add_passes : List P → PassProvider P → PassProvider P
  unfolding add_pass
  add_passes [] p = p
  add_passes (pass ∷ passes) p = add_passes passes (add_pass pass p)

  -- The first pass of the name in a list.
  abbrev pub first_named : String → List P → Option P
  first_named key [] = none
  first_named key (pass ∷ passes) =
      if string_key.beq (name pass) key then some pass else first_named key passes

  -- The entry of the table, or else the first pass of the list.
  abbrev or_first : Option P → String → List P → Option P
  or_first none key passes = first_named key passes
  or_first (some pass) key passes = some pass

  find-emplace :
      (k j : String) (v : P) (m : Map String P)
      → Map.find j (Map.emplace k v m) ≡ elim (Map.find j m) [
        | none ↦ if string_key.beq k j then some v else none
        | some w ↦ some w
      ]
  unfolding Map.emplace
  find-emplace k j v m = ground (arith, find-insert k j v m, string_key.beq_iff k j)

  find-emplace_all :
      (key : String) (passes : List P) (m : Map String P)
      → Map.find key (emplace_all passes m) ≡ or_first (Map.find key m) key passes
  unfolding emplace_all
  find-emplace_all key [] m = ground arith
  find-emplace_all key (pass ∷ passes) m = ground (
    arith,
    find-emplace_all key passes (Map.emplace (name pass) pass m),
    find-emplace (name pass) key pass m,
  )

  emplace_all-append :
      (xs ys : List P) (m : Map String P)
      → emplace_all (xs ++ ys) m ≡ emplace_all ys (emplace_all xs m)
  unfolding emplace_all
  emplace_all-append [] ys m = refl
  emplace_all-append (x ∷ xs) ys m = emplace_all-append xs ys (Map.emplace (name x) x m)

  ensure_ready : (p : PassProvider P) → p.initialized ≡ true → ensure_initialized p ≡ p
  unfolding ensure_initialized
  ensure_ready p up = ground arith

  ensure_fresh :
      (p : PassProvider P)
      → p.initialized ≡ false
      → ensure_initialized p
        ≡ record p { passes = emplace_all p.factories p.passes; initialized = true }
  unfolding ensure_initialized init
  ensure_fresh p down = ground arith

  -- A pass added to an initialized provider.
  abbrev with_pass : P → PassProvider P → PassProvider P
  with_pass pass q = record q { passes = Map.emplace (name pass) pass q.passes }

  add_passes-ready :
      (added : List P) (p : PassProvider P)
      → p.initialized ≡ true
      → (ensure_initialized (add_passes added p)).passes ≡ emplace_all added p.passes
  unfolding add_passes add_pass emplace_all
  add_passes-ready [] p up = ap (λ (q : PassProvider P). q.passes) (ensure_ready p up)
  add_passes-ready (pass ∷ passes) p up =
      ap
        (λ (q : PassProvider P). (ensure_initialized (add_passes passes (with_pass pass q))).passes)
        (ensure_ready p up)
      ∙ add_passes-ready passes (with_pass pass p) up

  add_passes-fresh :
      (added : List P) (p : PassProvider P)
      → p.initialized ≡ false
      → (ensure_initialized (add_passes added p)).passes
        ≡ emplace_all added (emplace_all p.factories p.passes)
  unfolding add_passes add_pass emplace_all
  add_passes-fresh [] p down = ap (λ (q : PassProvider P). q.passes) (ensure_fresh p down)
  add_passes-fresh (pass ∷ passes) p down =
      ap
        (λ (q : PassProvider P). (ensure_initialized (add_passes passes (with_pass pass q))).passes)
        (ensure_fresh p down)
      ∙ add_passes-ready passes
          (with_pass pass
            (record p { passes = emplace_all p.factories p.passes; initialized = true }))
          refl

  -- Of the passes that are registered and then added one by one, Get finds the first of a name, the
  -- registered ones before those that were added, and nothing for a name that none has.
  pub get-first :
      (factories added : List P) (key : String)
      → (get key (add_passes added (record (fresh {P = P}) { factories = factories }))).1
        ≡ Option.map (λ (pass : P). (key, pass)) (first_named key (factories ++ added))
  unfolding get Map.find
  get-first factories added key =
      ap (λ m. Option.map (λ (pass : P). (key, pass)) (Map.find key m))
        (add_passes-fresh added (record (fresh {P = P}) { factories = factories }) refl
          ∙ sym (emplace_all-append factories added []))
      ∙ ap (Option.map (λ (pass : P). (key, pass))) (find-emplace_all key (factories ++ added) [])
