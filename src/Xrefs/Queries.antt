-- ===== src/Xrefs/Queries.antt =====
-- What the queries of Xrefs.antt answer on a consistent table.
use text.Mathlib.Text.{◌==◌ as str_eq}
use text.Mathlib.TextEquality.{eq_iff}
use re_wizard.Prelude.{
  ℕ, String, refl, sym, Bool, true, false, List, [], arith, ltb, length, keep, any, In, length-map,
  In-keep, ◌≡◌, ◌↔◌, ◌∷◌, ◌==◌, if◌then◌else◌,
}
use re_wizard.Prelude.Set.{contains, contains-insert, contains-erase}
use re_wizard.Xrefs.{
  Xref, xref_key, xref_beq, xref_beq_iff, Entry, XrefManager, add_xref, remove_xref, range,
  range_of_type, get_xrefs_to, get_xrefs_from, get_calls_to, get_calls_from, get_jumps_to,
  get_jumps_from, get_data_refs_to, get_xref_count_to, get_xref_count_from, has_xrefs_to,
  has_xrefs_from,
}
use re_wizard.Xrefs.Entries.{In-range}
use re_wizard.Xrefs.Consistent.{IsConsistent}

-- What a query answers is what the set stores.
abbrev pub Answers : XrefManager → List Xref → (Xref → Type 0) → Type 0
Answers m xs P = (x : Xref) → In x xs ↔ ((contains x m.all ≡ true) × P x)

module _ (m : XrefManager) (h : IsConsistent m) (address : ℕ) where
  pub get_xrefs_to-Answers : Answers m (get_xrefs_to m address) (λ x. x.to ≡ address)
  unfolding get_xrefs_to
  get_xrefs_to-Answers x =
      ground (arith, In-range (λ y. y.to) x address m.by_to h.to_keyed, h.to_once x)

  pub get_xrefs_from-Answers : Answers m (get_xrefs_from m address) (λ x. x.from ≡ address)
  unfolding get_xrefs_from
  get_xrefs_from-Answers x =
      ground (arith, In-range (λ y. y.from) x address m.by_from h.from_keyed, h.from_once x)

  to_of_type :
      (type : String) (x : Xref)
      → In x (range_of_type type address m.by_to)
        ↔ ((contains x m.all ≡ true) × (x.to ≡ address) × (x.type ≡ type))
  unfolding range_of_type
  to_of_type type x = ground (
    arith,
    In-keep (λ (y : Xref). str_eq y.type type) x (range address m.by_to),
    In-range (λ y. y.to) x address m.by_to h.to_keyed,
    h.to_once x,
    eq_iff x.type type,
  )

  from_of_type :
      (type : String) (x : Xref)
      → In x (range_of_type type address m.by_from)
        ↔ ((contains x m.all ≡ true) × (x.from ≡ address) × (x.type ≡ type))
  unfolding range_of_type
  from_of_type type x = ground (
    arith,
    In-keep (λ (y : Xref). str_eq y.type type) x (range address m.by_from),
    In-range (λ y. y.from) x address m.by_from h.from_keyed,
    h.from_once x,
    eq_iff x.type type,
  )

-- The seven queries of a consistent table, each with what it answers.
pub record QueriesAnswer (m : XrefManager) (address : ℕ) : Type 0 where
  pub xrefs_to : Answers m (get_xrefs_to m address) (λ x. x.to ≡ address)
  pub xrefs_from : Answers m (get_xrefs_from m address) (λ x. x.from ≡ address)
  pub calls_to : Answers m (get_calls_to m address) (λ x. (x.to ≡ address) × (x.type ≡ "call"))
  pub calls_from :
      Answers m (get_calls_from m address) (λ x. (x.from ≡ address) × (x.type ≡ "call"))
  pub jumps_to : Answers m (get_jumps_to m address) (λ x. (x.to ≡ address) × (x.type ≡ "jump"))
  pub jumps_from :
      Answers m (get_jumps_from m address) (λ x. (x.from ≡ address) × (x.type ≡ "jump"))
  pub data_refs_to :
      Answers m (get_data_refs_to m address) (λ x. (x.to ≡ address) × (x.type ≡ "data"))

flatten : {A B C : Type 0} {D : Type 0} → (D ↔ (A × B × C)) → D ↔ (A × (B × C))
flatten e = (λ d. let (a, b, c) = e.0 d in (a, (b, c)), λ p. e.1 (p.0, p.1.0, p.1.1))

-- On a consistent table each of the seven queries returns exactly the stored references with the
-- address in the asked-for place and, where the query asks for a type, of that type.
pub queries_answer : (m : XrefManager) (address : ℕ) → IsConsistent m → QueriesAnswer m address
unfolding get_calls_to get_calls_from get_jumps_to get_jumps_from get_data_refs_to
queries_answer m address h = record {
  xrefs_to = get_xrefs_to-Answers m h address;
  xrefs_from = get_xrefs_from-Answers m h address;
  calls_to = λ x. flatten (to_of_type m h address "call" x);
  calls_from = λ x. flatten (from_of_type m h address "call" x);
  jumps_to = λ x. flatten (to_of_type m h address "jump" x);
  jumps_from = λ x. flatten (from_of_type m h address "jump" x);
  data_refs_to = λ x. flatten (to_of_type m h address "data" x);
}

any-length : (p : Entry → Bool) (es : List Entry) → any p es ≡ ltb 0 (length (keep p es))
unfolding any keep
any-length p [] = refl
any-length p (e ∷ es) = ground (arith, any-length p es)

-- The counts are the lengths of the lists that the queries return, and the tests say whether a
-- count is positive.
pub counts_agree :
    (m : XrefManager) (address : ℕ)
    → (get_xref_count_to m address ≡ length (get_xrefs_to m address))
      × (get_xref_count_from m address ≡ length (get_xrefs_from m address))
      × (has_xrefs_to m address ≡ ltb 0 (get_xref_count_to m address))
      × (has_xrefs_from m address ≡ ltb 0 (get_xref_count_from m address))
unfolding get_xref_count_to get_xref_count_from get_xrefs_to get_xrefs_from has_xrefs_to
    has_xrefs_from range
counts_agree m address = (
  sym (length-map _ (keep (λ (e : Entry). e.0 == address) m.by_to)),
  sym (length-map _ (keep (λ (e : Entry). e.0 == address) m.by_from)),
  any-length _ m.by_to,
  any-length _ m.by_from,
)

-- After an addition exactly the added reference and the old ones are stored; after a removal
-- exactly the old ones other than the removed one.
pub add_remove_stored :
    (from to : ℕ) (type : String) (m : XrefManager) (x : Xref)
    → (contains x (add_xref from to type m).all ≡ (
        if xref_beq (record { from = from; to = to; type = type }) x
        then true
        else contains x m.all))
      × (contains x (remove_xref from to type m).all ≡ (
          if xref_beq (record { from = from; to = to; type = type }) x
          then false
          else contains x m.all))
unfolding add_xref remove_xref
add_remove_stored from to type m x =
    let y : Xref = record { from = from; to = to; type = type } in
    ground (arith, xref_beq_iff y x, contains-insert y x m.all, contains-erase y x m.all)
