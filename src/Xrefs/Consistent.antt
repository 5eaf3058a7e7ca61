-- ===== src/Xrefs/Consistent.antt =====
-- The invariant that ties the set of references to the two multimaps, and its preservation by the
-- operations of Xrefs.antt.
use text.Mathlib.Text.{◌==◌ as str_eq}
use text.Mathlib.TextEquality.{eq_iff}
use re_wizard.Prelude.{
  ℕ, String, refl, inl, inr, true, List, [], arith, Bool-cases, All, ◌≡◌, ◌↔◌, ◌&&◌, ◌∷◌, ◌==◌,
  if◌then◌else◌,
}
use re_wizard.Prelude.Set.{contains, contains-insert, contains-erase}
use re_wizard.Xrefs.{Xref, xref_key, xref_beq_iff, Entry, XrefManager, empty, add_xref, remove_xref}
use re_wizard.Xrefs.Entries.{
  occurrences, occurrences-append, occurrences-erase_one, All-erase_one, All-append,
}

-- 1 for a reference that is stored and 0 for any other.
abbrev pub stored : Xref → XrefManager → ℕ
stored x m = if contains x m.all then 1 else 0

-- Every stored reference stands exactly once in each multimap, under its own key; nothing else does.
pub record IsConsistent (m : XrefManager) : Type 0 where
  pub from_keyed : All (λ e. e.0 ≡ e.1.from) m.by_from
  pub to_keyed : All (λ e. e.0 ≡ e.1.to) m.by_to
  pub from_once : (x : Xref) → occurrences x m.by_from ≡ stored x m
  pub to_once : (x : Xref) → occurrences x m.by_to ≡ stored x m

pub empty-IsConsistent : IsConsistent empty
unfolding contains
empty-IsConsistent = record {
  from_keyed = tt;
  to_keyed = tt;
  from_once = λ x. refl;
  to_once = λ x. refl;
}

-- Adding a reference, new or known, keeps the set and the two multimaps in step.
pub add_xref-IsConsistent :
    (from to : ℕ) (type : String) (m : XrefManager)
    → IsConsistent m
    → IsConsistent (add_xref from to type m)
unfolding add_xref
add_xref-IsConsistent from to type m h =
    let x : Xref = record { from = from; to = to; type = type } in
    elim (Bool-cases (contains x m.all)) [
      | inl known ↦ rw known h
      | inr new ↦ rw new (record {
        from_keyed = All-append _ m.by_from _ h.from_keyed (refl, tt);
        to_keyed = All-append _ m.by_to _ h.to_keyed (refl, tt);
        from_once = λ y. ground (
          arith,
          occurrences-append y m.by_from ((from, x) ∷ []),
          contains-insert x y m.all,
          xref_beq_iff x y,
          h.from_once y,
        );
        to_once = λ y. ground (
          arith,
          occurrences-append y m.by_to ((to, x) ∷ []),
          contains-insert x y m.all,
          xref_beq_iff x y,
          h.to_once y,
        );
      })
    ]

-- The tests of the two erasure loops accept exactly the entries of the reference to remove.
from_test :
    (from to : ℕ) (type : String) (es : List Entry)
    → All (λ e. e.0 ≡ e.1.from) es
    → All
        (λ e.
          ((e.0 == from && (e.1.to == to && str_eq e.1.type type)) ≡ true)
          ↔ (e.1 ≡ record { from = from; to = to; type = type }))
        es
from_test from to type [] h = tt
from_test from to type (e ∷ es) h =
    (ground (arith, eq_iff e.1.type type, h.0), from_test from to type es h.1)

to_test :
    (from to : ℕ) (type : String) (es : List Entry)
    → All (λ e. e.0 ≡ e.1.to) es
    → All
        (λ e.
          ((e.0 == to && (e.1.from == from && str_eq e.1.type type)) ≡ true)
          ↔ (e.1 ≡ record { from = from; to = to; type = type }))
        es
to_test from to type [] h = tt
to_test from to type (e ∷ es) h =
    (ground (arith, eq_iff e.1.type type, h.0), to_test from to type es h.1)

-- Removing a reference, stored or not, keeps the set and the two multimaps in step.
pub remove_xref-IsConsistent :
    (from to : ℕ) (type : String) (m : XrefManager)
    → IsConsistent m
    → IsConsistent (remove_xref from to type m)
unfolding remove_xref
remove_xref-IsConsistent from to type m h =
    let x : Xref = record { from = from; to = to; type = type } in
    elim (Bool-cases (contains x m.all)) [
      | inr absent ↦ rw absent h
      | inl known ↦ rw known (record {
        from_keyed = All-erase_one _ _ m.by_from h.from_keyed;
        to_keyed = All-erase_one _ _ m.by_to h.to_keyed;
        from_once = λ y. ground (
          arith,
          occurrences-erase_one _ x y m.by_from (from_test from to type m.by_from h.from_keyed),
          contains-erase x y m.all,
          xref_beq_iff x y,
          h.from_once y,
        );
        to_once = λ y. ground (
          arith,
          occurrences-erase_one _ x y m.by_to (to_test from to type m.by_to h.to_keyed),
          contains-erase x y m.all,
          xref_beq_iff x y,
          h.to_once y,
        );
      })
    ]
