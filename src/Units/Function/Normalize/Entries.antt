-- ===== src/Units/Function/Normalize/Entries.antt =====
-- Which addresses the set of entries holds.
use re_wizard.Prelude.{
  ℕ, inl, inr, true, List, [], arith, ltb, keep, In, ◌≡◌, ◌⊎◌, ◌&&◌, ◌∷◌, nat_key,
}
use re_wizard.Prelude.Set
use re_wizard.Prelude.Set.{Set, contains, contains-insert, contains_iff}
use re_wizard.Units.BasicBlock.{BasicBlock}
use re_wizard.Units.Function.Lookup.{Starts}
use re_wizard.Units.Function.Normalize.{insert_all, block_entries, inner_entries}

-- An address that some block of the list names as a successor.
abbrev pub Succeeds : List BasicBlock → ℕ → Type 0
Succeeds [] a = ⊥
Succeeds (b ∷ bs) a = In a b.successors ⊎ Succeeds bs a

pub contains-insert_all :
    (a : ℕ) (xs : List ℕ) (s : Set ℕ)
    → (In a xs ⊎ (contains a s ≡ true))
    → contains a (insert_all xs s) ≡ true
unfolding insert_all
contains-insert_all a [] s (inl h) = absurd h.0
contains-insert_all a [] s (inr h) = h
contains-insert_all a (x ∷ xs) s h =
    ground (arith, contains-insert_all a xs (Set.insert x s), contains-insert x a s)

pub contains-block_entries :
    (a : ℕ) (bs : List BasicBlock) (s : Set ℕ)
    → (Starts bs a ⊎ Succeeds bs a ⊎ (contains a s ≡ true))
    → contains a (block_entries bs s) ≡ true
unfolding block_entries
contains-block_entries a [] s h = ground arith
contains-block_entries a (b ∷ bs) s h = ground (
  arith,
  contains-block_entries a bs (insert_all b.successors (Set.insert b.start s)),
  contains-insert_all a b.successors (Set.insert b.start s),
  contains-insert b.start a s,
)

pub contains-inner_entries :
    (a : ℕ) (bs : List BasicBlock) (s : Set ℕ)
    → contains a s ≡ true
    → contains a (inner_entries bs s) ≡ true
unfolding inner_entries
contains-inner_entries a [] s h = h
contains-inner_entries a (b ∷ bs) s h =
    let own = keep (λ succ. ltb b.start succ && ltb succ b.end) b.successors in
    contains-inner_entries a bs (insert_all own s) (contains-insert_all a own s (inr h))
