-- ===== src/Passes/Opaque/Edges.antt =====
-- What the opaque-predicate pass does to the successors of the blocks.
use re_wizard.Prelude.{
  ℕ, zero, suc, refl, ap, inl, inr, Bool, true, not, none, some, List, [], arith, Option-cases,
  get_elem?, modify, keep, In, In-keep, ◌≡◌, ◌∙◌, ◌≢◌, ◌⊎◌, ◌∷◌, ◌==◌, if◌then◌else◌, nat_key,
}
use mathlib.Core.Path.{subst, sym}
use mathlib.Core.Option.{some-injective}
use re_wizard.Prelude.Map.{Map}
use re_wizard.Units.BasicBlock.{BasicBlock, remove_successor}
use re_wizard.Units.Function.Lookup.{block_covering}
use re_wizard.Passes.Opaque.{dead_edge, prune_one, prune_all}

-- A block with no successor that the old one does not have.
abbrev pub Prunes : BasicBlock → BasicBlock → ℕ → Type 0
Prunes b b' a = (b'.start ≡ b.start) × (b'.end ≡ b.end) × In a b.successors

remove_successor-Prunes :
    (dead : ℕ) (b : BasicBlock) (a : ℕ)
    → In a (remove_successor dead b).successors
    → Prunes b (remove_successor dead b) a
unfolding remove_successor
remove_successor-Prunes dead b a h =
    (refl, refl, ((In-keep (λ s. not (s == dead)) a b.successors).0 h).0)

modify-Prunes :
    (dead i j : ℕ) (bs : List BasicBlock) (b' : BasicBlock) (a : ℕ)
    → get_elem? (modify (remove_successor dead) i bs) j ≡ some b'
    → In a b'.successors
    → (b : BasicBlock) × (get_elem? bs j ≡ some b) × Prunes b b' a
modify-Prunes dead i j [] b' a h m = absurd (cc)
modify-Prunes dead zero zero (b ∷ bs) b' a h m =
    let e = some-injective (remove_successor dead b) b' h in
    (b, refl, subst (λ c. In a c.successors → Prunes b c a) e (remove_successor-Prunes dead b a) m)
modify-Prunes dead zero (suc j) (b ∷ bs) b' a h m = (b', h, (refl, refl, m))
modify-Prunes dead (suc i) zero (b ∷ bs) b' a h m = (b', h, (refl, refl, m))
modify-Prunes dead (suc i) (suc j) (b ∷ bs) b' a h m = modify-Prunes dead i j bs b' a h m

-- One result either leaves the blocks or removes one successor from one block.
prune_one-cases :
    (addr : ℕ) (taken : Bool) (bs : List BasicBlock)
    → (prune_one addr taken bs ≡ none)
      ⊎ ((i : ℕ) × (dead : ℕ) × (prune_one addr taken bs
            ≡ some (modify (remove_successor dead) i bs)))
unfolding prune_one
prune_one-cases addr taken bs = elim (Option-cases (block_covering bs addr)) [
  | inl gap ↦ inl (rw (gap, prune_one) refl)
  | inr (i, at) ↦ elim (Option-cases (get_elem? bs i)) [
    | inl gap ↦ inl (rw (at, gap, prune_one) refl)
    | inr (b, here) ↦ elim (Option-cases (dead_edge taken b.successors)) [
      | inl short ↦ inl (rw (at, here, short, prune_one) refl)
      | inr (dead, cut) ↦ inr (i, dead, rw (at, here, cut, prune_one) refl)
    ]
  ]
]

-- The pass keeps the range of every block and adds no successor: whatever the list of results is,
-- the block at a place of the list still starts and ends where the block there did before, and a
-- successor that it has, it had before.
pub prune_all-Prunes :
    (results : Map ℕ Bool) (bs : List BasicBlock) (modified : Bool) (j : ℕ) (b' : BasicBlock)
    (a : ℕ)
    → get_elem? (prune_all results bs modified).0 j ≡ some b'
    → In a b'.successors
    → (b : BasicBlock) × (get_elem? bs j ≡ some b) × Prunes b b' a
unfolding prune_all
prune_all-Prunes [] bs modified j b' a h m = (b', h, (refl, refl, m))
prune_all-Prunes ((addr, taken) ∷ results) bs modified j b' a h m =
    elim (prune_one-cases addr taken bs) [
      | inl same ↦
          prune_all-Prunes results bs modified j b' a
            (subst
              (λ o.
                get_elem?
                  (elim o as (λ _. List BasicBlock × Bool) [
                    | none ↦ prune_all results bs modified
                    | some pruned ↦ prune_all results pruned true
                  ]).0
                  j
                ≡ some b')
              same h)
            m
      | inr (i, dead, cut) ↦
          let (c, at, p) =
            prune_all-Prunes results (modify (remove_successor dead) i bs) true j b' a
              (subst
                (λ o.
                  get_elem?
                    (elim o as (λ _. List BasicBlock × Bool) [
                      | none ↦ prune_all results bs modified
                      | some pruned ↦ prune_all results pruned true
                    ]).0
                    j
                  ≡ some b')
                cut h)
              m in
          let (b, before, q) = modify-Prunes dead i j bs c a at p.2 in
          (b, before, (p.0 ∙ q.0, p.1 ∙ q.1, q.2))
    ]

modify-at {ℓ} :
    {A : Type ℓ} (g h : A → A) (i : ℕ) (xs : List A) (x : A)
    → get_elem? xs i ≡ some x
    → g x ≡ h x
    → modify g i xs ≡ modify h i xs
modify-at g h i [] x at same = refl
modify-at g h zero (y ∷ ys) x at same =
    ap (λ z. z ∷ ys) (subst (λ z. g z ≡ h z) (sym (some-injective y x at)) same)
modify-at g h (suc i) (y ∷ ys) x at same = ap (λ zs. y ∷ zs) (modify-at g h i ys x at same)

keep-live :
    (taken : Bool) (t f : ℕ)
    → t ≢ f
    → keep (λ s. not (s == (if taken then f else t))) (t ∷ f ∷ []) ≡ (if taken then t else f) ∷ []
unfolding keep
keep-live taken t f differ = ground arith

-- Of the two edges of a block with two different successors, the one that is never taken goes and
-- the other stays: a result for an address that the block at place `i` is the first to cover
-- leaves at that place a block with the live successor and without the dead one.
pub prune_one-live :
    (addr : ℕ) (taken : Bool) (bs : List BasicBlock) (i : ℕ) (b : BasicBlock)
    (branch_target fallthrough : ℕ)
    → block_covering bs addr ≡ some i
    → get_elem? bs i ≡ some b
    → b.successors ≡ branch_target ∷ fallthrough ∷ []
    → branch_target ≢ fallthrough
    → prune_one addr taken bs
      ≡ some (
          modify
            (λ c. record c { successors = (if taken then branch_target else fallthrough) ∷ [] })
            i
            bs)
unfolding prune_one
prune_one-live addr taken bs i b branch_target fallthrough at here succs differ =
    let dead = if taken then fallthrough else branch_target in
    let cut : dead_edge taken b.successors ≡ some dead =
      ap (dead_edge taken) succs ∙ unfold dead_edge in refl in
    rw (at, here, cut, prune_one)
      (ap some (
        modify-at (remove_successor dead)
          (λ c. record c { successors = (if taken then branch_target else fallthrough) ∷ [] }) i bs
          b here
          (unfold remove_successor in
            ap (λ ss. record b { successors = ss })
              (ap (keep (λ s. not (s == dead))) succs
                ∙ keep-live taken branch_target fallthrough differ))))
