-- ===== src/Units/Function/Graph/Steps.antt =====
-- One round of BuildCFG, and the edges and paths that it is to follow.
use re_wizard.Prelude.{
  ℕ, refl, inl, inr, Bool, not, none, some, List, [], map, Bool-cases, Option-cases, keep, In, ◌≡◌,
  ◌∙◌, ◌∷◌, ◌++◌, nat_key,
}
use mathlib.Core.List.{append-nil, append_assoc}
use re_wizard.Prelude.Set
use re_wizard.Prelude.Set.{Set, contains, contains-insert}
use re_wizard.Units.BasicBlock.{BasicBlock}
use re_wizard.Units.Function.Lookup.{block_covering}
use re_wizard.Units.Function.Graph.{Walk, follow, successors_at, expand}

-- The blocks that the successors lead to; a successor that no block covers leads nowhere.
unfoldable pub targets : List BasicBlock → List ℕ → List ℕ
targets blocks [] = []
targets blocks (succ ∷ succs) = elim (block_covering blocks succ) [
  | none ↦ targets blocks succs
  | some to ↦ to ∷ targets blocks succs
]

-- A successor of the block at `i` lies in the block at `t`, and in no block before that.
abbrev pub Edge : List BasicBlock → ℕ → ℕ → Type 0
Edge blocks i t = In t (targets blocks (successors_at blocks i))

-- The blocks on the paths from the one at `entry`.
pub data Reach (blocks : List BasicBlock) (entry : ℕ) : ℕ → Type 0 where
  start : Reach blocks entry entry
  step : {i t : ℕ} → Reach blocks entry i → Edge blocks i t → Reach blocks entry t

abbrev pub fresh : Set ℕ → ℕ → Bool
fresh visited t = not (contains t visited)

-- What a round appends to the edges and to the queue.
follow-eq :
    (blocks : List BasicBlock) (from : ℕ) (succs : List ℕ) (es : List (ℕ × ℕ)) (q : List ℕ)
    (v : Set ℕ)
    → follow blocks from succs (record { edges = es; pending = q; visited = v }) ≡ record {
      edges = es ++ map (λ t. (from, t)) (targets blocks succs);
      pending = q ++ keep (fresh v) (targets blocks succs);
      visited = v;
    }
unfolding follow targets keep
follow-eq blocks from [] es q v = rw (append-nil es, append-nil q) refl
follow-eq blocks from (succ ∷ succs) es q v = elim (Option-cases (block_covering blocks succ)) [
  | inl nowhere ↦ rw (nowhere, follow, targets) (follow-eq blocks from succs es q v)
  | inr (to, here) ↦
      let more = es ++ (from, to) ∷ [] in
      elim (Bool-cases (contains to v)) [
        | inl seen ↦
            rw (here, follow, targets)
              (rw seen (
                follow-eq blocks from succs more q v
                ∙ rw
                    (append_assoc es ((from, to) ∷ [])
                      (map (λ t. (from, t)) (targets blocks succs)))
                    refl))
        | inr new ↦
            rw (here, follow, targets)
              (rw new (
                follow-eq blocks from succs more (q ++ to ∷ []) v
                ∙ rw
                    (
                      append_assoc es ((from, to) ∷ [])
                          (map (λ t. (from, t)) (targets blocks succs)),
                      append_assoc q (to ∷ []) (keep (fresh v) (targets blocks succs)),
                    )
                    refl))
      ]
]

pub expand-eq :
    (blocks : List BasicBlock) (from : ℕ) (w : Walk)
    → expand blocks from w ≡ record {
      edges = w.edges ++ map (λ t. (from, t)) (targets blocks (successors_at blocks from));
      pending = w.pending ++ keep (fresh w.visited) (targets blocks (successors_at blocks from));
      visited = Set.insert from w.visited;
    }
unfolding expand
expand-eq blocks from w =
    rw (follow-eq blocks from (successors_at blocks from) w.edges w.pending w.visited) refl
