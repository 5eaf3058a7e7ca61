-- ===== src/Units/Function/Graph.antt =====
-- Function::BuildCFG and the whole of Function::NormalizeBasicBlocks, of
-- ReWizardLib/source/Analysis/Units/Function.cpp. A vertex is the place of its block. A block is
-- marked as visited when it has been expanded, so it can stand in the queue more than once.
pub mod Steps
pub mod Invariant
pub mod Ends
pub mod Correct
use mathlib.Core.Option
use re_wizard.Prelude.{
  ℕ, zero, suc, Option, none, some, List, [], length, get_elem?, ◌+◌, ◌*◌, ◌∷◌, ◌++◌, if◌then◌else◌,
  nat_key,
}
use re_wizard.Prelude.Set
use re_wizard.Prelude.Set.{Set}
use re_wizard.Units.BasicBlock.{BasicBlock}
use re_wizard.Units.Function.{Function}
use re_wizard.Units.Function.Lookup.{block_covering}
use re_wizard.Units.Function.Normalize.{split_blocks}

pub record Walk : Type 0 where
  pub edges : List (ℕ × ℕ)
  pub pending : List ℕ
  pub visited : Set ℕ

-- The loop over the successors of the block at `from`.
unfoldable pub follow : List BasicBlock → ℕ → List ℕ → Walk → Walk
follow blocks from [] w = w
follow blocks from (succ ∷ succs) w = follow blocks from succs (elim (block_covering blocks succ) [
  | none ↦ w
  | some to ↦ record w {
    edges = w.edges ++ (from, to) ∷ [];
    pending = if Set.contains to w.visited then w.pending else w.pending ++ to ∷ [];
  }
])

abbrev pub successors_at : List BasicBlock → ℕ → List ℕ
successors_at blocks i = elim (get_elem? blocks i) [ none ↦ [] | some b ↦ b.successors ]

-- One round of the loop over the queue, after `from` was popped.
unfoldable pub expand : List BasicBlock → ℕ → Walk → Walk
unfolding follow
expand blocks from w =
    let w' = follow blocks from (successors_at blocks from) w in
    record w' { visited = Set.insert from w'.visited }

-- `none` means that the fuel ran out.
unfoldable pub walk : ℕ → List BasicBlock → Walk → Option Walk
unfolding expand
walk zero blocks w = none
walk (suc fuel) blocks w = elim w.pending [
  | [] ↦ some w
  | from ∷ rest ↦ walk fuel blocks (expand blocks from (record w { pending = rest }))
]

-- The edges out of all blocks.
abbrev pub width : List BasicBlock → ℕ
width [] = 0
width (b ∷ bs) = length b.successors + width bs

-- Enough rounds after the first for a queue of at most `room` entries, when `u` blocks are still
-- to be visited and a round appends at most `d` entries.
unfoldable pub bound : ℕ → ℕ → ℕ → ℕ
bound d zero room = 0
bound d (suc u) room = suc (room + d) + bound d u (room + d + (room + d) * d)

unfoldable pub build_cfg : Function → Option Function
unfolding walk bound
build_cfg f = elim (block_covering f.blocks f.start) [
  | none ↦ some (record f { graph = record { vertices = length f.blocks; edges = [] } })
  | some entry ↦
      Option.map
        (λ (w : Walk). record f { graph = record { vertices = length f.blocks; edges = w.edges } })
        (walk (suc (bound (width f.blocks) (length f.blocks) 1)) f.blocks
          (record { edges = []; pending = entry ∷ []; visited = [] }))
]

unfoldable pub normalize_basic_blocks : Function → Option Function
unfolding split_blocks build_cfg
normalize_basic_blocks f = Option.bind (split_blocks f) build_cfg
