-- ===== src/Passes/Opaque.antt =====
-- ReWizardLib/source/Analysis/Passes/OpaquePredicatePass.cpp: the dead edge of a branch whose
-- direction is known is removed from its block, and the graph of the function is built again.
pub mod Edges
use re_wizard.Prelude.{
  ℕ, Bool, true, false, Option, none, some, List, [], get_elem?, modify, ◌∷◌, if◌then◌else◌,
  nat_key,
}
use mathlib.Core.Option
use re_wizard.Prelude.Map.{Map}
use re_wizard.Units.BasicBlock.{BasicBlock, remove_successor}
use re_wizard.Units.Function.{Function}
use re_wizard.Units.Function.Lookup.{block_covering}
use re_wizard.Units.Function.Graph.{build_cfg}

-- succs[0] is the target of the branch and succs[1] the fallthrough; a block with fewer successors
-- is skipped.
unfoldable pub dead_edge : Bool → List ℕ → Option ℕ
dead_edge always_taken (branch_target ∷ fallthrough ∷ rest) =
    some (if always_taken then fallthrough else branch_target)
dead_edge always_taken succs = none

-- The body of the loop over the results; `none` when the blocks stay as they are.
unfoldable pub prune_one : ℕ → Bool → List BasicBlock → Option (List BasicBlock)
unfolding block_covering dead_edge
prune_one addr always_taken bs = elim (block_covering bs addr) [
  | none ↦ none
  | some i ↦ elim (get_elem? bs i) [
    | none ↦ none
    | some b ↦ elim (dead_edge always_taken b.successors) [
      | none ↦ none
      | some dead ↦ some (modify (remove_successor dead) i bs)
    ]
  ]
]

-- The loop over the results: the blocks and `modified`.
unfoldable pub prune_all : Map ℕ Bool → List BasicBlock → Bool → List BasicBlock × Bool
unfolding prune_one
prune_all [] bs modified = (bs, modified)
prune_all ((addr, always_taken) ∷ results) bs modified = elim (prune_one addr always_taken bs) [
  | none ↦ prune_all results bs modified
  | some pruned ↦ prune_all results pruned true
]

abbrev pub rebuild : Function → List BasicBlock × Bool → Option Function
rebuild f (bs, true) = build_cfg (record f { blocks = bs })
rebuild f (bs, false) = some (record f { blocks = bs })

unfoldable pub run_function : Function → Option Function
unfolding prune_all
run_function f =
    if f.has_opaque_predicates
    then rebuild f (prune_all f.opaque_predicate_results f.blocks false)
    else some f

-- Run, over the functions of the module.
unfoldable pub run : List Function → Option (List Function)
unfolding run_function
run [] = some []
run (f ∷ fs) = Option.bind (run_function f) (λ g. Option.bind (run fs) (λ gs. some (g ∷ gs)))
