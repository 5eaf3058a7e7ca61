-- ===== src/Units/Function/Normalize.antt =====
-- Function::NormalizeBasicBlocks of ReWizardLib/source/Analysis/Units/Function.cpp, up to its last
-- call (BuildCFG, in Units/Function/Graph.antt): blocks are split until every entry address that
-- lies inside a block starts one. `goto reset` is the next round of a loop on fuel.
pub mod Slack
pub mod Entries
pub mod Terminates
pub mod Result
pub mod Kept
use re_wizard.Prelude.{
  ℕ, zero, suc, true, false, Option, none, some, List, [], ltb, length, get_elem?, modify, keep,
  ◌+◌, ◌-◌, ◌&&◌, ◌∷◌, ◌==◌, if◌then◌else◌, nat_key,
}
use re_wizard.Prelude.Set
use re_wizard.Prelude.Set.{Set}
use re_wizard.Units.BasicBlock.{BasicBlock, add_predecessor}
use re_wizard.Units.Function.{Function}
use re_wizard.Units.Function.Lookup.{Found, get_basic_block_for_address}

unfoldable pub insert_all : List ℕ → Set ℕ → Set ℕ
insert_all [] s = s
insert_all (a ∷ rest) s = insert_all rest (Set.insert a s)

-- The starts and the successors of the blocks.
unfoldable pub block_entries : List BasicBlock → Set ℕ → Set ℕ
unfolding insert_all
block_entries [] s = s
block_entries (b ∷ bs) s = block_entries bs (insert_all b.successors (Set.insert b.start s))

-- The second loop: the successors that lie strictly inside their own block, once more.
unfoldable pub inner_entries : List BasicBlock → Set ℕ → Set ℕ
unfolding insert_all
inner_entries [] s = s
inner_entries (b ∷ bs) s =
    inner_entries bs (insert_all (keep (λ succ. ltb b.start succ && ltb succ b.end) b.successors) s)

unfoldable pub entries_of : List BasicBlock → Set ℕ
unfolding block_entries inner_entries
entries_of bs = inner_entries bs (block_entries bs [])

-- A function and whether the round has to start again.
pub data Pass : Type 0 where
  reset through : Function → Pass

-- The loop over the entries, for the block `b`.
unfoldable pub scan_entries : BasicBlock → Set ℕ → Function → Pass
scan_entries b [] f = through f
scan_entries b (entry ∷ entries) f =
    let found = get_basic_block_for_address f entry in
    if entry == b.start
    then scan_entries b entries f
    else if ltb b.start entry && ltb entry b.end
    then elim found.was_split [
      | true ↦ reset found.function
      | false ↦ scan_entries b entries found.function
    ]
    else scan_entries b entries f

abbrev pub add_predecessor_at : ℕ → Option ℕ → Function → Function
add_predecessor_at start none f = f
add_predecessor_at start (some i) f = record f {
  blocks = modify (add_predecessor start) i f.blocks;
}

-- The loop over the successors, for the block that starts at `start`.
unfoldable pub link_successors : ℕ → List ℕ → Function → Pass
link_successors start [] f = through f
link_successors start (succ ∷ succs) f =
    let found = get_basic_block_for_address f succ in
    let g = add_predecessor_at start found.block found.function in
    elim found.was_split [ true ↦ reset g | false ↦ link_successors start succs g ]

-- The loop over the blocks: the block at place `i`, and `n` of them to go.
unfoldable pub scan_blocks : Set ℕ → ℕ → ℕ → Function → Pass
unfolding scan_entries link_successors
scan_blocks entries zero i f = through f
scan_blocks entries (suc n) i f = elim (get_elem? f.blocks i) [
  | none ↦ through f
  | some b ↦ elim (scan_entries b entries f) [
    | reset g ↦ reset g
    | through g ↦ elim (link_successors b.start b.successors g) [
      | reset h ↦ reset h
      | through h ↦ scan_blocks entries n (suc i) h
    ]
  ]
]

-- The rounds; `none` means that the fuel ran out.
unfoldable pub rounds : ℕ → Set ℕ → Function → Option Function
unfolding scan_blocks
rounds zero entries f = none
rounds (suc fuel) entries f = elim (scan_blocks entries (length f.blocks) 0 f) [
  | through g ↦ some g
  | reset g ↦ rounds fuel entries g
]

-- The addresses strictly inside blocks, counted for each block: every split uses one up.
abbrev pub slack : List BasicBlock → ℕ
slack [] = 0
slack (b ∷ bs) = (b.end - b.start - 1) + slack bs

unfoldable pub split_blocks : Function → Option Function
unfolding entries_of rounds
split_blocks f = rounds (suc (slack f.blocks)) (entries_of f.blocks) f
