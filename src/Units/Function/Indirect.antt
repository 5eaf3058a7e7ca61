-- ===== src/Units/Function/Indirect.antt =====
-- Function::GetIndirectInstructions of ReWizardLib/source/Analysis/Units/Function.cpp. Its lookups may
-- split blocks. Where one splits the very block whose successors are traversed, the traversal goes on
-- over a vector that was changed, which is undefined; the model then has no result.
pub mod Found
use re_wizard.Prelude.{
  ℕ, zero, suc, Bool, false, Option, none, some, List, [], length, get_elem?, ◌+◌, ◌*◌, ◌∷◌, ◌++◌,
  ◌==◌, if◌then◌else◌, ◌>>=◌, nat_key,
}
use re_wizard.Prelude.Map.{Map}
use re_wizard.Prelude.Set
use re_wizard.Prelude.Set.{Set}
use re_wizard.Insn.{Instruction}
use re_wizard.Insn.Walk.{walk_block}
use re_wizard.Units.BasicBlock.{BasicBlock}
use re_wizard.Units.Function.{Function}
use re_wizard.Units.Function.Normalize.{slack}
use re_wizard.Units.Function.Graph.{width}
use re_wizard.Units.Function.Lookup.{Seek, absent, exact, inside, seek, get_basic_block_for_address}

-- The function, the starts of the visited blocks, the queue of blocks, and the instructions found.
pub record Search : Type 0 where
  pub function : Function
  pub visited : Set ℕ
  pub pending : List ℕ
  pub found : List Instruction

unfoldable pub note_indirect : Instruction → List Instruction → List Instruction
note_indirect insn found = if insn.is_indirect then found ++ insn ∷ [] else found

abbrev pub splits_block : ℕ → Seek → Bool
splits_block i (inside k b) = k == i
splits_block i s = false

abbrev pub start_of : List BasicBlock → ℕ → ℕ
start_of blocks i = elim (get_elem? blocks i) [ none ↦ 0 | some b ↦ b.start ]

abbrev pub enqueue_block : Option ℕ → Function → Search → Search
enqueue_block none f s = record s { function = f }
enqueue_block (some j) f s = record s {
  function = f;
  pending = if Set.contains (start_of f.blocks j) s.visited then s.pending else s.pending ++ j ∷ [];
}

-- The loop over the successors of the block at place `i`.
unfoldable pub follow_successors : ℕ → List ℕ → Search → Option Search
unfolding get_basic_block_for_address seek
follow_successors i [] s = some s
follow_successors i (succ ∷ succs) s =
    let r = get_basic_block_for_address s.function succ in
    let rest = follow_successors i succs (enqueue_block r.block r.function s) in
    if splits_block i (seek s.function.blocks succ) then none else rest

unfoldable pub visit_block : Map ℕ Instruction → ℕ → BasicBlock → Search → Option Search
unfolding note_indirect follow_successors
visit_block insns i b s = do
  found ← walk_block insns note_indirect b.start b.end s.found
  follow_successors i b.successors
      (record s { visited = Set.insert b.start s.visited; found = found })

-- The loop over the queue; `none` means also that the fuel ran out.
unfoldable pub collect : ℕ → Map ℕ Instruction → Search → Option Search
unfolding visit_block
collect zero insns s = none
collect (suc fuel) insns s = elim s.pending [
  | [] ↦ some s
  | i ∷ rest ↦ elim (get_elem? s.function.blocks i) [
    | none ↦ collect fuel insns (record s { pending = rest })
    | some b ↦
        if Set.contains b.start s.visited
        then collect fuel insns (record s { pending = rest })
        else visit_block insns i b (record s { pending = rest }) >>= collect fuel insns
  ]
]

-- A visit of a block brings at most its successors into the queue.
abbrev pub room : List BasicBlock → Set ℕ → ℕ
room [] visited = 0
room (b ∷ bs) visited =
    (if Set.contains b.start visited then 0 else suc (length b.successors)) + room bs visited

-- The rounds, with some more for each address at which a lookup can split a block.
abbrev pub collect_rounds : List BasicBlock → ℕ
collect_rounds blocks = suc (suc (room blocks [] + slack blocks * suc (suc (width blocks))))

-- The function afterwards and the indirect instructions.
unfoldable pub get_indirect_instructions :
    Map ℕ Instruction → Function → Option (Function × List Instruction)
unfolding collect get_basic_block_for_address
get_indirect_instructions insns f =
    let entry = get_basic_block_for_address f f.start in
    elim entry.block [
      | none ↦ some (entry.function, [])
      | some i ↦ do
        s ←
            collect (collect_rounds entry.function.blocks) insns
              (record { function = entry.function; visited = []; pending = i ∷ []; found = [] })
        some (s.function, s.found)
    ]
