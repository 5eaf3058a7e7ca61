-- ===== src/Units/BasicBlock.antt =====
-- ReWizardLib/source/Analysis/Units/BasicBlock.cpp and include/ReWizard/Analysis/Units/BasicBlock.h.
-- The pointer to the owning function is the place of the block in Units/Function.antt; the LLVM
-- block that the lifting pass attaches is not modelled.
use mathlib.Core.List.{append-nil, append_assoc}
use re_wizard.Prelude.{
  ℕ, String, refl, ap, Bool, false, not, List, [], arith, keep, ◌≤◌, ◌<◌, ◌≡◌, ◌↔◌, ◌⊎◌, ◌∷◌, ◌++◌,
  ◌==◌, nat_key,
}

-- A name as the source forms it: a text, or a prefix with a number printed by std::hex, of which no
-- code reads the digits.
pub data Name : Type 0 where
  plain : String → Name
  hexed : String → ℕ → Name

pub record BasicBlock : Type 0 where
  pub name : Name
  pub start : ℕ
  pub end : ℕ
  pub last_insn_addr : ℕ
  pub contains_indirect_calls : Bool
  pub contains_indirect_jumps : Bool
  pub successors : List ℕ
  pub predecessors : List ℕ

-- BasicBlock::Create, with the default name.
unfoldable pub create : ℕ → BasicBlock
create start = record {
  name = hexed "loc_" start;
  start = start;
  end = 0;
  last_insn_addr = 0;
  contains_indirect_calls = false;
  contains_indirect_jumps = false;
  successors = [];
  predecessors = [];
}

unfoldable pub add_predecessor : ℕ → BasicBlock → BasicBlock
add_predecessor address b = record b { predecessors = b.predecessors ++ address ∷ [] }

unfoldable pub add_successor : ℕ → BasicBlock → BasicBlock
add_successor address b = record b { successors = b.successors ++ address ∷ [] }

-- std::remove with erase: every occurrence goes.
unfoldable pub remove_successor : ℕ → BasicBlock → BasicBlock
remove_successor address b = record b { successors = keep (λ s. not (s == address)) b.successors }

-- The loop of Split that copies the successors.
unfoldable pub add_successors : List ℕ → BasicBlock → BasicBlock
unfolding add_successor
add_successors [] b = b
add_successors (s ∷ ss) b = add_successors ss (add_successor s b)

-- BasicBlock::Split: the old block and the new one.
unfoldable pub split : ℕ → BasicBlock → BasicBlock × BasicBlock
unfolding create add_predecessor add_successors
split address b =
    let fresh = record (create address) { end = b.end } in
    (
      record b { end = address; successors = address ∷ [] },
      add_successors b.successors (add_predecessor b.start fresh),
    )

-- An address of the block.
abbrev pub Covers : BasicBlock → ℕ → Type 0
Covers b a = (b.start ≤ a) × (a < b.end)

-- An address strictly inside the block.
abbrev pub Inside : BasicBlock → ℕ → Type 0
Inside b a = (b.start < a) × (a < b.end)

add_successors-eq :
    (ss : List ℕ) (b : BasicBlock)
    → add_successors ss b ≡ record b { successors = b.successors ++ ss }
unfolding add_successors
add_successors-eq [] b = rw append-nil
add_successors-eq (s ∷ ss) b = rw (add_successors-eq ss _, append_assoc) refl

-- What a split at an address inside the block yields: the old block keeps its start and ends at
-- the address, with the new block as its one successor; the new block runs from the address to the
-- old end, inherits the successors, and has the old start as its one predecessor.
pub record SplitsAt (b : BasicBlock) (address : ℕ) : Type 0 where
  pub old : (split address b).0 ≡ record b { end = address; successors = address ∷ [] }
  pub start : (split address b).1.start ≡ address
  pub end : (split address b).1.end ≡ b.end
  pub successors : (split address b).1.successors ≡ b.successors
  pub predecessors : (split address b).1.predecessors ≡ b.start ∷ []

-- A split at an address yields what SplitsAt describes: the old block ends there and leads to the new
-- one, which runs to the old end, inherits the successors and has the old start as its predecessor.
pub split-SplitsAt : (b : BasicBlock) (address : ℕ) → SplitsAt b address
unfolding split
split-SplitsAt b address =
    let e = add_successors-eq b.successors in
    record { old = refl; start = rw e; end = rw e; successors = rw e; predecessors = rw e }

-- A split inside a block parts its addresses between the two blocks: each address of the block is
-- in exactly one of them, and neither has another.
pub split-Covers :
    (b : BasicBlock) (address a : ℕ)
    → Inside b address
    → (Covers b a ↔ (Covers (split address b).0 a ⊎ Covers (split address b).1 a))
      × (¬ (Covers (split address b).0 a × Covers (split address b).1 a))
split-Covers b address a h =
    let s = split-SplitsAt b address in
    ground (arith, ap (λ c. c.start) s.old, ap (λ c. c.end) s.old, s.start, s.end)
