-- ===== src/Passes/Rebuilder/Edges.antt =====
-- The blocks that the handlers of the descent close.
use re_wizard.Prelude.{ℕ, refl, ap, inl, inr, true, false, [], Bool-cases, ◌≡◌, ◌∷◌, ◌++◌, nat_key}
use re_wizard.Prelude.Set
use re_wizard.Prelude.Set.{Set}
use re_wizard.Prelude.Word.{add_word}
use re_wizard.Insn.{Category, OperandKind, operand}
use re_wizard.Units.BasicBlock.{add_successor}
use re_wizard.Units.Function.{set_end, add_basic_block}
use re_wizard.Passes.Rebuilder.{
  Loader, Descent, is_within_mapping, is_executable_address, handle_branch, branch_target_edge,
  block_successor, add_reference, enqueue, is_uncond_br, is_cond_br,
}

abbrev target_of : ℕ → ℕ → Descent → ℕ
target_of pc v d = add_word (add_word pc d.insn.length) v

branch_target_edge-cond :
    (loader : Loader) (visited : Set ℕ) (pc v : ℕ) (d : Descent)
    → (operand d.insn 0).kind ≡ OperandKind.immediate v
    → is_uncond_br d.insn.category ≡ false
    → is_within_mapping loader (target_of pc v d) ≡ true
    → is_executable_address loader (target_of pc v d) ≡ true
    → branch_target_edge loader visited pc d
      ≡ block_successor
          (target_of pc v d)
          (add_reference pc (target_of pc v d) (enqueue visited (target_of pc v d) d))
unfolding branch_target_edge
branch_target_edge-cond loader visited pc v d op cond mapped exec =
    rw (op, branch_target_edge) (rw (mapped, exec, cond) refl)

-- A conditional branch with an immediate target in an executable section of the image ends its
-- block right after itself with two new successors, first the target and then the fallthrough,
-- which is the order that the opaque-predicate pass relies on; the block is handed to the function
-- as its last one.
pub handle_branch-cond :
    (loader : Loader) (visited : Set ℕ) (pc v : ℕ) (d : Descent)
    → (operand d.insn 0).kind ≡ OperandKind.immediate v
    → d.insn.category ≡ Category.cond_br
    → is_within_mapping loader (add_word (add_word pc d.insn.length) v) ≡ true
    → is_executable_address loader (add_word (add_word pc d.insn.length) v) ≡ true
    → (handle_branch loader visited pc d).function.blocks
      ≡ d.function.blocks
        ++ record d.block {
          successors =
              (d.block.successors ++ add_word (add_word pc d.insn.length) v ∷ [])
              ++ add_word pc d.insn.length ∷ [];
          end = add_word pc d.insn.length;
          last_insn_addr = pc;
        }
          ∷ []
unfolding handle_branch branch_target_edge set_end add_basic_block add_successor
handle_branch-cond loader visited pc v d op cond mapped exec =
    rw
      (
        branch_target_edge-cond loader visited pc v d op (ap is_uncond_br cond) mapped exec,
        handle_branch,
      )
      (elim (Bool-cases (Set.contains (target_of pc v d) visited)) [
        | inl seen ↦ rw seen (rw (ap is_cond_br cond) refl)
        | inr fresh ↦ rw fresh (rw (ap is_cond_br cond) refl)
      ])
