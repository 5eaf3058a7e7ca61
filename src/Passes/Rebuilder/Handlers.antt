-- ===== src/Passes/Rebuilder/Handlers.antt =====
-- What the handlers of the descent add to the queues and to the call sites: one entry at most.
pub mod Branches
use re_wizard.Prelude.{
  ℕ, suc, refl, inl, inr, Bool, true, false, not, List, [], arith, Bool-cases, Option-cases, length,
  length-append, ◌≤◌, ◌≡◌, ◌&&◌, ◌∷◌, ◌++◌, if◌then◌else◌, nat_key, pair_key,
}
use re_wizard.Prelude.Set
use re_wizard.Prelude.Set.{Set}
use re_wizard.Prelude.Word.{add_word}
use re_wizard.Prelude.Count.{length-insert, length-erase}
use re_wizard.Insn.{rip, reg_beq, no_register, OperandKind, operand}
use re_wizard.Units.Function.{Function, add_call_site, set_end, add_basic_block, set_name}
use re_wizard.Units.Module.{get_function_for_address}
use re_wizard.Passes.Rebuilder.{
  Loader, Descent, add_site, indirect_call, indirect_jump, handle_call, handle_jump,
  branch_target_edge, handle_branch, handle_trampoline, trampoline_target, is_uncond_br,
  is_within_mapping, is_executable_address, enqueue, is_cond_br, name_trampoline, is_entrypoint,
  add_reference, block_successor, close_block, fallthrough_edge, close_trampoline,
}

-- At most one more entry in each; the decoded instructions and the start of the function stay.
pub record Little (d d' : Descent) : Type 0 where
  pub work : length d'.work ≤ suc (length d.work)
  pub function_work : length d'.function_work ≤ suc (length d.function_work)
  pub call_sites : length d'.function.call_sites ≤ suc (length d.function.call_sites)
  pub instructions : d'.in_module.instructions ≡ d.in_module.instructions
  pub functions : d'.in_module.functions ≡ d.in_module.functions
  pub start : d'.function.start ≡ d.function.start

pub length-snoc {ℓ} : {A : Type ℓ} (xs : List A) (x : A) → length (xs ++ x ∷ []) ≡ suc (length xs)
length-snoc xs x = rw (length-append xs (x ∷ [])) (omega arith)

pub length-add_call_site :
    (pc target : ℕ) (f : Function)
    → length (add_call_site pc target f).call_sites ≤ suc (length f.call_sites)
unfolding add_call_site
length-add_call_site pc target f = ground (
  arith,
  length-insert (pc, target) f.call_sites,
  length-insert (pc, target) (Set.erase (pc, 0) f.call_sites),
  length-erase (pc, 0) f.call_sites,
)

pub Little-refl : (d : Descent) → Little d d
Little-refl d = record {
  work = omega arith;
  function_work = omega arith;
  call_sites = omega arith;
  instructions = refl;
  functions = refl;
  start = refl;
}

pub Little-if :
    {d x y : Descent} (b : Bool) → Little d x → Little d y → Little d (if b then x else y)
Little-if true h k = h
Little-if false h k = k

add_site-Little : (pc target : ℕ) (d : Descent) → Little d (add_site pc target d)
unfolding add_call_site
add_site-Little pc target d = record {
  work = omega arith;
  function_work = omega arith;
  call_sites = length-add_call_site pc target d.function;
  instructions = refl;
  functions = refl;
  start = refl;
}

indirect_call-Little : (pc : ℕ) (d : Descent) → Little d (indirect_call pc d)
unfolding add_call_site
indirect_call-Little pc d = record {
  work = omega arith;
  function_work = omega arith;
  call_sites = length-add_call_site pc d.insn.indirect_value d.function;
  instructions = refl;
  functions = refl;
  start = refl;
}

pub handle_call-Little :
    (loader : Loader) (visited : Set ℕ) (pc : ℕ) (d : Descent)
    → Little d (handle_call loader visited pc d)
unfolding handle_call add_call_site
handle_call-Little loader visited pc d = at_kind (operand d.insn 0).kind refl
  where
    site : (target : ℕ) → Little d (add_site pc target d)
    site target = add_site-Little pc target d

    at_kind :
        (k : OperandKind) → (operand d.insn 0).kind ≡ k → Little d (handle_call loader visited pc d)
    at_kind (OperandKind.immediate v) e =
        let target : ℕ = add_word (add_word pc d.insn.length) v in
        let queued : Little d
            (record (add_site pc target d) { function_work = d.function_work ++ target ∷ [] }) =
          record {
            work = omega arith;
            function_work = omega (arith, length-snoc d.function_work target);
            call_sites = (site target).call_sites;
            instructions = refl;
            functions = refl;
            start = refl;
          } in
        rw (e, handle_call)
          (Little-if
            (is_within_mapping loader target
              && not (Set.contains target visited)
              && is_executable_address loader target)
            queued (site target))
    at_kind (OperandKind.memory base index disp) e =
        rw (e, handle_call)
          (Little-if (reg_beq base rip) (site (add_word (add_word pc d.insn.length) disp)) (
            Little-if (reg_beq base no_register && reg_beq index no_register) (site disp)
              (indirect_call-Little pc d)))
    at_kind (OperandKind.register r) e = rw (e, handle_call) (indirect_call-Little pc d)
    at_kind OperandKind.other e = rw (e, handle_call) (indirect_call-Little pc d)
