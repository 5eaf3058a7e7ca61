-- ===== src/Passes/Rebuilder/Handlers/Branches.antt =====
-- The same of the handlers of branches and of trampolines.
use re_wizard.Prelude.{
  ℕ, refl, inl, inr, true, not, [], arith, Bool-cases, Option-cases, ◌≡◌, ◌&&◌, ◌∷◌, ◌++◌,
  if◌then◌else◌, nat_key, pair_key,
}
use re_wizard.Prelude.Set
use re_wizard.Prelude.Set.{Set}
use re_wizard.Prelude.Word.{add_word}
use re_wizard.Insn.{OperandKind, operand}
use re_wizard.Units.Function.{Function, add_call_site, set_end, add_basic_block, set_name}
use re_wizard.Units.Module.{get_function_for_address}
use re_wizard.Passes.Rebuilder.{
  Loader, Descent, indirect_jump, handle_jump, branch_target_edge, handle_branch, handle_trampoline,
  trampoline_target, is_uncond_br, is_within_mapping, is_executable_address, enqueue, is_cond_br,
  name_trampoline, is_entrypoint, add_reference, block_successor, close_block, fallthrough_edge,
  close_trampoline,
}
use re_wizard.Passes.Rebuilder.Handlers.{
  Little, Little-refl, Little-if, length-snoc, length-add_call_site,
}

handle_jump-Little :
    (visited : Set ℕ) (pc target : ℕ) (d : Descent) → Little d (handle_jump visited pc target d)
unfolding handle_jump add_call_site
handle_jump-Little visited pc target d =
    elim (Option-cases (get_function_for_address d.in_module target)) [
      | inl absent ↦
          let queued : Little d (
              add_reference pc target (record d {
                work = d.work ++ target ∷ [];
                function_work = d.function_work ++ target ∷ [];
              })) =
            record {
              work = omega (arith, length-snoc d.work target);
              function_work = omega (arith, length-snoc d.function_work target);
              call_sites = omega arith;
              instructions = refl;
              functions = refl;
              start = refl;
            } in
          rw (absent, handle_jump) (Little-if (Set.contains target visited) (Little-refl d) queued)
      | inr (existing, here) ↦
          rw (here, handle_jump)
            (record {
              work = omega arith;
              function_work = omega arith;
              call_sites = length-add_call_site pc target d.function;
              instructions = refl;
              functions = refl;
              start = refl;
            })
    ]

-- What leaves the queues and the call sites alone.
block_successor-Little : (t : ℕ) (d e : Descent) → Little d e → Little d (block_successor t e)
block_successor-Little t d e h = record {
  work = h.work;
  function_work = h.function_work;
  call_sites = h.call_sites;
  instructions = h.instructions;
  functions = h.functions;
  start = h.start;
}

add_reference-Little : (pc t : ℕ) (d e : Descent) → Little d e → Little d (add_reference pc t e)
add_reference-Little pc t d e h = record {
  work = h.work;
  function_work = h.function_work;
  call_sites = h.call_sites;
  instructions = h.instructions;
  functions = h.functions;
  start = h.start;
}

close_block-Little : (pc : ℕ) (d e : Descent) → Little d e → Little d (close_block pc e)
unfolding set_end add_basic_block
close_block-Little pc d e h = record {
  work = h.work;
  function_work = h.function_work;
  call_sites = h.call_sites;
  instructions = h.instructions;
  functions = h.functions;
  start = h.start;
}

fallthrough_edge-Little : (pc : ℕ) (d e : Descent) → Little d e → Little d (fallthrough_edge pc e)
fallthrough_edge-Little pc d e h =
    let t = add_word pc e.insn.length in
    Little-if (is_cond_br e.insn.category)
      (add_reference-Little pc t d (block_successor t e) (block_successor-Little t d e h)) h

enqueue-Little : (visited : Set ℕ) (t : ℕ) (d : Descent) → Little d (enqueue visited t d)
enqueue-Little visited t d =
    let queued : Little d (record d { work = d.work ++ t ∷ [] }) = record {
      work = omega (arith, length-snoc d.work t);
      function_work = omega arith;
      call_sites = omega arith;
      instructions = refl;
      functions = refl;
      start = refl;
    } in
    Little-if (Set.contains t visited) (Little-refl d) queued

branch_target_edge-Little :
    (loader : Loader) (visited : Set ℕ) (pc : ℕ) (d : Descent)
    → Little d (branch_target_edge loader visited pc d)
unfolding branch_target_edge add_call_site
branch_target_edge-Little loader visited pc d = at_kind (operand d.insn 0).kind refl
  where
    indirect : Little d (indirect_jump pc d)
    indirect = record {
      work = omega arith;
      function_work = omega arith;
      call_sites = length-add_call_site pc d.insn.indirect_value d.function;
      instructions = refl;
      functions = refl;
      start = refl;
    }

    at_kind :
        (k : OperandKind)
        → (operand d.insn 0).kind ≡ k
        → Little d (branch_target_edge loader visited pc d)
    at_kind (OperandKind.immediate v) e =
        let t = add_word (add_word pc d.insn.length) v in
        rw (e, branch_target_edge)
          (Little-if (is_within_mapping loader t && is_executable_address loader t)
            (block_successor-Little t d
              (if is_uncond_br d.insn.category
                then handle_jump visited pc t d
                else add_reference pc t (enqueue visited t d))
              (Little-if (is_uncond_br d.insn.category) (handle_jump-Little visited pc t d)
                (add_reference-Little pc t d (enqueue visited t d) (enqueue-Little visited t d))))
            (Little-refl d))
    at_kind (OperandKind.memory base index disp) e = rw (e, branch_target_edge) indirect
    at_kind (OperandKind.register r) e = rw (e, branch_target_edge) indirect
    at_kind OperandKind.other e = rw (e, branch_target_edge) (Little-refl d)

pub handle_branch-Little :
    (loader : Loader) (visited : Set ℕ) (pc : ℕ) (d : Descent)
    → Little d (handle_branch loader visited pc d)
unfolding handle_branch
handle_branch-Little loader visited pc d =
    let e = branch_target_edge loader visited pc d in
    close_block-Little pc d (fallthrough_edge pc e)
      (fallthrough_edge-Little pc d e (branch_target_edge-Little loader visited pc d))

trampoline_target-Little : (d : Descent) → Little d (trampoline_target d).1
unfolding add_call_site
trampoline_target-Little d = at_kind (operand d.insn 0).kind refl
  where
    marked : Descent
    marked = record d {
      insn = record d.insn { is_indirect = true };
      block = record d.block { contains_indirect_jumps = true };
      function = record d.function { contains_indirect_jumps = true };
    }

    indirect : Little d marked
    indirect = record {
      work = omega arith;
      function_work = omega arith;
      call_sites = omega arith;
      instructions = refl;
      functions = refl;
      start = refl;
    }

    at_kind : (k : OperandKind) → (operand d.insn 0).kind ≡ k → Little d (trampoline_target d).1
    at_kind (OperandKind.immediate v) e =
        let target = add_word (add_word d.insn.address d.insn.length) v in
        rw (e, trampoline_target)
          (record {
            work = omega arith;
            function_work = omega arith;
            call_sites = length-add_call_site d.insn.address target d.function;
            instructions = refl;
            functions = refl;
            start = refl;
          })
    at_kind (OperandKind.register r) e = rw (e, trampoline_target) indirect
    at_kind (OperandKind.memory base index disp) e = rw (e, trampoline_target) indirect
    at_kind OperandKind.other e = rw (e, trampoline_target) (Little-refl d)

name_trampoline-call_sites :
    (loader : Loader) (target : ℕ) (f : Function)
    → (name_trampoline loader target f).call_sites ≡ f.call_sites
unfolding set_name
name_trampoline-call_sites loader target f =
    elim (Bool-cases (is_within_mapping loader target && not (is_entrypoint f.name))) [
      | inl named ↦ rw named refl
      | inr plain ↦ rw plain refl
    ]

name_trampoline-start :
    (loader : Loader) (target : ℕ) (f : Function)
    → (name_trampoline loader target f).start ≡ f.start
unfolding set_name
name_trampoline-start loader target f =
    elim (Bool-cases (is_within_mapping loader target && not (is_entrypoint f.name))) [
      | inl named ↦ rw named refl
      | inr plain ↦ rw plain refl
    ]

close_trampoline-Little :
    (loader : Loader) (d : Descent) (r : ℕ × Descent)
    → Little d r.1
    → Little d (close_trampoline loader r)
unfolding set_end add_basic_block set_name
close_trampoline-Little loader d (target, e) h =
    let closed = close_block-Little e.insn.address d e h in
    record {
      work = h.work;
      function_work = h.function_work;
      call_sites =
          rw (name_trampoline-call_sites loader target (close_block e.insn.address e).function)
            closed.call_sites;
      instructions = h.instructions;
      functions = h.functions;
      start =
          rw (name_trampoline-start loader target (close_block e.insn.address e).function)
            closed.start;
    }

pub handle_trampoline-Little :
    (loader : Loader) (d : Descent) → Little d (handle_trampoline loader d).0
unfolding handle_trampoline
handle_trampoline-Little loader d = elim (Bool-cases (is_uncond_br d.insn.category)) [
  | inl jumps ↦
      rw (jumps, handle_trampoline)
        (close_trampoline-Little loader d (trampoline_target d) (trampoline_target-Little d))
  | inr other ↦ rw (other, handle_trampoline) (Little-refl d)
]
