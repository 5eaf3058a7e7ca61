-- ===== src/Passes/DataFlow/Sites.antt =====
-- The call sites of a function under the data-flow pass, and the end of its loops.
use mathlib.Core.Path.{subst}
use mathlib.Core.Option
use mathlib.Core.Option.{some-injective}
use re_wizard.Prelude.{
  ℕ, refl, sym, inl, inr, true, some, List, [], arith, Bool-cases, Option-cases, pair_beq_iff, ◌≡◌,
  ◌∙◌, ◌≢◌, ◌∷◌, nat_key, pair_key,
}
use re_wizard.Prelude.Map
use re_wizard.Prelude.Map.{Map, find-insert}
use re_wizard.Prelude.Set.{contains}
use re_wizard.Insn.{Instruction}
use re_wizard.Insn.Walk.{walk_block-inv, walk_block-total, IsDecoded}
use re_wizard.Units.BasicBlock.{BasicBlock}
use re_wizard.Units.Function.{Function, add_call_site}
use re_wizard.Units.Function.CallSites.{add_call_site-contains}
use re_wizard.Passes.DataFlow.{
  Image, State, resolved_target, set_indirect_value, try_resolve, is_transfer, step,
  analyze_basic_block, analyze_blocks, analyze_function,
}

set_indirect_value-IsDecoded :
    (address target : ℕ) (m : Map ℕ Instruction)
    → IsDecoded m
    → IsDecoded (set_indirect_value address target m)
set_indirect_value-IsDecoded address target m d = elim (Option-cases (Map.find address m)) [
  | inl gap ↦ rw (gap, set_indirect_value) d
  | inr (insn, here) ↦
      let new : Instruction = record insn { indirect_value = target } in
      let at = d.address address insn here in
      let pos = d.positive address insn here in
      let fits = d.fits address insn here in
      rw (here, set_indirect_value)
        (record {
          address = λ a i h. ground (arith, find-insert address a new m, d.address a i);
          positive = λ a i h. ground (arith, find-insert address a new m, d.positive a i);
          fits = λ a i h. ground (arith, find-insert address a new m, d.fits a i);
        })
]

-- What the pass keeps of the function it started with.
record Extends (f : Function) (g : Function) : Type 0 where
  pub blocks : g.blocks ≡ f.blocks
  pub resolved_sites :
      (site : ℕ × ℕ)
      → contains site f.call_sites ≡ true
      → site.1 ≢ 0
      → contains site g.call_sites ≡ true

abbrev Good : Function → State → Type 0
Good f s = Extends f s.function × IsDecoded s.instructions

add_call_site-Extends :
    (call target : ℕ) (f g : Function) → Extends f g → Extends f (add_call_site call target g)
add_call_site-Extends call target f g h = record {
  blocks = unfold add_call_site in h.blocks;
  resolved_sites = λ site m other. ground (
    arith,
    add_call_site-contains call target g site,
    h.resolved_sites site m other,
    pair_beq_iff (call, 0) site,
  );
}

try_resolve-Good :
    (f : Function) (insn : Instruction) (s : State) → Good f s → Good f (try_resolve insn s).0
unfolding try_resolve
try_resolve-Good f insn s h = elim (Option-cases (resolved_target insn s.regs)) [
  | inl open_target ↦ rw (open_target, try_resolve) h
  | inr (target, e) ↦
      rw (e, try_resolve)
        (
          add_call_site-Extends insn.address target f s.function h.0,
          set_indirect_value-IsDecoded insn.address target s.instructions h.1,
        )
]

step-Good :
    (image : Image) (f : Function) (insn : Instruction) (s : State)
    → Good f s
    → Good f (step image insn s)
unfolding step
step-Good image f insn s h = elim (Bool-cases (is_transfer insn.category)) [
  | inr plain ↦ rw (plain, step) h
  | inl jump ↦ rw (jump, step) (try_resolve-Good f insn s h)
]

analyze_blocks-total :
    (image : Image) (f : Function) (bs : List BasicBlock) (s : State)
    → Good f s
    → (t : State) × (analyze_blocks image bs s ≡ some t) × Good f t
unfolding analyze_blocks analyze_basic_block Option.bind
analyze_blocks-total image f [] s h = (s, refl, h)
analyze_blocks-total image f (b ∷ bs) s h =
    let (t, ends) = walk_block-total s.instructions (step image) b.start b.end s h.1 in
    let m =
      walk_block-inv s.instructions (step image) (Good f) b.start b.end s t (step-Good image f) h
        ends in
    let (u, e, k) = analyze_blocks-total image f bs t m in (u, rw ends e, k)

analyze_function-run :
    (image : Image) (f : Function) (insns : Map ℕ Instruction)
    → IsDecoded insns
    → (r : Function × Map ℕ Instruction) × (analyze_function image f insns ≡ some r)
      × Extends f r.0
      × IsDecoded r.1
unfolding analyze_function
analyze_function-run image f insns d =
    let (t, e, k) =
      analyze_blocks-total image f f.blocks
        (record { function = f; instructions = insns; regs = [] })
        (record { blocks = refl; resolved_sites = λ site m other. m }, d) in
    ((t.function, t.instructions), rw e refl, k.0, k.1)

-- On decoded instructions the analysis of a function returns. It leaves the blocks as they are and
-- the instructions decoded.
pub analyze_function-total :
    (image : Image) (f : Function) (insns : Map ℕ Instruction)
    → IsDecoded insns
    → (r : Function × Map ℕ Instruction) × (analyze_function image f insns ≡ some r)
      × (r.0.blocks ≡ f.blocks)
      × IsDecoded r.1
analyze_function-total image f insns d =
    let (r, e, x, k) = analyze_function-run image f insns d in (r, e, x.blocks, k)

-- On decoded instructions the analysis of a function keeps every call site with a resolved target.
pub analyze_function-call_sites :
    (image : Image) (f : Function) (insns : Map ℕ Instruction) (r : Function × Map ℕ Instruction)
    (site : ℕ × ℕ)
    → IsDecoded insns
    → analyze_function image f insns ≡ some r
    → contains site f.call_sites ≡ true
    → site.1 ≢ 0
    → contains site r.0.call_sites ≡ true
analyze_function-call_sites image f insns r site d h m other =
    let (r', e, x, k) = analyze_function-run image f insns d in
    subst (λ q. contains site q.0.call_sites ≡ true) (some-injective r' r (sym e ∙ h))
      (x.resolved_sites site m other)
