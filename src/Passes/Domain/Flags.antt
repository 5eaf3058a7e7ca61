-- ===== src/Passes/Domain/Flags.antt =====
-- What the interval pass records in a function.
use mathlib.Core.Path.{subst}
use mathlib.Core.Option.{some-injective}
use re_wizard.Prelude.{
  ℕ, refl, ap, inl, inr, Bool, true, false, not, Option, none, some, List, [], arith, Option-cases,
  bind-eq-some, map-eq-some, ◌≡◌, ◌&&◌, ◌∷◌, nat_key, pair_key,
}
use re_wizard.Prelude.Map
use re_wizard.Prelude.Map.{Map, find-insert}
use re_wizard.Prelude.Set.{contains, contains-insert}
use re_wizard.Insn.{Category, Instruction}
use re_wizard.Insn.Walk.{walk_block, walk_block-inv}
use re_wizard.Units.BasicBlock.{BasicBlock}
use re_wizard.Units.Function.{Function}
use re_wizard.Passes.Domain.{
  IntervalDomain, PredicateResult, unknown, always_true, always_false, State, note_predicate,
  detect, step, apply_instruction, evaluate_branch, analyze_basic_block, analyze_blocks,
  analyze_function,
}

abbrev pub is_some : Option Bool → Bool
is_some none = false
is_some (some b) = true

-- Each recorded address has a verdict, and a function with a recorded address is flagged.
pub record IsFlagged (f : Function) : Type 0 where
  pub agree :
      (a : ℕ)
      → (contains a f.opaque_predicate_addresses
          && not (is_some (Map.find a f.opaque_predicate_results)))
        ≡ false
  pub raised :
      (a : ℕ) → (contains a f.opaque_predicate_addresses && not f.has_opaque_predicates) ≡ false

-- What the pass leaves alone.
pub record SameCode (f g : Function) : Type 0 where
  pub blocks : g.blocks ≡ f.blocks
  pub call_sites : g.call_sites ≡ f.call_sites
  pub graph : g.graph ≡ f.graph

note_predicate-IsFlagged :
    (address : ℕ) (p : PredicateResult) (f : Function)
    → IsFlagged f
    → IsFlagged (note_predicate address p f)
note_predicate-IsFlagged address unknown f h = h
note_predicate-IsFlagged address always_true f h = record {
  agree = λ a. ground (
    arith,
    contains-insert address a f.opaque_predicate_addresses,
    find-insert address a true f.opaque_predicate_results,
    h.agree a,
  );
  raised = λ a. ground arith;
}
note_predicate-IsFlagged address always_false f h = record {
  agree = λ a. ground (
    arith,
    contains-insert address a f.opaque_predicate_addresses,
    find-insert address a false f.opaque_predicate_results,
    h.agree a,
  );
  raised = λ a. ground arith;
}

note_predicate-SameCode :
    (address : ℕ) (p : PredicateResult) (f g : Function)
    → SameCode f g
    → SameCode f (note_predicate address p g)
note_predicate-SameCode address unknown f g h = h
note_predicate-SameCode address always_true f g h = record {
  blocks = h.blocks;
  call_sites = h.call_sites;
  graph = h.graph;
}
note_predicate-SameCode address always_false f g h = record {
  blocks = h.blocks;
  call_sites = h.call_sites;
  graph = h.graph;
}

abbrev Good : Function → Function → Type 0
Good f g = IsFlagged g × SameCode f g

detect-Good :
    (f : Function) (insn : Instruction) (s : State) → Good f s.function → Good f (detect insn s)
unfolding detect
detect-Good f insn s h = categories insn.category
  where
    p : PredicateResult
    p = evaluate_branch insn s.previous s.domain

    categories :
        (c : Category)
        → Good f (elim c as (λ _. Function) [
          | Category.cond_br ↦ note_predicate insn.address p s.function
          | _ ↦ s.function
        ])
    categories Category.cond_br = (
      note_predicate-IsFlagged insn.address p s.function h.0,
      note_predicate-SameCode insn.address p f s.function h.1,
    )
    categories Category.call = h
    categories Category.uncond_br = h
    categories Category.ret = h
    categories (Category.other n) = h

abbrev GoodState : Function → Option State → Type 0
GoodState f none = Unit
GoodState f (some s) = Good f s.function

step-GoodState :
    (f : Function) (insn : Instruction) (s : Option State)
    → GoodState f s
    → GoodState f (step insn s)
unfolding step
step-GoodState f insn none h = tt
step-GoodState f insn (some s) h = elim (Option-cases (apply_instruction insn s.domain)) [
  | inl lost ↦ rw (lost, step) tt
  | inr (d, kept) ↦ rw (kept, step) (detect-Good f insn s h)
]

analyze_basic_block-Good :
    (insns : Map ℕ Instruction) (b : BasicBlock) (f g k : Function) (d e : IntervalDomain)
    → Good f g
    → analyze_basic_block insns b (g, d) ≡ some (k, e)
    → Good f k
unfolding analyze_basic_block
analyze_basic_block-Good insns b f g k d e h done =
    let s : Option State = some (record { function = g; domain = d; previous = none }) in
    let (r, ends, after) = bind-eq-some (walk_block insns step b.start b.end s) _ done in
    let (t, e_t, e_k) = map-eq-some (λ (t : State). (t.function, t.domain)) r after in
    let m = walk_block-inv insns step (GoodState f) b.start b.end s r (step-GoodState f) h ends in
    subst (Good f) (ap (λ p. p.0) e_k) (subst (GoodState f) e_t m)

analyze_blocks-Good :
    (insns : Map ℕ Instruction) (bs : List BasicBlock) (f g k : Function) (d e : IntervalDomain)
    → Good f g
    → analyze_blocks insns bs (g, d) ≡ some (k, e)
    → Good f k
unfolding analyze_blocks
analyze_blocks-Good insns [] f g k d e h done =
    subst (Good f) (ap (λ p. p.0) (some-injective (g, d) (k, e) done)) h
analyze_blocks-Good insns (b ∷ bs) f g k d e h done =
    let (mid, ends, rest) = bind-eq-some (analyze_basic_block insns b (g, d)) _ done in
    analyze_blocks-Good insns bs f mid.0 k mid.1 e
      (analyze_basic_block-Good insns b f g mid.0 d mid.1 h ends) rest

-- When the analysis of a function returns, each recorded address has a verdict and a function with a
-- recorded address is flagged, if it was so before, and blocks, call sites and graph are what they
-- were.
pub analyze_function-IsFlagged :
    (insns : Map ℕ Instruction) (f g : Function)
    → IsFlagged f
    → analyze_function insns f ≡ some g
    → IsFlagged g × SameCode f g
unfolding analyze_function
analyze_function-IsFlagged insns f g h done =
    let (r, ends, e) =
      map-eq-some (λ (s : Function × IntervalDomain). s.0) (analyze_blocks insns f.blocks (f, []))
        done in
    subst (Good f) e (
      analyze_blocks-Good insns f.blocks f f r.0 [] r.1
        (h, record { blocks = refl; call_sites = refl; graph = refl }) ends)
