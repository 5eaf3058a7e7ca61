-- ===== src/Units/Function/Graph/Correct.antt =====
-- What BuildCFG leaves in the graph.
use re_wizard.Prelude.{
  ℕ, refl, sym, ap, inl, inr, true, some, List, [], Option-cases, length, In, ◌≡◌, ◌↔◌, nat_key,
}
use mathlib.Core.Option
use mathlib.Core.Option.{some-injective}
use re_wizard.Prelude.Set.{contains}
use re_wizard.Units.BasicBlock.{BasicBlock}
use re_wizard.Units.Function.{Function}
use re_wizard.Units.Function.Lookup.{block_covering}
use re_wizard.Units.Function.Graph.{Walk, build_cfg, normalize_basic_blocks}
use re_wizard.Units.Function.Normalize.Terminates.{split_blocks-total}
use re_wizard.Units.Function.Graph.Steps.{Edge, Reach, start, step}
use re_wizard.Units.Function.Graph.Invariant.{Inv}
use re_wizard.Units.Function.Graph.Ends.{walk-first, block_covering-bound}

-- The function with these edges in its graph.
abbrev linked : Function → List (ℕ × ℕ) → Function
linked f edges = record f { graph = record { vertices = length f.blocks; edges = edges } }

-- BuildCFG ends for every function: the queue runs empty, whatever cycles the successors make.
pub build_cfg-total : (f : Function) → (g : Function) × (build_cfg f ≡ some g)
unfolding build_cfg
build_cfg-total f = elim (Option-cases (block_covering f.blocks f.start)) [
  | inl nowhere ↦ (linked f [], rw (nowhere, build_cfg) refl)
  | inr (entry, here) ↦
      let (w, ends, _, _) =
        walk-first f.blocks entry (block_covering-bound f.blocks f.start entry here) in
      (linked f w.edges, rw (here, ends, build_cfg) refl)
]

Reach-visited :
    (bs : List BasicBlock) (entry i : ℕ) (w : Walk)
    → Inv bs entry w
    → w.pending ≡ []
    → Reach bs entry i
    → contains i w.visited ≡ true
Reach-visited bs entry i w inv done start = elim inv.started [
  | inl h ↦ h
  | inr m ↦ absurd (rw done at m).0
]
Reach-visited bs entry i w inv done (step {i = j} r edge) =
    elim (inv.closed j i (Reach-visited bs entry j w inv done r) edge) [
      | inl h ↦ h
      | inr m ↦ absurd (rw done at m).0
    ]

-- When some block covers the start of the function, the edges of the graph that BuildCFG leaves are
-- exactly those from a block on a path from that one to a block that covers one of its successors.
pub build_cfg-edges :
    (f g : Function) (entry i t : ℕ)
    → block_covering f.blocks f.start ≡ some entry
    → build_cfg f ≡ some g
    → In {A = ℕ × ℕ} (i, t) g.graph.edges ↔ (Reach f.blocks entry i × Edge f.blocks i t)
unfolding build_cfg
build_cfg-edges f g entry i t here built =
    let (w, ends, inv, done) =
      walk-first f.blocks entry (block_covering-bound f.blocks f.start entry here) in
    let same : w.edges ≡ g.graph.edges =
      ap (λ (k : Function). k.graph.edges)
        (some-injective _ g (rw (here, ends, build_cfg) at built)) in
    rw (sym same) (
      λ m. (inv.reached i (inl (inv.sound i t m).0), (inv.sound i t m).1),
      λ h. inv.complete i t (Reach-visited f.blocks entry i w inv done h.0) h.1,
    )

-- The whole of NormalizeBasicBlocks ends for every function: splitting its blocks and building its
-- graph.
pub normalize_basic_blocks-total :
    (f : Function) → (g : Function) × (normalize_basic_blocks f ≡ some g)
unfolding normalize_basic_blocks Option.bind
normalize_basic_blocks-total f =
    let (split, e) = split_blocks-total f in
    let (g, built) = build_cfg-total split in (g, rw (e, built) refl)
