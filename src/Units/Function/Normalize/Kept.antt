-- ===== src/Units/Function/Normalize/Kept.antt =====
-- NormalizeBasicBlocks changes the blocks and the graph of a function, and nothing else of it.
use re_wizard.Prelude.{
  ℕ, zero, suc, refl, sym, ap, inl, inr, Option, none, some, List, [], ltb, Bool-cases,
  Option-cases, length, get_elem?, bind-eq-some, map-eq-some, ◌≡◌, ◌∙◌, ◌&&◌, ◌∷◌, ◌==◌, nat_key,
}
use mathlib.Core.Option.{some-injective}
use mathlib.Core.Path.{subst}
use re_wizard.Units.Function.Graph.{build_cfg, normalize_basic_blocks}
use re_wizard.Prelude.Set.{Set}
use re_wizard.Units.BasicBlock.{BasicBlock}
use re_wizard.Units.Function.{Function, add_basic_block}
use re_wizard.Units.Function.Lookup.{
  Seek, absent, exact, inside, seek, after_seek, get_basic_block_for_address, block_covering,
}
use re_wizard.Units.Function.Normalize.{
  Pass, reset, through, scan_entries, add_predecessor_at, link_successors, scan_blocks, rounds,
  split_blocks, entries_of, slack,
}

-- The same function but for its blocks.
abbrev pub Kept : Function → Function → Type 0
Kept f g = g ≡ record f { blocks = g.blocks }

Kept-trans : (f g h : Function) → Kept f g → Kept g h → Kept f h
Kept-trans f g h e k = k ∙ ap (λ (x : Function). record x { blocks = h.blocks }) e

abbrev left_by : Pass → Function
left_by (reset g) = g
left_by (through g) = g

after_seek-Kept : (f : Function) (a : ℕ) (s : Seek) → Kept f (after_seek f a s).function
unfolding add_basic_block
after_seek-Kept f a absent = refl
after_seek-Kept f a (exact i) = refl
after_seek-Kept f a (inside i b) = refl

lookup-Kept : (f : Function) (a : ℕ) → Kept f (get_basic_block_for_address f a).function
unfolding get_basic_block_for_address
lookup-Kept f a = after_seek-Kept f a (seek f.blocks a)

scan_entries-Kept :
    (b : BasicBlock) (entries : Set ℕ) (f : Function) → Kept f (left_by (scan_entries b entries f))
unfolding scan_entries
scan_entries-Kept b [] f = refl
scan_entries-Kept b (entry ∷ entries) f =
    let found = get_basic_block_for_address f entry in
    let here = lookup-Kept f entry in
    let skip = scan_entries-Kept b entries f in
    let rest = scan_entries-Kept b entries found.function in
    elim (Bool-cases (entry == b.start)) [
      | inl same ↦ rw (same, scan_entries) skip
      | inr other ↦ elim (Bool-cases (ltb b.start entry && ltb entry b.end)) [
        | inl within ↦ elim (Bool-cases found.was_split) [
          | inl split ↦ rw (other, within, split, scan_entries) here
          | inr whole ↦
              rw (other, within, whole, scan_entries)
                (Kept-trans f found.function (left_by (scan_entries b entries found.function)) here
                  rest)
        ]
        | inr out ↦ rw (other, out, scan_entries) skip
      ]
    ]

add_predecessor_at-Kept :
    (start : ℕ) (i : Option ℕ) (f : Function) → Kept f (add_predecessor_at start i f)
add_predecessor_at-Kept start none f = refl
add_predecessor_at-Kept start (some i) f = refl

link_successors-Kept :
    (start : ℕ) (succs : List ℕ) (f : Function) → Kept f (left_by (link_successors start succs f))
unfolding link_successors
link_successors-Kept start [] f = refl
link_successors-Kept start (succ ∷ succs) f =
    let found = get_basic_block_for_address f succ in
    let g = add_predecessor_at start found.block found.function in
    let here =
      Kept-trans f found.function g (lookup-Kept f succ)
        (add_predecessor_at-Kept start found.block found.function) in
    elim (Bool-cases found.was_split) [
      | inl split ↦ rw (split, link_successors) here
      | inr whole ↦
          rw (whole, link_successors)
            (Kept-trans f g (left_by (link_successors start succs g)) here
              (link_successors-Kept start succs g))
    ]

scan_blocks-Kept :
    (entries : Set ℕ) (n i : ℕ) (f : Function) → Kept f (left_by (scan_blocks entries n i f))
unfolding scan_blocks
scan_blocks-Kept entries zero i f = refl
scan_blocks-Kept entries (suc n) i f = elim (Option-cases (get_elem? f.blocks i)) [
  | inl none_left ↦ rw (none_left, scan_blocks) refl
  | inr (b, here) ↦
      rw (here, scan_blocks)
        (scanned b (scan_entries b entries f) (scan_entries-Kept b entries f)
          (λ h. scan_blocks-Kept entries n (suc i) h))
]
  where
    linked :
        (p : Pass)
        → Kept f (left_by p)
        → ((h : Function) → Kept h (left_by (scan_blocks entries n (suc i) h)))
        → Kept f (
            left_by (elim p as (λ _. Pass) [
              | reset h ↦ reset h
              | through h ↦ scan_blocks entries n (suc i) h
            ]))
    linked (reset h) k rest = k
    linked (through h) k rest =
        Kept-trans f h (left_by (scan_blocks entries n (suc i) h)) k (rest h)

    scanned :
        (b : BasicBlock) (p : Pass)
        → Kept f (left_by p)
        → ((h : Function) → Kept h (left_by (scan_blocks entries n (suc i) h)))
        → Kept f (
            left_by (elim p as (λ _. Pass) [
              | reset g ↦ reset g
              | through g ↦ elim (link_successors b.start b.successors g) [
                | reset h ↦ reset h
                | through h ↦ scan_blocks entries n (suc i) h
              ]
            ]))
    scanned b (reset g) k rest = k
    scanned b (through g) k rest =
        let p = link_successors b.start b.successors g in
        linked p (Kept-trans f g (left_by p) k (link_successors-Kept b.start b.successors g)) rest

rounds-Kept :
    (fuel : ℕ) (entries : Set ℕ) (f g : Function) → rounds fuel entries f ≡ some g → Kept f g
unfolding rounds
rounds-Kept zero entries f g e = absurd (cc)
rounds-Kept (suc fuel) entries f g e =
    passed (scan_blocks entries (length f.blocks) 0 f)
      (scan_blocks-Kept entries (length f.blocks) 0 f) e (λ h k. rounds-Kept fuel entries h g k)
  where
    passed :
        (p : Pass)
        → Kept f (left_by p)
        → elim p as (λ _. Option Function) [ through h ↦ some h | reset h ↦ rounds fuel entries h ]
          ≡ some g
        → ((h : Function) → rounds fuel entries h ≡ some g → Kept h g)
        → Kept f g
    passed (through h) k e' rest = subst (Kept f) (some-injective h g e') k
    passed (reset h) k e' rest = Kept-trans f h g k (rest h e')

build_cfg-Kept : (f g : Function) → build_cfg f ≡ some g → g ≡ record f { graph = g.graph }
unfolding build_cfg
build_cfg-Kept f g e = elim (Option-cases (block_covering f.blocks f.start)) [
  | inl nowhere ↦ rw (sym (some-injective _ g (rw (nowhere, build_cfg) at e))) refl
  | inr (entry, here) ↦
      let (w, ran, e') = map-eq-some _ _ (rw (here, build_cfg) at e) in rw (sym e') refl
]

-- When NormalizeBasicBlocks is done, the function is the old one but for its blocks and its graph.
pub normalize_basic_blocks-keeps :
    (f g : Function)
    → normalize_basic_blocks f ≡ some g
    → g ≡ record f { blocks = g.blocks; graph = g.graph }
unfolding normalize_basic_blocks split_blocks
normalize_basic_blocks-keeps f g e =
    let (s, split, linked) = bind-eq-some (split_blocks f) build_cfg e in
    let graphed = build_cfg-Kept s g linked in
    let divided = rounds-Kept (suc (slack f.blocks)) (entries_of f.blocks) f s split in
    graphed
    ∙ (ap (λ (x : Function). record x { graph = g.graph }) divided
        ∙ ap (λ bs. record f { blocks = bs; graph = g.graph })
            (sym (ap (λ (x : Function). x.blocks) graphed)))
