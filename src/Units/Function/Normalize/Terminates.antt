-- ===== src/Units/Function/Normalize/Terminates.antt =====
-- The rounds of the block splitting, counted by the slack of the blocks.
use mathlib.Core.Path.{subst}
use mathlib.Core.Option.{some-injective}
use re_wizard.Prelude.{
  ℕ, zero, suc, refl, sym, ap, inl, inr, true, false, Option, some, List, [], arith, ltb,
  Bool-cases, Option-cases, length, get_elem?, ◌≤◌, ◌<◌, ◌≡◌, ◌∙◌, ◌↔◌, ◌&&◌, ◌∷◌, ◌==◌, nat_key,
}
use re_wizard.Prelude.Set.{Set}
use re_wizard.Units.BasicBlock.{BasicBlock}
use re_wizard.Units.Function.{Function}
use re_wizard.Units.Function.Lookup.{
  get_basic_block_for_address, Covered, Starts, get_basic_block_for_address-keeps,
}
use re_wizard.Units.Function.Normalize.{
  Pass, reset, through, scan_entries, add_predecessor_at, link_successors, scan_blocks, rounds,
  slack, entries_of, split_blocks,
}
use re_wizard.Units.Function.Normalize.Slack.{
  ranges, Covered-ranges, Starts-ranges, slack-ranges, lookup-slack, ranges-add_predecessor_at,
}

-- The outcome of (a part of) a round over the blocks `bs`.
pub data Moves (bs : List BasicBlock) : Pass → Type 0 where
  stays : (g : Function) → ranges g.blocks ≡ ranges bs → Moves bs (through g)
  splits :
      (g : Function)
      → suc (slack g.blocks) ≤ slack bs
      → ((a : ℕ) → (Covered g.blocks a ↔ Covered bs a) × (Starts bs a → Starts g.blocks a))
      → Moves bs (reset g)

-- A pass over blocks of the same ranges.
Moves-ranges :
    (bs cs : List BasicBlock) (p : Pass) → ranges cs ≡ ranges bs → Moves cs p → Moves bs p
Moves-ranges bs cs (through g) e (stays _ h) = stays g (h ∙ e)
Moves-ranges bs cs (reset g) e (splits _ h k) = splits g (rw (← slack-ranges cs bs e) h) (λ a.
    ground (
      arith,
      k a,
      Covered-ranges cs bs a e,
      Covered-ranges bs cs a (sym e),
      Starts-ranges bs cs a (sym e),
    ))

lookup-Moves :
    (f : Function) (address : ℕ) (t : Function → Function) (p : Function → Pass)
    → ((g : Function) → ranges (t g).blocks ≡ ranges g.blocks)
    → ((g : Function) → Moves g.blocks (p g))
    → let found = get_basic_block_for_address f address in
      let g = t found.function in
      Moves f.blocks (elim found.was_split as (λ _. Pass) [ true ↦ reset g | false ↦ p g ])
lookup-Moves f address t p same h =
    let found = get_basic_block_for_address f address in
    let g = t found.function in
    let e = same found.function in
    elim (lookup-slack f address) [
      | inl (kept, unchanged) ↦
          rw kept
            (Moves-ranges f.blocks g.blocks (p g) (e ∙ ap (λ k. ranges k.blocks) unchanged) (h g))
      | inr (was, less) ↦ rw was (
          splits g (omega (arith, slack-ranges g.blocks found.function.blocks e)) (λ a. ground (
            arith,
            get_basic_block_for_address-keeps f address a,
            Covered-ranges g.blocks found.function.blocks a e,
            Covered-ranges found.function.blocks g.blocks a (sym e),
            Starts-ranges found.function.blocks g.blocks a (sym e),
          )))
    ]

pub scan_entries-Moves :
    (b : BasicBlock) (entries : Set ℕ) (f : Function) → Moves f.blocks (scan_entries b entries f)
unfolding scan_entries
scan_entries-Moves b [] f = stays f refl
scan_entries-Moves b (entry ∷ entries) f = elim (Bool-cases (entry == b.start)) [
  | inl same ↦ rw same (scan_entries-Moves b entries f)
  | inr other ↦ elim (Bool-cases (ltb b.start entry && ltb entry b.end)) [
    | inl here ↦
        rw (other, here)
          (lookup-Moves f entry (λ g. g) (scan_entries b entries) (λ g. refl)
            (scan_entries-Moves b entries))
    | inr away ↦ rw (other, away) (scan_entries-Moves b entries f)
  ]
]

pub link_successors-Moves :
    (start : ℕ) (succs : List ℕ) (f : Function) → Moves f.blocks (link_successors start succs f)
unfolding link_successors
link_successors-Moves start [] f = stays f refl
link_successors-Moves start (succ ∷ succs) f =
    let found = get_basic_block_for_address f succ in
    lookup-Moves f succ (add_predecessor_at start found.block) (link_successors start succs)
      (ranges-add_predecessor_at start found.block) (link_successors-Moves start succs)

-- One part of a round after another.
then-Moves :
    (bs : List BasicBlock) (p : Pass) (k : Function → Pass)
    → Moves bs p
    → ((g : Function) → Moves g.blocks (k g))
    → Moves bs (elim p as (λ _. Pass) [ reset g ↦ reset g | through g ↦ k g ])
then-Moves bs (through g) k (stays _ e) h = Moves-ranges bs g.blocks (k g) e (h g)
then-Moves bs (reset g) k (splits _ less keeps) h = splits g less keeps

pub scan_blocks-Moves :
    (entries : Set ℕ) (n i : ℕ) (f : Function) → Moves f.blocks (scan_blocks entries n i f)
unfolding scan_blocks
scan_blocks-Moves entries zero i f = stays f refl
scan_blocks-Moves entries (suc n) i f = elim (Option-cases (get_elem? f.blocks i)) [
  | inl gone ↦ rw (gone, scan_blocks) (stays f refl)
  | inr (b, here) ↦
      rw (here, scan_blocks)
        (then-Moves f.blocks (scan_entries b entries f) _ (scan_entries-Moves b entries f) (λ g.
          then-Moves g.blocks (link_successors b.start b.successors g) _
            (link_successors-Moves b.start b.successors g) (scan_blocks-Moves entries n (suc i))))
]

-- With more fuel than slack the rounds end, and keep the covered addresses and the starts.
rounds-total :
    (fuel : ℕ) (entries : Set ℕ) (f : Function)
    → slack f.blocks < fuel
    → (g : Function) × (rounds fuel entries f ≡ some g)
      × ((a : ℕ)
          → (Covered g.blocks a ↔ Covered f.blocks a) × (Starts f.blocks a → Starts g.blocks a))
unfolding rounds
rounds-total zero entries f h = absurd (omega arith)
rounds-total (suc fuel) entries f h =
    go (scan_blocks entries (length f.blocks) 0 f) (scan_blocks-Moves entries (length f.blocks) 0 f)
      (λ g. rounds-total fuel entries g)
  where
    go :
        (p : Pass)
        → Moves f.blocks p
        → ((g : Function)
            → slack g.blocks < fuel
            → (k : Function) × (rounds fuel entries g ≡ some k)
              × ((a : ℕ)
                  → (Covered k.blocks a ↔ Covered g.blocks a)
                    × (Starts g.blocks a → Starts k.blocks a)))
        → (g : Function) × (elim p as (λ _. Option Function) [
          | through g ↦ some g
          | reset g ↦ rounds fuel entries g
        ]
            ≡ some g)
          × ((a : ℕ)
              → (Covered g.blocks a ↔ Covered f.blocks a) × (Starts f.blocks a → Starts g.blocks a))
    go (through g) (stays _ e) rec = (
      g,
      refl,
      λ a. (
        (Covered-ranges g.blocks f.blocks a e, Covered-ranges f.blocks g.blocks a (sym e)),
        Starts-ranges f.blocks g.blocks a (sym e),
      ),
    )
    go (reset g) (splits _ less keeps) rec =
        let (k, ends, kept) = rec g (omega arith) in (k, ends, λ a. ground (arith, kept a, keeps a))

split_blocks-run :
    (f : Function)
    → (g : Function) × (split_blocks f ≡ some g)
      × ((a : ℕ)
          → (Covered g.blocks a ↔ Covered f.blocks a) × (Starts f.blocks a → Starts g.blocks a))
unfolding split_blocks
split_blocks-run f = rounds-total (suc (slack f.blocks)) (entries_of f.blocks) f (omega arith)

-- The splitting of the blocks of a function ends, whatever the blocks and their successors are: the
-- restarts that `goto reset` makes are at most as many as there are addresses strictly inside blocks.
pub split_blocks-total : (f : Function) → (g : Function) × (split_blocks f ≡ some g)
split_blocks-total f = let (g, e, k) = split_blocks-run f in (g, e)

-- The function with its blocks split covers exactly the addresses that it covered before.
pub split_blocks-Covered :
    (f g : Function) (a : ℕ) → split_blocks f ≡ some g → Covered g.blocks a ↔ Covered f.blocks a
split_blocks-Covered f g a h =
    let (g', e, k) = split_blocks-run f in
    subst (λ x. Covered x.blocks a ↔ Covered f.blocks a) (some-injective g' g (sym e ∙ h)) (k a).0

-- An address at which a block started is still the start of one once the blocks are split.
pub split_blocks-Starts :
    (f g : Function) (a : ℕ) → split_blocks f ≡ some g → Starts f.blocks a → Starts g.blocks a
split_blocks-Starts f g a h m =
    let (g', e, k) = split_blocks-run f in
    subst (λ x. Starts x.blocks a) (some-injective g' g (sym e ∙ h)) ((k a).1 m)
