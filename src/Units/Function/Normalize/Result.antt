-- ===== src/Units/Function/Normalize/Result.antt =====
-- What the blocks of a function look like once a round of the splitting has gone through.
use mathlib.Core.Path.{subst, ap₂}
use mathlib.Core.Option.{some-injective}
use re_wizard.Prelude.{
  ℕ, zero, suc, refl, sym, ap, inl, inr, false, none, some, List, [], arith, ltb, ==_iff,
  Bool-cases, Option-cases, length, get_elem?, In, ◌+◌, ◌≤◌, ◌<◌, ◌≡◌, ◌∙◌, ◌≢◌, ◌⊎◌, ◌&&◌, ◌∷◌,
  ◌==◌, nat_key,
}
use re_wizard.Prelude.Set.{Set, contains_iff}
use re_wizard.Units.BasicBlock.{BasicBlock, Inside}
use re_wizard.Units.Function.{Function}
use re_wizard.Units.Function.Lookup.{
  absent, exact, seek, next, get_basic_block_for_address, Starts, is_absent, is_exact, is_inside,
  Seek-cases,
}
use re_wizard.Units.Function.Normalize.{
  Pass, reset, through, scan_entries, link_successors, scan_blocks, rounds, slack, entries_of,
  split_blocks, block_entries,
}
use re_wizard.Units.Function.Normalize.Slack.{ranges, Starts-ranges, lookup-slack}
use re_wizard.Units.Function.Normalize.Terminates.{
  Moves, stays, scan_entries-Moves, link_successors-Moves, scan_blocks-Moves,
}
use re_wizard.Units.Function.Normalize.Entries.{
  Succeeds, contains-block_entries, contains-inner_entries,
}

-- No entry lies inside the range without a block that starts there.
abbrev pub Settled : Set ℕ → List BasicBlock → ℕ × ℕ → Type 0
Settled entries bs r = (e : ℕ) → In e entries → r.0 < e → e < r.1 → Starts bs e

-- A lookup of an address inside a block that does not split has found a block that starts there.
seek-exact : (bs : List BasicBlock) (a i : ℕ) → seek bs a ≡ exact i → Starts bs a
unfolding seek next
seek-exact [] a i h = absurd (cc)
seek-exact (b ∷ bs) a i h = elim (Seek-cases (seek bs a)) [
  | is_absent e ↦ ground arith
  | is_inside j c e ↦ ground arith
  | is_exact j e ↦ ground (arith, seek-exact bs a j e)
]

-- A lookup of an address that a block has inside finds something.
seek-absent :
    (bs : List BasicBlock) (a i : ℕ) (b : BasicBlock)
    → get_elem? bs i ≡ some b
    → Inside b a
    → seek bs a ≢ absent
unfolding seek next
seek-absent [] a i b h k = λ _. absurd (cc)
seek-absent (c ∷ bs) a zero b h k = ground arith
seek-absent (c ∷ bs) a (suc i) b h k = elim (Seek-cases (seek bs a)) [
  | is_absent e ↦ absurd (seek-absent bs a i b h k e)
  | is_inside j d e ↦ ground arith
  | is_exact j e ↦ ground arith
]

lookup-Starts :
    (f : Function) (a i : ℕ) (b : BasicBlock)
    → get_elem? f.blocks i ≡ some b
    → Inside b a
    → (get_basic_block_for_address f a).was_split ≡ false
    → Starts f.blocks a
unfolding get_basic_block_for_address
lookup-Starts f a i b h k unsplit = elim (Seek-cases (seek f.blocks a)) [
  | is_absent e ↦ absurd (seek-absent f.blocks a i b h k e)
  | is_inside j c e ↦ absurd (ground arith)
  | is_exact j e ↦ seek-exact f.blocks a j e
]

-- The loop over the entries goes through only where each entry inside the block starts a block.
scan_entries-Settled :
    (b : BasicBlock) (entries : Set ℕ) (f g : Function) (i : ℕ)
    → get_elem? f.blocks i ≡ some b
    → scan_entries b entries f ≡ through g
    → Settled entries f.blocks (b.start, b.end)
unfolding scan_entries
scan_entries-Settled b [] f g i h k e m lo hi = absurd m.0
scan_entries-Settled b (entry ∷ entries) f g i h k e m lo hi =
    elim (Bool-cases (entry == b.start)) [
      | inl same ↦ ground (arith, scan_entries-Settled b entries f g i h (ground arith) e)
      | inr other ↦ elim (Bool-cases (ltb b.start entry && ltb entry b.end)) [
        | inr away ↦ ground (arith, scan_entries-Settled b entries f g i h (ground arith) e)
        | inl here ↦ elim (lookup-slack f entry) [
          | inr (was, less) ↦ absurd (ground arith)
          | inl (kept, unchanged) ↦
              let start = lookup-Starts f entry i b h (ground arith) kept in
              elim (m) [
                | inl first ↦ subst (Starts f.blocks) (sym first) start
                | inr further ↦
                    scan_entries-Settled b entries f g i h (ground arith) e further lo hi
              ]
        ]
      ]
    ]

Moves-through :
    {bs : List BasicBlock} {g : Function} → Moves bs (through g) → ranges g.blocks ≡ ranges bs
Moves-through (stays _ e) = e

get_elem?-ranges :
    (bs cs : List BasicBlock) (i : ℕ) (c : BasicBlock)
    → ranges bs ≡ ranges cs
    → get_elem? cs i ≡ some c
    → (b : BasicBlock) × (get_elem? bs i ≡ some b) × (b.start ≡ c.start) × (b.end ≡ c.end)
get_elem?-ranges bs [] i c e h = absurd (cc)
get_elem?-ranges [] (d ∷ cs) i c e h = absurd (cc)
get_elem?-ranges (b ∷ bs) (d ∷ cs) zero c e h = (b, refl, ground arith, ground arith)
get_elem?-ranges (b ∷ bs) (d ∷ cs) (suc i) c e h = get_elem?-ranges bs cs i c (ground arith) h

lt-length_of_get_elem? :
    (bs : List BasicBlock) (i : ℕ) (b : BasicBlock) → get_elem? bs i ≡ some b → i < length bs
lt-length_of_get_elem? [] i b h = absurd (cc)
lt-length_of_get_elem? (c ∷ bs) zero b h = omega arith
lt-length_of_get_elem? (c ∷ bs) (suc i) b h = omega (arith, lt-length_of_get_elem? bs i b h)

le-length_of_none : (bs : List BasicBlock) (i : ℕ) → get_elem? bs i ≡ none → length bs ≤ i
le-length_of_none [] i h = omega arith
le-length_of_none (c ∷ bs) zero h = absurd (cc)
le-length_of_none (c ∷ bs) (suc i) h = omega (arith, le-length_of_none bs i h)

at_same :
    (bs : List BasicBlock) (i k : ℕ) (c b : BasicBlock)
    → get_elem? bs i ≡ some c
    → get_elem? bs k ≡ some b
    → k ≡ i
    → (c.start ≡ b.start) × (c.end ≡ b.end)
at_same bs i k c b h h' e =
    let p : some c ≡ some b = sym h ∙ (ap (get_elem? bs) (sym e) ∙ h') in
    let q : c ≡ b = some-injective c b p in (ap (λ d. d.start) q, ap (λ d. d.end) q)

data PassCases (p : Pass) : Type 0 where
  is_reset : (g : Function) → p ≡ reset g → PassCases p
  is_through : (g : Function) → p ≡ through g → PassCases p

Pass-cases : (p : Pass) → PassCases p
Pass-cases (reset g) = is_reset g refl
Pass-cases (through g) = is_through g refl

scan_blocks-Settled :
    (entries : Set ℕ) (n i : ℕ) (f g : Function)
    → scan_blocks entries n i f ≡ through g
    → (k : ℕ) (b : BasicBlock) → i ≤ k
    → k < i + n
    → get_elem? f.blocks k ≡ some b
    → Settled entries f.blocks (b.start, b.end)
unfolding scan_blocks
scan_blocks-Settled entries zero i f g h k b lo hi here = absurd (omega arith)
scan_blocks-Settled entries (suc n) i f g h k b lo hi here =
    elim (Option-cases (get_elem? f.blocks i)) [
      | inl gone ↦ absurd (
          omega
            (arith, le-length_of_none f.blocks i gone, lt-length_of_get_elem? f.blocks k b here))
      | inr (c, at_i) ↦ elim (Pass-cases (scan_entries c entries f)) [
        | is_reset g1 e1 ↦ absurd (cc (rw (at_i, e1, scan_blocks) at h))
        | is_through g1 e1 ↦ elim (Pass-cases (link_successors c.start c.successors g1)) [
          | is_reset g2 e2 ↦ absurd (cc (rw (at_i, e1, e2, scan_blocks) at h))
          | is_through g2 e2 ↦
              let same : ranges g2.blocks ≡ ranges f.blocks =
                Moves-through
                  (subst (Moves g1.blocks) e2 (link_successors-Moves c.start c.successors g1))
                ∙ Moves-through (subst (Moves f.blocks) e1 (scan_entries-Moves c entries f)) in
              elim (Bool-cases (k == i)) [
                | inl now ↦
                    let (e_s, e_e) = at_same f.blocks i k c b at_i here ((==_iff k i).0 now) in
                    subst (Settled entries f.blocks) (ap₂ (λ x y. (x, y)) e_s e_e)
                      (scan_entries-Settled c entries f g1 i at_i e1)
                | inr later ↦
                    let (b', there, e_s, e_e) = get_elem?-ranges g2.blocks f.blocks k b same here in
                    let r =
                      scan_blocks-Settled entries n (suc i) g2 g
                        (rw (at_i, e1, e2, scan_blocks) at h) k b' (ground arith) (ground arith)
                        there in
                    λ e m lo hi.
                      Starts-ranges g2.blocks f.blocks e same
                        (r e m (omega (arith, e_s)) (omega (arith, e_e)))
              ]
        ]
      ]
    ]

rounds-Settled :
    (fuel : ℕ) (entries : Set ℕ) (f g : Function)
    → rounds fuel entries f ≡ some g
    → (k : ℕ) (b : BasicBlock) → get_elem? g.blocks k ≡ some b
    → Settled entries g.blocks (b.start, b.end)
unfolding rounds
rounds-Settled zero entries f g h k b here = absurd (cc)
rounds-Settled (suc fuel) entries f g h k b here =
    elim (Pass-cases (scan_blocks entries (length f.blocks) 0 f)) [
      | is_reset g1 e1 ↦ rounds-Settled fuel entries g1 g (rw (e1, rounds) at h) k b here
      | is_through g1 e1 ↦
          let done : g1 ≡ g = some-injective g1 g (rw (e1, rounds) at h) in
          let same : ranges g.blocks ≡ ranges f.blocks =
            ap (λ x. ranges x.blocks) (sym done)
            ∙ Moves-through
                (subst (Moves f.blocks) e1 (scan_blocks-Moves entries (length f.blocks) 0 f)) in
          let (b', there, e_s, e_e) = get_elem?-ranges f.blocks g.blocks k b (sym same) here in
          let r =
            scan_blocks-Settled entries (length f.blocks) 0 f g1 e1 k b' (omega arith)
              (omega (arith, lt-length_of_get_elem? f.blocks k b' there)) there in
          λ e m lo hi.
            Starts-ranges f.blocks g.blocks e (sym same)
              (r e m (omega (arith, e_s)) (omega (arith, e_e)))
    ]

-- Once the blocks of a function are split, no address at which a block of the function started, or
-- that a block named as a successor, lies strictly inside a block without being the start of one.
pub split_blocks-Settled :
    (f g : Function) (k : ℕ) (b : BasicBlock) (e : ℕ)
    → split_blocks f ≡ some g
    → get_elem? g.blocks k ≡ some b
    → Starts f.blocks e ⊎ Succeeds f.blocks e
    → Inside b e
    → Starts g.blocks e
unfolding split_blocks entries_of
split_blocks-Settled f g k b e h here entry inside_b =
    rounds-Settled (suc (slack f.blocks)) (entries_of f.blocks) f g h k b here e
      ((contains_iff e (entries_of f.blocks)).0 (
        contains-inner_entries e f.blocks (block_entries f.blocks [])
          (contains-block_entries e f.blocks [] (ground arith))))
      inside_b.0 inside_b.1
