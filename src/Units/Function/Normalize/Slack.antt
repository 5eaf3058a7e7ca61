-- ===== src/Units/Function/Normalize/Slack.antt =====
-- The ranges of blocks, and the slack that a split uses up.
use re_wizard.Prelude.{
  ℕ, zero, suc, refl, ap, inl, inr, true, false, Option, none, some, List, [], map, arith, ltb,
  Bool-cases, modify, ◌+◌, ◌≡◌, ◌⊎◌, ◌&&◌, ◌∷◌, ◌++◌, ◌==◌, nat_key,
}
use re_wizard.Units.BasicBlock.{BasicBlock, add_predecessor, split, split-SplitsAt}
use re_wizard.Units.Function.{Function}
use re_wizard.Units.Function.Lookup.{
  inside, seek, get_basic_block_for_address, Covered, Starts, is_absent, is_exact, is_inside,
  Seek-cases, next-inside,
}
use re_wizard.Units.Function.Normalize.{add_predecessor_at, slack}

-- The ranges of the blocks, in order.
abbrev pub ranges : List BasicBlock → List (ℕ × ℕ)
ranges = map (λ b. (b.start, b.end))

pub Covered-ranges :
    (bs cs : List BasicBlock) (a : ℕ) → ranges bs ≡ ranges cs → Covered bs a → Covered cs a
Covered-ranges [] [] a e h = h
Covered-ranges [] (c ∷ cs) a e h = absurd h
Covered-ranges (b ∷ bs) [] a e h = absurd (cc)
Covered-ranges (b ∷ bs) (c ∷ cs) a e h = ground (arith, Covered-ranges bs cs a)

pub Starts-ranges :
    (bs cs : List BasicBlock) (a : ℕ) → ranges bs ≡ ranges cs → Starts bs a → Starts cs a
Starts-ranges [] [] a e h = h
Starts-ranges [] (c ∷ cs) a e h = absurd h
Starts-ranges (b ∷ bs) [] a e h = absurd (cc)
Starts-ranges (b ∷ bs) (c ∷ cs) a e h = ground (arith, Starts-ranges bs cs a)

pub slack-ranges : (bs cs : List BasicBlock) → ranges bs ≡ ranges cs → slack bs ≡ slack cs
slack-ranges [] [] e = refl
slack-ranges [] (c ∷ cs) e = absurd (cc)
slack-ranges (b ∷ bs) [] e = absurd (cc)
slack-ranges (b ∷ bs) (c ∷ cs) e = ground (arith, slack-ranges bs cs)

pub slack-append : (bs cs : List BasicBlock) → slack (bs ++ cs) ≡ slack bs + slack cs
slack-append [] cs = omega arith
slack-append (b ∷ bs) cs = omega (arith, slack-append bs cs)

-- The split at the place that the lookup finds uses up one address.
pub slack-split :
    (bs : List BasicBlock) (address i : ℕ) (b : BasicBlock)
    → seek bs address ≡ inside i b
    → slack (modify (λ _. (split address b).0) i bs) + slack ((split address b).1 ∷ []) + 1
      ≡ slack bs
unfolding seek
slack-split [] address i b h = absurd (cc)
slack-split (c ∷ bs) address i b h = elim (Bool-cases (address == c.start)) [
  | inl same ↦ absurd (ground arith)
  | inr other ↦ elim (Bool-cases (ltb c.start address && ltb address c.end)) [
    | inl here ↦
        let (e, f) : (0 ≡ i) × (c ≡ b) = (ground arith, ground arith) in
        let s = split-SplitsAt c address in
        rw (← e, ← f)
          (ground (arith, ap (λ d. d.start) s.old, ap (λ d. d.end) s.old, s.start, s.end))
    | inr away ↦
        let (j, e, further) = next-inside (seek bs address) i b (ground arith) in
        rw e (omega (arith, slack-split bs address j b further))
  ]
]

-- What a lookup does to the slack: it changes nothing, or it splits and uses up one address.
pub lookup-slack :
    (f : Function) (address : ℕ)
    → ((get_basic_block_for_address f address).was_split ≡ false)
        × ((get_basic_block_for_address f address).function ≡ f)
      ⊎ ((get_basic_block_for_address f address).was_split ≡ true)
        × (slack (get_basic_block_for_address f address).function.blocks + 1 ≡ slack f.blocks)
unfolding get_basic_block_for_address
lookup-slack f address = elim (Seek-cases (seek f.blocks address)) [
  | is_absent e ↦ rw e (inl (refl, refl))
  | is_exact i e ↦ rw e (inl (refl, refl))
  | is_inside i b e ↦
      let old = modify (λ _. (split address b).0) i f.blocks in
      rw e (
        inr (
          refl,
          omega (
            arith,
            slack-append old ((split address b).1 ∷ []),
            slack-split f.blocks address i b e,
          ),
        ))
]

pub ranges-add_predecessor :
    (start i : ℕ) (bs : List BasicBlock) → ranges (modify (add_predecessor start) i bs) ≡ ranges bs
unfolding add_predecessor
ranges-add_predecessor start i [] = refl
ranges-add_predecessor start zero (b ∷ bs) = refl
ranges-add_predecessor start (suc i) (b ∷ bs) =
    ap (◌∷◌ (b.start, b.end)) (ranges-add_predecessor start i bs)

pub ranges-add_predecessor_at :
    (start : ℕ) (o : Option ℕ) (f : Function)
    → ranges (add_predecessor_at start o f).blocks ≡ ranges f.blocks
ranges-add_predecessor_at start none f = refl
ranges-add_predecessor_at start (some i) f = ranges-add_predecessor start i f.blocks
