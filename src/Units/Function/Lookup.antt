-- ===== src/Units/Function/Lookup.antt =====
-- Function::GetBasicBlockForAddress, which may split a block, of
-- ReWizardLib/source/Analysis/Units/Function.cpp.
use mathlib.Core.Option
use re_wizard.Prelude.{
  ℕ, suc, refl, ap, inl, inr, Bool, true, false, Option, none, some, List, [], arith, ltb, leb,
  Bool-cases, length, modify, ◌≡◌, ◌↔◌, ◌⊎◌, ◌&&◌, ◌∷◌, ◌++◌, ◌==◌, if◌then◌else◌,
}
use re_wizard.Units.BasicBlock.{BasicBlock, split, Covers, Inside, split-Covers, split-SplitsAt}
use re_wizard.Units.Function.{Function, add_basic_block}

-- allowSplit = false: the place of the first block that covers the address.
unfoldable pub block_covering : List BasicBlock → ℕ → Option ℕ
block_covering [] address = none
block_covering (b ∷ bs) address =
    if leb b.start address && ltb address b.end
    then some 0
    else Option.map suc (block_covering bs address)

-- Where the loop of the splitting lookup stops: at a block that starts at the address, or at one
-- that has it inside.
pub data Seek : Type 0 where
  absent : Seek
  exact : ℕ → Seek
  inside : ℕ → BasicBlock → Seek

unfoldable pub next : Seek → Seek
next absent = absent
next (exact i) = exact (suc i)
next (inside i b) = inside (suc i) b

unfoldable pub seek : List BasicBlock → ℕ → Seek
unfolding next
seek [] address = absent
seek (b ∷ bs) address =
    if address == b.start
    then exact 0
    else if ltb b.start address && ltb address b.end
    then inside 0 b
    else next (seek bs address)

-- The function afterwards, the place of the block returned, and *wasSplit.
pub record Found : Type 0 where
  pub function : Function
  pub block : Option ℕ
  pub was_split : Bool

abbrev pub after_seek : Function → ℕ → Seek → Found
after_seek f address absent = record { function = f; block = none; was_split = false }
after_seek f address (exact i) = record { function = f; block = some i; was_split = false }
after_seek f address (inside i b) =
    let (old, fresh) = split address b in
    record {
      function = add_basic_block fresh (record f { blocks = modify (λ _. old) i f.blocks });
      block = some (length f.blocks);
      was_split = true;
    }

-- allowSplit = true
unfoldable pub get_basic_block_for_address : Function → ℕ → Found
unfolding seek split add_basic_block
get_basic_block_for_address f address = after_seek f address (seek f.blocks address)

-- An address that some block of the list covers.
abbrev pub Covered : List BasicBlock → ℕ → Type 0
Covered [] a = ⊥
Covered (b ∷ bs) a = Covers b a ⊎ Covered bs a

-- An address at which some block of the list starts.
abbrev pub Starts : List BasicBlock → ℕ → Type 0
Starts [] a = ⊥
Starts (b ∷ bs) a = (b.start ≡ a) ⊎ Starts bs a

Covered-append :
    (bs cs : List BasicBlock) (a : ℕ) → Covered (bs ++ cs) a ↔ (Covered bs a ⊎ Covered cs a)
Covered-append [] cs a = ground arith
Covered-append (b ∷ bs) cs a = ground (arith, Covered-append bs cs a)

Starts-append :
    (bs cs : List BasicBlock) (a : ℕ) → Starts (bs ++ cs) a ↔ (Starts bs a ⊎ Starts cs a)
Starts-append [] cs a = ground arith
Starts-append (b ∷ bs) cs a = ground (arith, Starts-append bs cs a)

pub next-inside :
    (s : Seek) (i : ℕ) (b : BasicBlock)
    → next s ≡ inside i b
    → (j : ℕ) × (i ≡ suc j) × (s ≡ inside j b)
unfolding next
next-inside absent i b h = absurd (cc)
next-inside (exact j) i b h = absurd (cc)
next-inside (inside j c) i b h = (j, ground arith, ground arith)

-- The list after the split of the block at place `i`.
abbrev pub split_list : List BasicBlock → ℕ → ℕ → BasicBlock → List BasicBlock
split_list bs address i b = modify (λ _. (split address b).0) i bs ++ (split address b).1 ∷ []

-- What the place and the block of a successful `Seek` say of the list.
pub record SplitPoint (bs : List BasicBlock) (address i : ℕ) (b : BasicBlock) : Type 0 where
  pub is_inside : Inside b address
  pub covered :
      (a : ℕ)
      → (Covered (modify (λ _. (split address b).0) i bs) a ⊎ Covers (split address b).1 a)
        ↔ Covered bs a
  pub starts : (a : ℕ) → Starts (modify (λ _. (split address b).0) i bs) a ↔ Starts bs a

pub seek-SplitPoint :
    (bs : List BasicBlock) (address i : ℕ) (b : BasicBlock)
    → seek bs address ≡ inside i b
    → SplitPoint bs address i b
unfolding seek
seek-SplitPoint [] address i b h = absurd (cc)
seek-SplitPoint (c ∷ bs) address i b h = elim (Bool-cases (address == c.start)) [
  | inl same ↦ absurd (ground arith)
  | inr other ↦ elim (Bool-cases (ltb c.start address && ltb address c.end)) [
    | inl here ↦
        let (e, f) : (0 ≡ i) × (c ≡ b) = (ground arith, ground arith) in
        let in_c : Inside c address = ground arith in
        rw (← e, ← f)
          (record {
            is_inside = in_c;
            covered = λ a. ground (arith, (split-Covers c address a in_c).0);
            starts = λ a. ground (arith, ap (λ d. d.start) (split-SplitsAt c address).old);
          })
    | inr away ↦
        let (j, e, further) = next-inside (seek bs address) i b (ground arith) in
        let r = seek-SplitPoint bs address j b further in
        rw e (record {
          is_inside = r.is_inside;
          covered = λ a. ground (arith, r.covered a);
          starts = λ a. ground (arith, r.starts a);
        })
  ]
]

pub data SeekCases (s : Seek) : Type 0 where
  is_absent : s ≡ absent → SeekCases s
  is_exact : (i : ℕ) → s ≡ exact i → SeekCases s
  is_inside : (i : ℕ) (b : BasicBlock) → s ≡ inside i b → SeekCases s

pub Seek-cases : (s : Seek) → SeekCases s
Seek-cases absent = is_absent refl
Seek-cases (exact i) = is_exact i refl
Seek-cases (inside i b) = is_inside i b refl

-- A lookup that may split keeps the addresses that the blocks cover and the addresses at which
-- blocks start, and adds the asked-for address as a start exactly where it has split a block.
pub get_basic_block_for_address-keeps :
    (f : Function) (address a : ℕ)
    → (Covered (get_basic_block_for_address f address).function.blocks a ↔ Covered f.blocks a)
      × (Starts (get_basic_block_for_address f address).function.blocks a ↔ (
          Starts f.blocks a
          ⊎ ((get_basic_block_for_address f address).was_split ≡ true) × (a ≡ address)))
unfolding get_basic_block_for_address
get_basic_block_for_address-keeps f address a = elim (Seek-cases (seek f.blocks address)) [
  | is_absent e ↦ rw e (ground arith)
  | is_exact i e ↦ rw e (ground arith)
  | is_inside i b e ↦
      let r = seek-SplitPoint f.blocks address i b e in
      let old = modify (λ _. (split address b).0) i f.blocks in
      let fresh = (split address b).1 in
      rw e (
        ground (
          arith,
          r.covered a,
          r.starts a,
          Covered-append old (fresh ∷ []) a,
          Starts-append old (fresh ∷ []) a,
          (split-SplitsAt b address).start,
        ))
]
