-- ===== src/Insn/Walk.antt =====
-- The loop by which the passes go through the instructions of a block:
--   while (addr < end) { insn = GetInstruction(addr); if (!insn) break; …; addr += insn.length; }
-- No body changes the length of an instruction, so the table of instructions is fixed. The fuel is
-- one more than the size of the block, which is enough as long as every length is positive.
use mathlib.Core.Path.{subst}
use mathlib.Core.Option.{some-injective}
use re_wizard.Prelude.{
  ℕ, zero, suc, refl, inl, inr, true, false, Option, none, some, arith, ltb, Bool-cases,
  Option-cases, keep, ◌+◌, ◌-◌, ◌<◌, ◌≡◌, nat_key,
}
use re_wizard.Prelude.Map
use re_wizard.Prelude.Map.{Map}
use re_wizard.Prelude.Word.{add_word, word_mod}
use re_wizard.Insn.{Instruction}

module _ {S : Type 0} (insns : Map ℕ Instruction) (body : Instruction → S → S) where
  -- `none` means that the fuel ran out.
  unfoldable pub walk : ℕ → ℕ → ℕ → S → Option S
  walk zero addr end s = none
  walk (suc fuel) addr end s = elim (ltb addr end) [
    | false ↦ some s
    | true ↦ elim (Map.find addr insns) [
      | none ↦ some s
      | some insn ↦ walk fuel (add_word addr insn.length) end (body insn s)
    ]
  ]

  unfoldable pub walk_block : ℕ → ℕ → S → Option S
  unfolding walk
  walk_block start end s = walk (suc (end - start)) start end s

-- The table holds what a decoder returns: each instruction stands under its address, has a
-- positive length and does not run past the end of the address space.
pub record IsDecoded (insns : Map ℕ Instruction) : Type 0 where
  pub address : (a : ℕ) (insn : Instruction) → Map.find a insns ≡ some insn → insn.address ≡ a
  pub positive : (a : ℕ) (insn : Instruction) → Map.find a insns ≡ some insn → 0 < insn.length
  pub fits :
      (a : ℕ) (insn : Instruction) → Map.find a insns ≡ some insn → a + insn.length < word_mod

module _ {S : Type 0} (insns : Map ℕ Instruction) (body : Instruction → S → S) where
  walk-total :
      (fuel addr end : ℕ) (s : S)
      → IsDecoded insns
      → end - addr < fuel
      → (r : S) × (walk insns body fuel addr end s ≡ some r)
  unfolding walk
  walk-total zero addr end s d h = absurd (omega arith)
  walk-total (suc fuel) addr end s d h = elim (Bool-cases (ltb addr end)) [
    | inr past ↦ (s, rw (past, walk) refl)
    | inl before ↦ elim (Option-cases (Map.find addr insns)) [
      | inl gap ↦ (s, rw (before, gap, walk) refl)
      | inr (insn, here) ↦
          let p = d.positive addr insn here in
          let q = d.fits addr insn here in
          let (r, e) =
            walk-total fuel (add_word addr insn.length) end (body insn s) d
              (ground (arith, p, q)) in
          (r, rw (before, here, walk) e)
    ]
  ]

  -- On decoded instructions the loop over a block ends.
  pub walk_block-total :
      (start end : ℕ) (s : S)
      → IsDecoded insns
      → (r : S) × (walk_block insns body start end s ≡ some r)
  unfolding walk_block
  walk_block-total start end s d = walk-total (suc (end - start)) start end s d (omega arith)

  walk-inv :
      (P : S → Type 0) (fuel addr end : ℕ) (s r : S)
      → ((a : ℕ) (insn : Instruction) (t : S)
          → Map.find a insns ≡ some insn
          → P t
          → P (body insn t))
      → P s
      → walk insns body fuel addr end s ≡ some r
      → P r
  unfolding walk
  walk-inv P zero addr end s r keep p h = absurd (cc)
  walk-inv P (suc fuel) addr end s r keep p h = elim (Bool-cases (ltb addr end)) [
    | inr past ↦ subst P (some-injective s r (rw (past, walk) at h)) p
    | inl before ↦ elim (Option-cases (Map.find addr insns)) [
      | inl gap ↦ subst P (some-injective s r (rw (before, gap, walk) at h)) p
      | inr (insn, here) ↦
          walk-inv P fuel (add_word addr insn.length) end (body insn s) r keep
            (keep addr insn s here p) (rw (before, here, walk) at h)
    ]
  ]

  -- What the body keeps on the instructions of the table, the loop over a block keeps.
  pub walk_block-inv_in :
      (P : S → Type 0) (start end : ℕ) (s r : S)
      → ((a : ℕ) (insn : Instruction) (t : S)
          → Map.find a insns ≡ some insn
          → P t
          → P (body insn t))
      → P s
      → walk_block insns body start end s ≡ some r
      → P r
  unfolding walk_block
  walk_block-inv_in P start end s r keep p h = walk-inv P (suc (end - start)) start end s r keep p h

  -- What the body keeps, the loop over a block keeps.
  pub walk_block-inv :
      (P : S → Type 0) (start end : ℕ) (s r : S)
      → ((insn : Instruction) (t : S) → P t → P (body insn t))
      → P s
      → walk_block insns body start end s ≡ some r
      → P r
  walk_block-inv P start end s r keep p h =
      walk_block-inv_in P start end s r (λ a insn t here. keep insn t) p h
