-- ===== src/Emulator/Memory.antt =====
-- LoadBinary, SetRegister, GetRegister, Snapshot and Restore of
-- ReWizardLib/source/Hybrid/BochsExecutor.cpp.
pub mod Pages
use re_wizard.Prelude.{
  ℕ, zero, suc, min, Bool, true, false, not, Option, none, some, List, [], ltb, length, is_empty,
  ◌-◌, ◌∷◌, if◌then◌else◌,
}
use mathlib.Core.Option
use re_wizard.Prelude.Word.{add_word, word_mod}
use re_wizard.Insn.{Register, rip, r64, register_key}
use re_wizard.Emulator.{Bochs, Emulator, zydis_to_bochs_reg}

-- The bytes from an offset on, and at most n of them.
unfoldable pub drop : ℕ → List ℕ → List ℕ
drop zero bytes = bytes
drop (suc n) [] = []
drop (suc n) (x ∷ bytes) = drop n bytes

unfoldable pub take : ℕ → List ℕ → List ℕ
take zero bytes = []
take (suc n) [] = []
take (suc n) (x ∷ bytes) = x ∷ take n bytes

module _ {C : Type 0} (bochs : Bochs C) where
  -- The loop of LoadBinary; `none` means that the fuel ran out.
  unfoldable pub write_pages : ℕ → List ℕ → ℕ → ℕ → C → Option C
  unfolding take drop
  write_pages zero bytes base offset c = if ltb offset (length bytes) then none else some c
  write_pages (suc fuel) bytes base offset c =
      let chunk = min 4096 (length bytes - offset) in
      let next =
        write_pages fuel bytes base (add_word offset 4096)
          (bochs.write_physical_page (add_word base offset) (take chunk (drop offset bytes)) c) in
      if ltb offset (length bytes) then next else some c

module _ {C B : Type 0} (bochs : Bochs C) where
  -- `none` for the data is the null pointer.
  unfoldable pub load_binary : Option (List ℕ) → ℕ → Emulator C B → Option (Emulator C B × Bool)
  unfolding write_pages
  load_binary none base e = some (e, false)
  load_binary (some bytes) base e =
      if is_empty bytes
      then some (e, false)
      else if not e.core_initialized
      then some (e, false)
      else Option.map (λ (c : C). (record e { core = c }, true))
          (write_pages bochs (length bytes) bytes base 0 e.core)

  unfoldable pub set_register : Register → ℕ → Emulator C B → Emulator C B × Bool
  unfolding zydis_to_bochs_reg
  set_register reg value e = elim (zydis_to_bochs_reg reg) [
    | none ↦ (e, false)
    | some i ↦
        if not e.core_initialized
        then (e, false)
        else (record e { core = bochs.set_gen_reg i value e.core }, true)
  ]

  -- The value, where the call succeeds.
  unfoldable pub get_register : Register → Emulator C B → Option ℕ
  unfolding zydis_to_bochs_reg
  get_register reg e = elim (zydis_to_bochs_reg reg) [
    | none ↦ none
    | some i ↦ if not e.core_initialized then none else some (bochs.gen_reg i e.core)
  ]

-- Snapshot and Restore, which are not implemented.
unfoldable pub snapshot : {C B : Type 0} → Emulator C B → Emulator C B × Bool
snapshot e = (e, false)

unfoldable pub restore : {C B : Type 0} → Emulator C B → Emulator C B × Bool
restore e = (e, false)
