-- ===== src/Emulator/Memory/Pages.antt =====
-- The loop of LoadBinary over the pages: ReWizardLib/source/Hybrid/BochsExecutor.cpp.
use re_wizard.Prelude.{
  ℕ, zero, suc, min, refl, ap, inl, inr, Bool, true, false, some, List, [], arith, ltb, leb, ltb→lt,
  lt→ltb, Bool-cases, length, is_empty, get_or, ◌+◌, ◌-◌, ◌%◌, ◌≤◌, ◌<◌, ◌≡◌, ◌∙◌, ◌&&◌, ◌∷◌,
  if◌then◌else◌,
}
use native.Mathlib.Nat.{mod-eq_of_lt}
use re_wizard.Prelude.Word.{word_mod}
use re_wizard.Emulator.{Bochs, Emulator}
use re_wizard.Emulator.Memory.{take, drop, write_pages, load_binary}

length-drop : (n : ℕ) (bytes : List ℕ) → length (drop n bytes) ≡ length bytes - n
unfolding drop
length-drop zero bytes = omega arith
length-drop (suc n) [] = omega arith
length-drop (suc n) (x ∷ bytes) = omega (arith, length-drop n bytes)

length-take : (n : ℕ) (bytes : List ℕ) → n ≤ length bytes → length (take n bytes) ≡ n
unfolding take
length-take zero bytes h = refl
length-take (suc n) [] h = omega arith
length-take (suc n) (x ∷ bytes) h = omega (arith, length-take n bytes (omega arith))

get_or-take : (n i : ℕ) (bytes : List ℕ) → i < n → get_or (take n bytes) i 0 ≡ get_or bytes i 0
unfolding take
get_or-take zero i bytes h = omega arith
get_or-take (suc n) i [] h = refl
get_or-take (suc n) zero (x ∷ bytes) h = refl
get_or-take (suc n) (suc i) (x ∷ bytes) h = get_or-take n i bytes (omega arith)

get_or-drop :
    (n i j : ℕ) (bytes : List ℕ) → j ≡ n + i → get_or (drop n bytes) i 0 ≡ get_or bytes j 0
unfolding drop
get_or-drop zero i j bytes e = ap (λ k. get_or bytes k 0) (omega arith)
get_or-drop (suc n) i j [] e = refl
get_or-drop (suc n) i zero (x ∷ bytes) e = omega arith
get_or-drop (suc n) i (suc j) (x ∷ bytes) e = get_or-drop n i j bytes (omega arith)

-- A byte of the memory after `bytes` were written at `address`.
abbrev pub overwritten : List ℕ → ℕ → (ℕ → ℕ) → ℕ → ℕ
overwritten bytes address old a =
    if leb address a && ltb a (address + length bytes) then get_or bytes (a - address) 0 else old a

-- The addresses of `n` bytes from `address` on are memory that can be written.
abbrev pub IsWritable : (ℕ → Bool) → ℕ → ℕ → Type 0
IsWritable is_ram address n = (a : ℕ) → address ≤ a → a < address + n → is_ram a ≡ true

-- What Bochs documents of writePhysicalPage, for accesses that stay in one page of memory that can
-- be written: the bytes are there, and no other byte changes.
abbrev pub WritesPage : {C : Type 0} → Bochs C → (C → ℕ → ℕ) → (ℕ → Bool) → Type 0
WritesPage {C} bochs memory is_ram =
    (c : C) (address : ℕ) (bytes : List ℕ)
    → address % 4096 + length bytes ≤ 4096
    → IsWritable is_ram address (length bytes)
    → (a : ℕ)
    → memory (bochs.write_physical_page address bytes c) a ≡ overwritten bytes address (memory c) a

module _ {C : Type 0} (bochs : Bochs C) (memory : C → ℕ → ℕ) (is_ram : ℕ → Bool) where
  -- What the loop leaves from an offset on.
  abbrev Written : List ℕ → ℕ → ℕ → C → C → Type 0
  Written bytes base offset c c' =
      (a : ℕ)
      → memory c' a ≡ (
          if leb (base + offset) a && ltb a (base + length bytes)
          then get_or bytes (a - base) 0
          else memory c a)

  write_chunk :
      (bytes : List ℕ) (base offset : ℕ) (c : C)
      → WritesPage bochs memory is_ram
      → base % 4096 ≡ 0
      → offset % 4096 ≡ 0
      → offset < length bytes
      → IsWritable is_ram base (length bytes)
      → (a : ℕ)
      → memory
          (bochs.write_physical_page
            (base + offset)
            (take (min 4096 (length bytes - offset)) (drop offset bytes))
            c)
          a
        ≡ (if leb (base + offset) a && ltb a (base + offset + min 4096 (length bytes - offset))
            then get_or bytes (a - base) 0
            else memory c a)
  write_chunk bytes base offset c law hb ho hlt ram a =
      let n = min 4096 (length bytes - offset) in
      let chunk = take n (drop offset bytes) in
      let len : length chunk ≡ n =
        length-take n (drop offset bytes) (omega (arith, length-drop offset bytes)) in
      let wrote =
        law c (base + offset) chunk (omega (arith, len))
          (λ x lo hi. ram x (omega arith) (omega (arith, len))) a in
      elim (Bool-cases (leb (base + offset) a && ltb a (base + offset + n))) [
        | inl inside ↦
            let i = a - (base + offset) in
            let value : get_or chunk i 0 ≡ get_or bytes (a - base) 0 =
              get_or-take n i (drop offset bytes) (ground arith)
              ∙ get_or-drop offset i (a - base) bytes (ground arith) in
            ground (arith, wrote, value, len)
        | inr outside ↦ ground (arith, wrote, len)
      ]

  write_pages_more :
      (fuel : ℕ) (bytes : List ℕ) (base offset : ℕ) (c : C)
      → offset < length bytes
      → offset + 4096 < word_mod
      → base + offset < word_mod
      → write_pages bochs (suc fuel) bytes base offset c
        ≡ write_pages bochs fuel bytes base (offset + 4096) (
            bochs.write_physical_page
              (base + offset)
              (take (min 4096 (length bytes - offset)) (drop offset bytes))
              c)
  unfolding write_pages
  write_pages_more fuel bytes base offset c more hs hb =
      rw (lt→ltb _ _ more, mod-eq_of_lt hs, mod-eq_of_lt hb)

  write_pages_done :
      (fuel : ℕ) (bytes : List ℕ) (base offset : ℕ) (c : C)
      → length bytes ≤ offset
      → write_pages bochs fuel bytes base offset c ≡ some c
  unfolding write_pages
  write_pages_done zero bytes base offset c h = ground arith
  write_pages_done (suc fuel) bytes base offset c h = ground arith

  write_pages-writes :
      (fuel : ℕ) (bytes : List ℕ) (base offset : ℕ) (c : C)
      → WritesPage bochs memory is_ram
      → base % 4096 ≡ 0
      → offset % 4096 ≡ 0
      → length bytes ≤ offset + fuel
      → base + length bytes + 4096 ≤ word_mod
      → offset ≤ length bytes + 4095
      → IsWritable is_ram base (length bytes)
      → (c' : C) × (write_pages bochs fuel bytes base offset c ≡ some c')
        × Written bytes base offset c c'
  write_pages-writes zero bytes base offset c law hb ho hf hw hl ram =
      (c, write_pages_done zero bytes base offset c (omega arith), λ a. ground arith)
  write_pages-writes (suc fuel) bytes base offset c law hb ho hf hw hl ram =
      elim (Bool-cases (ltb offset (length bytes))) [
        | inl more ↦
            let lt = ltb→lt _ _ more in
            let c1 =
              bochs.write_physical_page (base + offset)
                (take (min 4096 (length bytes - offset)) (drop offset bytes)) c in
            let (c', e, rest) =
              write_pages-writes fuel bytes base (offset + 4096) c1 law hb (omega arith)
                (omega arith) hw (omega arith) ram in
            let first = write_chunk bytes base offset c law hb ho lt ram in
            (
              c',
              write_pages_more fuel bytes base offset c lt (omega arith) (omega arith) ∙ e,
              λ a. ground (arith, rest a, first a),
            )
        | inr done ↦
            (c, write_pages_done (suc fuel) bytes base offset c (ground arith), λ a. ground arith)
      ]

-- LoadBinary on data that is not empty, with the core initialised, for an aligned base: it returns
-- true, the memory holds the data from the base on, and no other byte has changed.
pub load_binary-writes :
    {C B : Type 0} (bochs : Bochs C) (memory : C → ℕ → ℕ) (is_ram : ℕ → Bool) (bytes : List ℕ)
    (base : ℕ) (e : Emulator C B)
    → WritesPage bochs memory is_ram
    → is_empty bytes ≡ false
    → e.core_initialized ≡ true
    → base % 4096 ≡ 0
    → base + length bytes + 4096 ≤ word_mod
    → IsWritable is_ram base (length bytes)
    → (e' : Emulator C B) × (load_binary bochs (some bytes) base e ≡ some (e', true))
      × ((a : ℕ) → memory e'.core a ≡ overwritten bytes base (memory e.core) a)
unfolding load_binary
load_binary-writes bochs memory is_ram bytes base e law some_data up hb hw ram =
    let (c', ran, wrote) =
      write_pages-writes bochs memory is_ram (length bytes) bytes base 0 e.core law hb (omega arith)
        (omega arith) hw (omega arith) ram in
    (record e { core = c' }, rw (some_data, up, ran) refl, λ a. ground (arith, wrote a))
