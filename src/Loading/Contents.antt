-- ===== src/Loading/Contents.antt =====
-- What the loading of sections writes.
use re_wizard.Prelude.{
  ℕ, suc, refl, inl, inr, false, List, [], arith, ltb, Bool-cases, length, is_empty, ◌+◌, ◌≤◌, ◌<◌,
  ◌≡◌, ◌∙◌, ◌⊎◌, ◌∷◌, ◌==◌, string_key,
}
use native.Mathlib.Nat.{mod-eq_of_lt}
use re_wizard.Prelude.Word.{add_word, word_mod}
use re_wizard.Loading.{Section, Memory, store, copy, load_sections}

-- No content runs over the end of the address space.
abbrev pub ContentsFit : List Section → Type 0
ContentsFit [] = Unit
ContentsFit (s ∷ ss) = (s.virtual_address + length s.content < word_mod) × ContentsFit ss

copy-apart :
    (bytes : List ℕ) (a x : ℕ) (mem : Memory)
    → (x < a) ⊎ (a + length bytes ≤ x)
    → copy bytes a mem x ≡ mem x
unfolding copy
copy-apart [] a x mem h = refl
copy-apart (byte ∷ bytes) a x mem h =
    let rest : (x < suc a) ⊎ (suc a + length bytes ≤ x) = ground (arith, h) in
    let other_byte : (x == a) ≡ false = ground (arith, h) in
    copy-apart bytes (suc a) x (store a byte mem) rest ∙ rw other_byte refl

-- Whether or not the sections are all in bounds, loading them changes no byte outside the mapping,
-- if no content runs over the end of the address space.
pub load_sections-outside :
    (base size x : ℕ) (ss : List Section) (mem : Memory)
    → ContentsFit ss
    → (x < base) ⊎ (base + size ≤ x)
    → (load_sections base size ss mem).0 x ≡ mem x
unfolding load_sections
load_sections-outside base size x [] mem fits out = refl
load_sections-outside base size x (s ∷ ss) mem (fit, fits) out =
    elim (Bool-cases (is_empty s.content)) [
      | inl empty ↦ rw (empty, load_sections) (load_sections-outside base size x ss mem fits out)
      | inr some_bytes ↦
          let sum : add_word s.virtual_address (length s.content)
              ≡ s.virtual_address + length s.content =
            mod-eq_of_lt fit in
          elim (Bool-cases (ltb size (add_word s.virtual_address (length s.content)))) [
            | inl beyond ↦ rw (some_bytes, beyond, load_sections) refl
            | inr inside ↦
                let bound : add_word s.virtual_address (length s.content) ≤ size =
                  ground (arith, inside) in
                let apart : (x < base + s.virtual_address)
                    ⊎ (base + s.virtual_address + length s.content ≤ x) =
                  ground (arith, out, sum, bound) in
                rw (some_bytes, inside, load_sections)
                  (load_sections-outside base size x ss
                      (copy s.content (base + s.virtual_address) mem) fits out
                    ∙ copy-apart s.content (base + s.virtual_address) x mem apart)
          ]
    ]
