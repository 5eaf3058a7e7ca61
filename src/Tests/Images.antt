-- ===== src/Tests/Images.antt =====
-- The theorems on the loading of an image, at a small one.
use re_wizard.Prelude.{refl, inl, inr, [], arith, ◌^◌, ◌≡◌, ◌∷◌, string_key}
use re_wizard.Loading.{
  Section, Image, pe, Memory, read, relocate, apply_relocations, get_executable_sections,
}
use re_wizard.Loading.Sections.{Mapped, get_executable_sections-Mapped}
use re_wizard.Loading.Relocations.{apply_relocations-Outside}

abbrev pub text_section : Section
text_section = record { virtual_address = 2; size = 4; flags = 2 ^ 29; content = 144 ∷ 195 ∷ [] }

abbrev pub image : Image
image =
    pe 4096 (text_section ∷ [])
      (record { virtual_address = 0; entries = record { position = 4; type = 10 } ∷ [] } ∷ [])

abbrev pub zeros : Memory
zeros a = 0

get_executable_sections-Mapped_example : Mapped 16 8 (18, 22)
unfolding get_executable_sections
get_executable_sections-Mapped_example =
    get_executable_sections-Mapped 16 8 image (18, 22) (omega arith, tt) (inl refl)

apply_relocations-Outside_example : apply_relocations 16 8 image zeros 28 ≡ 0
apply_relocations-Outside_example =
    apply_relocations-Outside 16 8 image zeros 28 ((omega arith, tt), tt) (inr (omega arith))

-- A relocation at the last four bytes of the mapping reaches the bytes behind it.
behind_mapping : apply_relocations 16 8 image zeros 24 ≡ 255
unfolding apply_relocations relocate read
behind_mapping = refl
