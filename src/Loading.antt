-- ===== src/Loading.antt =====
-- LoadSections, ApplyRelocations and GetExecutableSections of
-- ReWizardLib/source/FileLoader/FileLoader.cpp. The image is what LIEF has parsed; a memory is a byte
-- for each address, and a word of it is little-endian, as on x86.
pub mod Sections
pub mod Contents
pub mod Relocations
pub mod Load
use re_wizard.Prelude.{
  ℕ, zero, suc, Bool, true, false, List, [], ltb, leb, length, is_empty, ◌+◌, ◌*◌, ◌/◌, ◌%◌, ◌^◌,
  ◌&&◌, ◌∷◌, ◌==◌, if◌then◌else◌,
}
use re_wizard.Prelude.Word.{add_word, sub_word}

-- A section, with the content that LIEF finds for it.
pub record Section : Type 0 where
  pub virtual_address : ℕ
  pub size : ℕ
  pub flags : ℕ
  pub content : List ℕ

pub record RelocationItem : Type 0 where
  pub position : ℕ
  pub type : ℕ

pub record Relocation : Type 0 where
  pub virtual_address : ℕ
  pub entries : List RelocationItem

-- LIEF::Binary by its format; a Mach-O image has neither relocations nor executable sections here.
pub data Image : Type 0 where
  pe : (imagebase : ℕ) → List Section → List Relocation → Image
  elf : List Section → Image
  other : Image

abbrev pub Memory : Type 0
Memory = ℕ → ℕ

abbrev pub store : ℕ → ℕ → Memory → Memory
store a byte mem x = if x == a then byte else mem x

-- The `n` bytes at an address, as a number.
unfoldable pub read : ℕ → Memory → ℕ → ℕ
read zero mem a = 0
read (suc n) mem a = mem a + 256 * read n mem (suc a)

unfoldable pub write : ℕ → ℕ → ℕ → Memory → Memory
write zero v a mem = mem
write (suc n) v a mem = write n (v / 256) (suc a) (store a (v % 256) mem)

-- memcpy
unfoldable pub copy : List ℕ → ℕ → Memory → Memory
copy [] a mem = mem
copy (byte ∷ bytes) a mem = copy bytes (suc a) (store a byte mem)

-- The memory afterwards and whether all sections were in bounds, for a mapping of `size` bytes at
-- `base`. Where the sum of address and length wraps, the test passes and the copy lies out of bounds:
-- the model writes it there, behind the mapping.
unfoldable pub load_sections : (base size : ℕ) → List Section → Memory → Memory × Bool
unfolding copy
load_sections base size [] mem = (mem, true)
load_sections base size (section ∷ sections) mem =
    if is_empty section.content
    then load_sections base size sections mem
    else if ltb size (add_word section.virtual_address (length section.content))
    then (mem, false)
    else load_sections base size sections
        (copy section.content (base + section.virtual_address) mem)

-- The switch over the type, for a relocation by `delta` at `addr`.
unfoldable pub relocate : ℕ → ℕ → ℕ → Memory → Memory
unfolding read write
relocate delta type addr mem =
    if type == 3
    then write 4 ((read 4 mem addr + delta) % 2 ^ 32) addr mem
    else if type == 10
    then write 8 ((read 8 mem addr + delta) % 2 ^ 64) addr mem
    else if type == 1
    then write 2 ((read 2 mem addr * 2 ^ 16 + delta % 2 ^ 32) % 2 ^ 32 / 2 ^ 16) addr mem
    else if type == 2
    then write 2 ((read 2 mem addr + delta % 2 ^ 16) % 2 ^ 16) addr mem
    else mem

-- The loop over the entries of a page.
unfoldable pub relocate_page : (base size delta page : ℕ) → List RelocationItem → Memory → Memory
unfolding relocate
relocate_page base size delta page [] mem = mem
relocate_page base size delta page (entry ∷ entries) mem =
    let addr = add_word (add_word base page) entry.position in
    relocate_page base size delta page entries (
      if ltb (add_word base size) (add_word addr 4)
      then mem
      else relocate delta entry.type addr mem)

unfoldable pub relocate_pages : (base size delta : ℕ) → List Relocation → Memory → Memory
unfolding relocate_page
relocate_pages base size delta [] mem = mem
relocate_pages base size delta (r ∷ rs) mem =
    relocate_pages base size delta rs
      (relocate_page base size delta r.virtual_address r.entries mem)

unfoldable pub apply_relocations : (base size : ℕ) → Image → Memory → Memory
unfolding relocate_pages
apply_relocations base size (pe imagebase sections relocations) mem =
    if base == imagebase
    then mem
    else relocate_pages base size (sub_word base imagebase) relocations mem
apply_relocations base size (elf sections) mem = mem
apply_relocations base size other mem = mem

-- A bit of the flags: IMAGE_SCN_MEM_EXECUTE is bit 29, SHF_EXECINSTR bit 2.
abbrev pub has_bit : ℕ → ℕ → Bool
has_bit bit flags = flags / 2 ^ bit % 2 == 1

unfoldable pub executable_sections : (base size bit : ℕ) → List Section → List (ℕ × ℕ)
executable_sections base size bit [] = []
executable_sections base size bit (section ∷ sections) =
    let start = add_word base section.virtual_address in
    let end = add_word start section.size in
    let rest = executable_sections base size bit sections in
    if has_bit bit section.flags && (ltb start end && leb end (add_word base size))
    then (start, end) ∷ rest
    else rest

unfoldable pub get_executable_sections : (base size : ℕ) → Image → List (ℕ × ℕ)
unfolding executable_sections
get_executable_sections base size (pe imagebase sections relocations) =
    executable_sections base size 29 sections
get_executable_sections base size (elf sections) = executable_sections base size 2 sections
get_executable_sections base size other = []
