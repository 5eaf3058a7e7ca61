-- ===== src/Loading/Sections.antt =====
-- Where the executable sections lie, and what the loading of sections writes.
use re_wizard.Prelude.{
  ℕ, inl, inr, false, Option, some, List, [], arith, ltb, leb, ltb→lt, leb→le, Bool-cases, In, ◌+◌,
  ◌≤◌, ◌<◌, ◌≡◌, ◌&&◌, ◌∷◌, nat_key,
}
use native.Mathlib.Nat.{mod-eq_of_lt}
use re_wizard.Prelude.Word.{add_word, word_mod}
use re_wizard.Insn.{Instruction}
use re_wizard.Prelude.Set.{Set}
use re_wizard.Units.Module.{Module}
use re_wizard.Passes.Rebuilder.{Loader}
use re_wizard.Passes.Rebuilder.Explorer.{Binary, Explorer, run}
use re_wizard.Passes.Rebuilder.Explorer.Ends.{Decodes, Low, static_path_explorer-total}
use re_wizard.Loading.{
  Section, Image, pe, elf, other, has_bit, executable_sections, get_executable_sections,
}

abbrev pub sections_of : Image → List Section
sections_of (pe imagebase sections relocations) = sections
sections_of (elf sections) = sections
sections_of other = []

-- No section runs over the end of the address space.
abbrev pub NoWrap : ℕ → List Section → Type 0
NoWrap base [] = Unit
NoWrap base (s ∷ ss) = (base + s.virtual_address + s.size < word_mod) × NoWrap base ss

-- The section runs from `start` to `end` inside the mapping and is not empty.
abbrev pub Mapped : ℕ → ℕ → ℕ × ℕ → Type 0
Mapped base size (start, end) = (base ≤ start) × (start < end) × (end ≤ base + size)

add_word-exact : (a b : ℕ) → a + b < word_mod → add_word a b ≡ a + b
add_word-exact a b h = mod-eq_of_lt h

add_word-bound : (a b : ℕ) → add_word a b ≤ a + b
add_word-bound a b = omega arith

listed :
    (base size bit : ℕ) (ss : List Section) (x : ℕ × ℕ)
    → NoWrap base ss
    → In x (executable_sections base size bit ss)
    → Mapped base size x
unfolding executable_sections
listed base size bit [] x fit m = absurd m.0
listed base size bit (s ∷ ss) x (fits, fit) m =
    let start = add_word base s.virtual_address in
    let end = add_word start s.size in
    elim (Bool-cases (has_bit bit s.flags && (ltb start end && leb end (add_word base size)))) [
      | inr out ↦ listed base size bit ss x fit (rw (out, executable_sections) at m)
      | inl good ↦ elim (rw (good, executable_sections) at m) [
        | inr later ↦ listed base size bit ss x fit later
        | inl same ↦
            let exact = add_word-exact base s.virtual_address (omega (arith, fits)) in
            let ordered : start < end = ltb→lt start end (ground (arith, good)) in
            let within : end ≤ add_word base size =
              leb→le end (add_word base size) (ground (arith, good)) in
            rw same (omega (arith, exact), ordered, omega (arith, within, add_word-bound base size))
      ]
    ]

-- Every section that GetExecutableSections returns is not empty and lies inside the mapping, if no
-- section of the image runs over the end of the address space.
pub get_executable_sections-Mapped :
    (base size : ℕ) (image : Image) (x : ℕ × ℕ)
    → NoWrap base (sections_of image)
    → In x (get_executable_sections base size image)
    → Mapped base size x
unfolding get_executable_sections
get_executable_sections-Mapped base size (pe imagebase sections relocations) x fit m =
    listed base size 29 sections x fit m
get_executable_sections-Mapped base size (elf sections) x fit m =
    listed base size 2 sections x fit m
get_executable_sections-Mapped base size other x fit m = absurd m.0

below :
    (base size bit : ℕ) (ss : List Section)
    → base + size + 15 ≤ word_mod
    → Low (executable_sections base size bit ss)
unfolding executable_sections
below base size bit [] h = tt
below base size bit (s ∷ ss) h =
    let start = add_word base s.virtual_address in
    let end = add_word start s.size in
    elim (Bool-cases (has_bit bit s.flags && (ltb start end && leb end (add_word base size)))) [
      | inr out ↦ rw (out, executable_sections) (below base size bit ss h)
      | inl good ↦
          let within : end ≤ add_word base size =
            leb→le end (add_word base size) (ground (arith, good)) in
          rw (good, executable_sections)
            (omega (arith, h, within, add_word-bound base size), below base size bit ss h)
    ]

all_below :
    (base size : ℕ) (image : Image)
    → base + size + 15 ≤ word_mod
    → Low (get_executable_sections base size image)
unfolding get_executable_sections
all_below base size (pe imagebase sections relocations) h = below base size 29 sections h
all_below base size (elf sections) h = below base size 2 sections h
all_below base size other h = tt

-- The loader as the rebuilder sees it.
abbrev pub loader_of : ℕ → ℕ → Image → Loader
loader_of base size image = record {
  current_image_base = base;
  mapped_size = size;
  executable_sections = get_executable_sections base size image;
}

-- The rebuilder ends on every image that is mapped at least 15 bytes below the end of the address
-- space, with the sections that the loader finds, if a decoded instruction has from 1 to 15 bytes.
pub run-total :
    (base size : ℕ) (image : Image) (decode : ℕ → Option Instruction) (binary : Binary) (m : Module)
    (visited : Set ℕ)
    → base + size + 15 ≤ word_mod
    → Decodes decode
    → (t : Explorer) × (run (loader_of base size image) decode binary m visited ≡ some t)
unfolding run
run-total base size image decode binary m visited h lengths =
    static_path_explorer-total (loader_of base size image) decode binary 0 false m visited lengths
      (all_below base size image h)
