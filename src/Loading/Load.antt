-- ===== src/Loading/Load.antt =====
-- The construction of a loader, Load, GetHeaderSize and the destructor of
-- ReWizardLib/source/FileLoader/FileLoader.cpp. The reading of the file, the parser and the memory
-- mapper are parameters.
pub mod Status
pub mod Outcomes
use re_wizard.Prelude.{
  ℕ, zero, suc, Bool, true, false, Option, none, some, List, [], ltb, leb, is_empty, ◌+◌, ◌^◌, ◌&&◌,
  ◌||◌, ◌∷◌, ◌++◌, ◌==◌, if◌then◌else◌,
}
use re_wizard.Loading.{
  Image, Section, pe, elf, other, Memory, copy, load_sections, apply_relocations,
}

pub data FileLoaderStatus : Type 0 where
  success empty_file invalid_size file_open_error lief_parser_error allocation_error
        section_loader_error out_of_bounds_error :
      FileLoaderStatus

-- What LIEF reads of a file, and the kind of its binary: sections are LIEF's abstract ones.
pub data Format : Type 0 where
  elf_format : (header_size : ℕ) → Format
  macho_format : (magic sizeof_cmds : ℕ) → Format
  pe_format : (sizeof_headers : ℕ) → Format
  unknown_format : Format

-- LIEF::Header::modes(), and the pair of processor mode and stack width that ArchMap has for it.
pub data Modes : Type 0 where
  bits_64 bits_32 bits_16 : Modes
  other_modes : ℕ → Modes

pub data Arch : Type 0 where
  long_64 legacy_32 real_16 invalid_arch : Arch

pub record Target : Type 0 where
  pub format : Format
  pub virtual_size : ℕ
  pub imagebase : ℕ
  pub modes : Modes
  pub sections : List Section
  pub image : Image

pub record FileLoader : Type 0 where
  pub raw : List ℕ
  pub target : Option Target
  pub mapped_size : ℕ
  -- m_mappedPtr, `none` for null
  pub mapped : Option ℕ
  pub status : FileLoaderStatus
  pub arch : Arch

-- The memory, the mappings (base and size) that Map has made, and those that Unmap was called for.
pub record System : Type 0 where
  pub memory : Memory
  pub mappings : List (ℕ × ℕ)
  pub released : List (ℕ × ℕ)

-- GetSize
unfoldable pub get_size : Option Target → Option ℕ
get_size none = none
get_size (some t) = elim t.format [ unknown_format ↦ none | _ ↦ some t.virtual_size ]

abbrev header_size_of : Format → Option ℕ
header_size_of (elf_format header_size) = some header_size
header_size_of (macho_format magic sizeof_cmds) =
    some ((if magic == 0xFEEDFACF || magic == 0xCFFAEDFE then 32 else 28) + sizeof_cmds)
header_size_of (pe_format sizeof_headers) = some sizeof_headers
header_size_of unknown_format = none

-- GetHeaderSize
unfoldable pub get_header_size : Option Target → Option ℕ
get_header_size none = none
get_header_size (some t) = header_size_of t.format

-- The loader right after its members were initialised.
abbrev pub blank : FileLoader
blank = record {
  raw = [];
  target = none;
  mapped_size = 0;
  mapped = none;
  status = success;
  arch = invalid_arch;
}

-- The constructor, for the bytes of the file, where it opens, and the parser.
unfoldable pub construct : Option (List ℕ) → (List ℕ → Option Target) → FileLoader
construct none parse = record blank { status = file_open_error }
construct (some bytes) parse =
    if is_empty bytes then record blank { status = empty_file } else elim (parse bytes) [
      | none ↦ record blank { raw = bytes; status = lief_parser_error }
      | some t ↦ record blank { raw = bytes; target = some t }
    ]

abbrev pub is_success : FileLoaderStatus → Bool
is_success success = true
is_success s = false

unfoldable pub create : Option (List ℕ) → (List ℕ → Option Target) → Option FileLoader
unfolding construct
create file parse = let l = construct file parse in if is_success l.status then some l else none

-- ArchMap, with the value for a mode that it lacks.
unfoldable pub arch_of : Modes → Arch
arch_of bits_64 = long_64
arch_of bits_32 = legacy_32
arch_of bits_16 = real_16
arch_of (other_modes n) = invalid_arch

-- The bytes that memcpy reads; `none` where it reads behind the file's contents.
unfoldable pub prefix : ℕ → List ℕ → Option (List ℕ)
prefix zero bytes = some []
prefix (suc n) [] = none
prefix (suc n) (x ∷ bytes) = elim (prefix n bytes) [ none ↦ none | some xs ↦ some (x ∷ xs) ]

abbrev pub with_status : FileLoaderStatus → FileLoader → FileLoader
with_status status l = record l { status = status }

-- Zero(ptr, size)
abbrev pub zeroed : (base size : ℕ) → Memory → Memory
zeroed base size mem a = if leb base a && ltb a (base + size) then 0 else mem a

-- The part of Load behind the copy of the headers.
unfoldable pub load_contents : ℕ → Target → FileLoader → System → (FileLoader × System) × Bool
unfolding load_sections apply_relocations arch_of
load_contents base t l s =
    let (mem, loaded) = load_sections base l.mapped_size t.sections s.memory in
    if loaded
    then (
      (
        record l { arch = arch_of t.modes },
        record s { memory = apply_relocations base l.mapped_size t.image mem },
      ),
      true,
    )
    else (
      (
        record l { mapped = none; status = section_loader_error },
        record s { memory = mem; released = s.released ++ (base, l.mapped_size) ∷ [] },
      ),
      false,
    )

-- The part of Load behind Map, for the base that it answered. `none` is a copy of headers that reads
-- behind the contents of the file or writes behind the mapping.
unfoldable pub load_mapped :
    ℕ → Target → ℕ → FileLoader → System → Option ((FileLoader × System) × Bool)
load_mapped base t header_size l s =
    let s' = record s { memory = zeroed base l.mapped_size s.memory } in
    if is_empty l.raw
    then some ((with_status invalid_size l, s'), false)
    else elim (prefix header_size l.raw) [
      | none ↦ none
      | some headers ↦
          if ltb l.mapped_size header_size
          then none
          else some (load_contents base t l (record s' { memory = copy headers base s'.memory }))
    ]

-- The part behind GetSize and GetHeaderSize, for a mapper that answers with a base or with null.
unfoldable pub load_target :
    (ℕ → ℕ → Option ℕ) → Target → ℕ → FileLoader → System → Option ((FileLoader × System) × Bool)
load_target map_memory t header_size l s =
    if l.mapped_size == 0 || ltb (2 ^ 32) l.mapped_size
    then some ((with_status invalid_size l, s), false)
    else elim (map_memory l.mapped_size t.imagebase) [
      | none ↦ some ((record l { mapped = none; status = allocation_error }, s), false)
      | some base ↦
          load_mapped base t header_size (record l { mapped = some base })
            (record s { mappings = s.mappings ++ (base, l.mapped_size) ∷ [] })
    ]

unfoldable pub load :
    (ℕ → ℕ → Option ℕ) → FileLoader → System → Option ((FileLoader × System) × Bool)
unfolding get_size get_header_size
load map_memory l s = elim l.target [
  | none ↦ some ((with_status invalid_size l, s), false)
  | some t ↦ elim (get_size (some t)) [
    | none ↦ some ((with_status invalid_size l, s), false)
    | some size ↦ elim (get_header_size (some t)) [
      | none ↦ some ((with_status invalid_size l, s), false)
      | some header_size ↦ load_target map_memory t header_size (record l { mapped_size = size }) s
    ]
  ]
]

-- ~FileLoader
unfoldable pub destroy : FileLoader → System → System
destroy l s = elim l.mapped [
  | none ↦ s
  | some base ↦ record s { released = s.released ++ (base, l.mapped_size) ∷ [] }
]
