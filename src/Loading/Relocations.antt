-- ===== src/Loading/Relocations.antt =====
-- What relocation reads and writes.
use re_wizard.Prelude.{
  ℕ, zero, suc, refl, inl, inr, false, List, [], arith, ltb, ==_iff, Bool-cases, ◌+◌, ◌*◌, ◌/◌, ◌%◌,
  ◌^◌, ◌≤◌, ◌<◌, ◌≡◌, ◌∙◌, ◌⊎◌, ◌∷◌, ◌==◌,
}
use native.Mathlib.Nat.{mod-eq_of_lt, mod-add-div}
use re_wizard.Prelude.Word.{add_word, sub_word, word_mod}
use re_wizard.Loading.{
  Image, pe, elf, other, RelocationItem, Relocation, Memory, store, read, write, relocate,
  relocate_page, relocate_pages, apply_relocations,
}

-- 256 ^ n
abbrev values : ℕ → ℕ
values zero = 1
values (suc n) = 256 * values n

abbrev Apart : ℕ → ℕ → ℕ → Type 0
Apart a n x = (x < a) ⊎ (a + n ≤ x)

write-Apart : (n v a x : ℕ) (mem : Memory) → Apart a n x → write n v a mem x ≡ mem x
unfolding write
write-Apart zero v a x mem h = refl
write-Apart (suc n) v a x mem h =
    let rest : Apart (suc a) n x = ground (arith, h) in
    let other_byte : (x == a) ≡ false = ground (arith, h) in
    write-Apart n (v / 256) (suc a) x (store a (v % 256) mem) rest ∙ rw other_byte refl

read-write : (n v a : ℕ) (mem : Memory) → v < values n → read n (write n v a mem) a ≡ v
unfolding read write
read-write zero v a mem h = omega (arith, h)
read-write (suc n) v a mem h =
    let mem' = store a (v % 256) mem in
    let first : write n (v / 256) (suc a) mem' a ≡ v % 256 =
      write-Apart n (v / 256) (suc a) a mem' (inl (omega arith)) ∙ rw ((==_iff a a).1 refl) refl in
    let rest = read-write n (v / 256) (suc a) mem' (omega (arith, h)) in
    rw (first, rest) (mod-add-div v 256)

-- After a relocation of type HIGHLOW, or DIR64, the 32 bits, or the 64 bits, at the address are the
-- old ones plus the distance, wrapped around.
pub relocate-value :
    (delta addr : ℕ) (mem : Memory)
    → (read 4 (relocate delta 3 addr mem) addr ≡ (read 4 mem addr + delta) % 2 ^ 32)
      × (read 8 (relocate delta 10 addr mem) addr ≡ (read 8 mem addr + delta) % 2 ^ 64)
unfolding relocate
relocate-value delta addr mem = (
  read-write 4 ((read 4 mem addr + delta) % 2 ^ 32) addr mem (omega arith),
  read-write 8 ((read 8 mem addr + delta) % 2 ^ 64) addr mem (omega arith),
)

relocate-Apart :
    (delta type addr x : ℕ) (mem : Memory) → Apart addr 8 x → relocate delta type addr mem x ≡ mem x
unfolding relocate
relocate-Apart delta type addr x mem h = elim (Bool-cases (type == 3)) [
  | inl t3 ↦ rw (t3, relocate) (write-Apart 4 _ addr x mem (ground (arith, h)))
  | inr n3 ↦ elim (Bool-cases (type == 10)) [
    | inl t10 ↦ rw (n3, t10, relocate) (write-Apart 8 _ addr x mem h)
    | inr n10 ↦ elim (Bool-cases (type == 1)) [
      | inl t1 ↦ rw (n3, n10, t1, relocate) (write-Apart 2 _ addr x mem (ground (arith, h)))
      | inr n1 ↦ elim (Bool-cases (type == 2)) [
        | inl t2 ↦ rw (n3, n10, n1, t2, relocate) (write-Apart 2 _ addr x mem (ground (arith, h)))
        | inr n2 ↦ rw (n3, n10, n1, n2, relocate) refl
      ]
    ]
  ]
]

-- No relocated address runs over the end of the address space.
abbrev pub PageFits : ℕ → ℕ → List RelocationItem → Type 0
PageFits base page [] = Unit
PageFits base page (entry ∷ entries) =
    (base + page + entry.position + 4 < word_mod) × PageFits base page entries

abbrev pub Fits : ℕ → List Relocation → Type 0
Fits base [] = Unit
Fits base (r ∷ rs) = PageFits base r.virtual_address r.entries × Fits base rs

-- An address outside the mapping, and not among the four bytes behind it.
abbrev pub Outside : ℕ → ℕ → ℕ → Type 0
Outside base size x = (x < base) ⊎ (base + size + 4 ≤ x)

relocate_page-Outside :
    (base size delta page : ℕ) (entries : List RelocationItem) (mem : Memory) (x : ℕ)
    → PageFits base page entries
    → Outside base size x
    → relocate_page base size delta page entries mem x ≡ mem x
unfolding relocate_page
relocate_page-Outside base size delta page [] mem x fits out = refl
relocate_page-Outside base size delta page (entry ∷ entries) mem x (fits, rest) out =
    let addr = add_word (add_word base page) entry.position in
    let page_at : add_word base page ≡ base + page = mod-eq_of_lt (omega (arith, fits)) in
    let exact : addr ≡ base + page + entry.position =
      rw page_at (mod-eq_of_lt (omega (arith, fits))) in
    let past : add_word addr 4 ≡ addr + 4 = mod-eq_of_lt (omega (arith, fits, exact)) in
    elim (Bool-cases (ltb (add_word base size) (add_word addr 4))) [
      | inl beyond ↦
          rw (beyond, relocate_page)
            (relocate_page-Outside base size delta page entries mem x rest out)
      | inr inside ↦
          let bound : add_word addr 4 ≤ add_word base size = ground (arith, inside) in
          let apart : Apart addr 8 x = ground (arith, out, exact, past, bound) in
          rw (inside, relocate_page)
            (relocate_page-Outside base size delta page entries (relocate delta entry.type addr mem)
                x rest out
              ∙ relocate-Apart delta entry.type addr x mem apart)
    ]

relocate_pages-Outside :
    (base size delta : ℕ) (rs : List Relocation) (mem : Memory) (x : ℕ)
    → Fits base rs
    → Outside base size x
    → relocate_pages base size delta rs mem x ≡ mem x
unfolding relocate_pages
relocate_pages-Outside base size delta [] mem x fits out = refl
relocate_pages-Outside base size delta (r ∷ rs) mem x (fits, rest) out =
    relocate_pages-Outside base size delta rs
      (relocate_page base size delta r.virtual_address r.entries mem) x rest out
    ∙ relocate_page-Outside base size delta r.virtual_address r.entries mem x fits out

abbrev pub relocations_of : Image → List Relocation
relocations_of (pe imagebase sections relocations) = relocations
relocations_of (elf sections) = []
relocations_of other = []

-- Relocation changes no byte before the mapping and none behind the four bytes that follow it, if no
-- relocated address runs over the end of the address space.
pub apply_relocations-Outside :
    (base size : ℕ) (image : Image) (mem : Memory) (x : ℕ)
    → Fits base (relocations_of image)
    → Outside base size x
    → apply_relocations base size image mem x ≡ mem x
unfolding apply_relocations
apply_relocations-Outside base size (pe imagebase sections relocations) mem x fits out =
    elim (Bool-cases (base == imagebase)) [
      | inl same ↦ rw (same, apply_relocations) refl
      | inr moved ↦
          rw (moved, apply_relocations)
            (relocate_pages-Outside base size (sub_word base imagebase) relocations mem x fits out)
    ]
apply_relocations-Outside base size (elf sections) mem x fits out = refl
apply_relocations-Outside base size other mem x fits out = refl
