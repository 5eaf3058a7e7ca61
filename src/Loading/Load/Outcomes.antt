-- ===== src/Loading/Load/Outcomes.antt =====
-- The answers of Load with the status and the mapping that it leaves:
-- ReWizardLib/source/FileLoader/FileLoader.cpp.
use re_wizard.Prelude.{
  ℕ, zero, suc, refl, inl, inr, Bool, true, false, Option, none, some, List, [], arith, ltb,
  Bool-cases, Option-cases, length, is_empty, ◌^◌, ◌≤◌, ◌<◌, ◌≡◌, ◌⊎◌, ◌||◌, ◌∷◌, ◌++◌, ◌==◌,
}
use re_wizard.Loading.{load_sections, copy}
use re_wizard.Loading.Load.{
  FileLoaderStatus, invalid_size, allocation_error, section_loader_error, Target, FileLoader,
  System, arch_of, zeroed, get_size, get_header_size, prefix, load_contents, load_mapped,
  load_target, load,
}

-- The statuses that Load sets when it fails.
abbrev pub IsLoadError : FileLoaderStatus → Type 0
IsLoadError status =
    (status ≡ invalid_size) ⊎ (status ≡ allocation_error) ⊎ (status ≡ section_loader_error)

-- What Load leaves of the loader `l`, on success and on failure.
abbrev pub Outcome : Target → FileLoader → FileLoader → Bool → Type 0
Outcome t l l' true =
    (base : ℕ) × (l'.mapped ≡ some base)
    × (l'.status ≡ l.status)
    × (l'.arch ≡ arch_of t.modes)
    × (0 < l'.mapped_size)
    × (l'.mapped_size ≤ 2 ^ 32)
Outcome t l l' false = (l'.mapped ≡ none) × IsLoadError l'.status

abbrev Ends : Target → FileLoader → Option ((FileLoader × System) × Bool) → Type 0
Ends t l r =
    (l' : FileLoader) × (s' : System) × (ok : Bool) × (r ≡ some ((l', s'), ok)) × Outcome t l l' ok

prefix-total :
    (n : ℕ) (bytes : List ℕ) → n ≤ length bytes → (r : List ℕ) × (prefix n bytes ≡ some r)
unfolding prefix
prefix-total zero bytes h = ([], refl)
prefix-total (suc n) [] h = absurd (omega arith)
prefix-total (suc n) (x ∷ bytes) h =
    let (r, e) = prefix-total n bytes (omega arith) in (x ∷ r, rw e refl)

load_contents-Ends :
    (base : ℕ) (t : Target) (l : FileLoader) (s : System)
    → l.mapped ≡ some base
    → 0 < l.mapped_size
    → l.mapped_size ≤ 2 ^ 32
    → Ends t l (some (load_contents base t l s))
unfolding load_contents
load_contents-Ends base t l s h lo hi =
    elim (Bool-cases (load_sections base l.mapped_size t.sections s.memory).1) [
      | inl fits ↦ rw fits (_, _, true, refl, (base, h, refl, refl, lo, hi))
      | inr out ↦ rw out (_, _, false, refl, (refl, inr (inr refl)))
    ]

load_mapped-Ends :
    (base : ℕ) (t : Target) (header_size : ℕ) (l : FileLoader) (s : System)
    → l.mapped ≡ some base
    → 0 < l.mapped_size
    → l.mapped_size ≤ 2 ^ 32
    → is_empty l.raw ≡ false
    → header_size ≤ length l.raw
    → header_size ≤ l.mapped_size
    → Ends t l (load_mapped base t header_size l s)
unfolding load_mapped
load_mapped-Ends base t header_size l s h lo hi full hr hm =
    let (headers, copied) = prefix-total header_size l.raw hr in
    let within : ltb l.mapped_size header_size ≡ false = ground arith in
    rw (full, copied, within, load_mapped)
      (load_contents-Ends base t l
        (record s { memory = copy headers base (zeroed base l.mapped_size s.memory) }) h lo hi)

load_target-Ends :
    (map_memory : ℕ → ℕ → Option ℕ) (t : Target) (header_size : ℕ) (l : FileLoader) (s : System)
    → l.mapped ≡ none
    → is_empty l.raw ≡ false
    → header_size ≤ length l.raw
    → header_size ≤ l.mapped_size
    → Ends t l (load_target map_memory t header_size l s)
unfolding load_target
load_target-Ends map_memory t header_size l s h full hr hm =
    elim (Bool-cases (l.mapped_size == 0 || ltb (2 ^ 32) l.mapped_size)) [
      | inl bad ↦ rw (bad, load_target) (_, _, false, refl, (h, inl refl))
      | inr good ↦ elim (Option-cases (map_memory l.mapped_size t.imagebase)) [
        | inl refused ↦ rw (good, refused, load_target) (_, _, false, refl, (refl, inr (inl refl)))
        | inr (base, answered) ↦
            rw (good, answered, load_target)
              (load_mapped-Ends base t header_size (record l { mapped = some base })
                (record s { mappings = s.mappings ++ (base, l.mapped_size) ∷ [] }) refl
                (ground (arith, good)) (ground (arith, good)) full hr hm)
      ]
    ]

-- Load of a loader that its constructor made of a file, on a binary of a known format whose headers
-- lie in the file and in the image, always returns. It is true with the image mapped, of at most
-- 2 ^ 32 bytes and not empty, the status as before and the mode of the binary; or it is false with
-- nothing mapped and one of three statuses.
pub load-total :
    (map_memory : ℕ → ℕ → Option ℕ) (l : FileLoader) (t : Target) (size header_size : ℕ)
    (s : System)
    → l.target ≡ some t
    → get_size (some t) ≡ some size
    → get_header_size (some t) ≡ some header_size
    → l.mapped ≡ none
    → is_empty l.raw ≡ false
    → header_size ≤ length l.raw
    → header_size ≤ size
    → (l' : FileLoader) × (s' : System) × (ok : Bool) × (load map_memory l s ≡ some ((l', s'), ok))
      × Outcome t l l' ok
unfolding load
load-total map_memory l t size header_size s parsed sized header h full hr hm =
    rw (parsed, sized, header, load)
      (load_target-Ends map_memory t header_size (record l { mapped_size = size }) s h full hr hm)
