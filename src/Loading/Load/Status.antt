-- ===== src/Loading/Load/Status.antt =====
-- What Load leaves behind, on each of its paths: ReWizardLib/source/FileLoader/FileLoader.cpp.
use mathlib.Core.Path.{subst}
use re_wizard.Prelude.{
  ℕ, refl, ap, inl, inr, Bool, Option, none, some, [], ltb, Bool-cases, Option-cases, is_empty, ◌^◌,
  ◌≡◌, ◌||◌, ◌∷◌, ◌++◌, ◌==◌,
}
use re_wizard.Loading.{load_sections, copy}
use re_wizard.Loading.Load.{
  zeroed, invalid_size, allocation_error, Target, FileLoader, System, get_size, get_header_size,
  prefix, load_contents, load_mapped, load_target, load, destroy,
}

-- Every mapping was released once, in order.
abbrev pub IsBalanced : System → Type 0
IsBalanced s = s.mappings ≡ s.released

-- What the loader holds of the mappings: none that is not to be released by its destructor.
abbrev Owes : FileLoader → System → Type 0
Owes l s = IsBalanced (destroy l s)

-- The same for a result of Load.
abbrev OwesAfter : Option ((FileLoader × System) × Bool) → Type 0
OwesAfter none = Unit
OwesAfter (some ((l, s), ok)) = Owes l s

load_contents-Owes :
    (base : ℕ) (t : Target) (l : FileLoader) (s : System)
    → l.mapped ≡ some base
    → s.mappings ≡ s.released ++ (base, l.mapped_size) ∷ []
    → OwesAfter (some (load_contents base t l s))
unfolding load_contents destroy
load_contents-Owes base t l s h e =
    elim (Bool-cases (load_sections base l.mapped_size t.sections s.memory).1) [
      | inl fits ↦ rw (fits, h) e
      | inr out ↦ rw out e
    ]

destroy_mapped :
    (base : ℕ) (l : FileLoader) (s : System)
    → l.mapped ≡ some base
    → s.mappings ≡ s.released ++ (base, l.mapped_size) ∷ []
    → Owes l s
unfolding destroy
destroy_mapped base l s h e = rw h e

destroy_empty : (l : FileLoader) (s : System) → l.mapped ≡ none → IsBalanced s → Owes l s
unfolding destroy
destroy_empty l s h e = rw h e

load_mapped-Owes :
    (base : ℕ) (t : Target) (header_size : ℕ) (l : FileLoader) (s : System)
    → l.mapped ≡ some base
    → s.mappings ≡ s.released ++ (base, l.mapped_size) ∷ []
    → OwesAfter (load_mapped base t header_size l s)
unfolding load_mapped
load_mapped-Owes base t header_size l s h e = elim (Bool-cases (is_empty l.raw)) [
  | inl bare ↦
      rw (bare, load_mapped)
        (destroy_mapped base (record l { status = invalid_size })
          (record s { memory = zeroed base l.mapped_size s.memory }) h e)
  | inr full ↦ elim (Option-cases (prefix header_size l.raw)) [
    | inl short ↦ rw (full, short, load_mapped) tt
    | inr (headers, copied) ↦ elim (Bool-cases (ltb l.mapped_size header_size)) [
      | inl over ↦ rw (full, copied, over, load_mapped) tt
      | inr within ↦
          rw (full, copied, within, load_mapped)
            (load_contents-Owes base t l
              (record s { memory = copy headers base (zeroed base l.mapped_size s.memory) }) h e)
    ]
  ]
]

load_target-Owes :
    (map_memory : ℕ → ℕ → Option ℕ) (t : Target) (header_size : ℕ) (l : FileLoader) (s : System)
    → l.mapped ≡ none
    → IsBalanced s
    → OwesAfter (load_target map_memory t header_size l s)
unfolding load_target
load_target-Owes map_memory t header_size l s h e =
    elim (Bool-cases (l.mapped_size == 0 || ltb (2 ^ 32) l.mapped_size)) [
      | inl bad ↦ rw (bad, load_target) (destroy_empty (record l { status = invalid_size }) s h e)
      | inr good ↦ elim (Option-cases (map_memory l.mapped_size t.imagebase)) [
        | inl refused ↦
            rw (good, refused, load_target)
              (destroy_empty (record l { mapped = none; status = allocation_error }) s refl e)
        | inr (base, answered) ↦
            rw (good, answered, load_target)
              (load_mapped-Owes base t header_size (record l { mapped = some base })
                (record s { mappings = s.mappings ++ (base, l.mapped_size) ∷ [] }) refl
                (ap (λ x. x ++ (base, l.mapped_size) ∷ []) e))
      ]
    ]

load-Owes :
    (map_memory : ℕ → ℕ → Option ℕ) (l : FileLoader) (s : System)
    → l.mapped ≡ none
    → IsBalanced s
    → OwesAfter (load map_memory l s)
unfolding load
load-Owes map_memory l s h e =
    let failed = destroy_empty (record l { status = invalid_size }) s h e in
    elim (Option-cases l.target) [
      | inl absent ↦ rw (absent, load) failed
      | inr (t, parsed) ↦ elim (Option-cases (get_size (some t))) [
        | inl unknown ↦ rw (parsed, unknown, load) failed
        | inr (size, sized) ↦ elim (Option-cases (get_header_size (some t))) [
          | inl unknown ↦ rw (parsed, sized, unknown, load) failed
          | inr (header_size, header) ↦
              rw (parsed, sized, header, load)
                (load_target-Owes map_memory t header_size (record l { mapped_size = size }) s h e)
        ]
      ]
    ]

-- However Load ends, once the loader is destroyed every mapping was released, once each, if it was so
-- before and the loader held none.
pub load-IsBalanced :
    (map_memory : ℕ → ℕ → Option ℕ) (l l' : FileLoader) (s s' : System) (ok : Bool)
    → l.mapped ≡ none
    → IsBalanced s
    → load map_memory l s ≡ some ((l', s'), ok)
    → IsBalanced (destroy l' s')
load-IsBalanced map_memory l l' s s' ok h e ran = subst OwesAfter ran (load-Owes map_memory l s h e)
