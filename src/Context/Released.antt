-- ===== src/Context/Released.antt =====
-- What the construction of a context leaves mapped:
-- ReWizardLib/source/Analysis/AnalysisContext.cpp.
use mathlib.Core.Path.{subst}
use re_wizard.Prelude.{
  ℕ, String, inl, inr, Bool, true, false, Option, none, some, List, arith, Option-cases, ◌≡◌,
  string_key,
}
use re_wizard.Loading.Load.{Target, FileLoader, System, create, construct, load, destroy}
use re_wizard.Loading.Load.Status.{IsBalanced, load-IsBalanced}
use re_wizard.Context.{AnalysisContext, get_arch, create_with, create_context, release}

-- Every mapping is released once the context, where there is one, comes to its end.
abbrev ReleasedAfter : Option (System × Option AnalysisContext) → Type 0
ReleasedAfter none = Unit
ReleasedAfter (some (s, c)) = IsBalanced (release c s)

create_with_at :
    (map_memory : ℕ → ℕ → Option ℕ) (target : String) (l l' : FileLoader) (s s' : System)
    (loaded : Bool)
    → load map_memory l s ≡ some ((l', s'), loaded)
    → IsBalanced (destroy l' s')
    → ReleasedAfter (create_with map_memory target l s)
unfolding create_with release
create_with_at map_memory target l l' s s' false ran b = rw (ran, create_with) b
create_with_at map_memory target l l' s s' true ran b = elim (Option-cases (get_arch l')) [
  | inl unknown ↦ rw (ran, unknown, create_with) b
  | inr (arch, known) ↦ rw (ran, known, create_with) b
]

create_with-Released :
    (map_memory : ℕ → ℕ → Option ℕ) (target : String) (l : FileLoader) (s : System)
    → l.mapped ≡ none
    → IsBalanced s
    → ReleasedAfter (create_with map_memory target l s)
unfolding create_with release
create_with-Released map_memory target l s h e = elim (Option-cases (load map_memory l s)) [
  | inl fault ↦ rw (fault, create_with) tt
  | inr (((l', s'), loaded), ran) ↦
      create_with_at map_memory target l l' s s' loaded ran
        (load-IsBalanced map_memory l l' s s' loaded h e ran)
]

create-mapped :
    (file : Option (List ℕ)) (parse : List ℕ → Option Target) (l : FileLoader)
    → create file parse ≡ some l
    → l.mapped ≡ none
unfolding create construct
create-mapped file parse l h = ground arith

create_context-after :
    (read_file : String → Option (List ℕ)) (parse : List ℕ → Option Target)
    (map_memory : ℕ → ℕ → Option ℕ) (target : String) (s : System)
    → IsBalanced s
    → ReleasedAfter (create_context read_file parse map_memory target s)
unfolding create_context release
create_context-after read_file parse map_memory target s e =
    elim (Option-cases (create (read_file target) parse)) [
      | inl refused ↦ rw (refused, create_context) e
      | inr (l, made) ↦
          rw (made, create_context)
            (create_with-Released map_memory target l s
              (create-mapped (read_file target) parse l made) e)
    ]

-- Where Create returns (the headers that the file declares are in bounds), whatever the file, the
-- parser and the mapper answer, and nothing was left mapped before: it releases what it has mapped
-- when it gives no context, and what it keeps mapped the end of the context releases.
pub create_context-Released :
    (read_file : String → Option (List ℕ)) (parse : List ℕ → Option Target)
    (map_memory : ℕ → ℕ → Option ℕ) (target : String) (s s' : System) (c : Option AnalysisContext)
    → IsBalanced s
    → create_context read_file parse map_memory target s ≡ some (s', c)
    → IsBalanced (release c s')
create_context-Released read_file parse map_memory target s s' c e ran =
    subst ReleasedAfter ran (create_context-after read_file parse map_memory target s e)
