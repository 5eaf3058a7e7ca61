-- ===== src/Passes/Rebuilder/Explorer/Starts.antt =====
-- Where the explorer starts functions.
use re_wizard.Prelude.{
  ℕ, zero, suc, refl, sym, ap, inl, inr, Bool, true, false, not, Option, some, List, [], arith,
  Bool-cases, In, In-append, bind-eq-some, map-eq-some, ◌≡◌, ◌∙◌, ◌⊎◌, ◌&&◌, ◌||◌, ◌∷◌, ◌++◌, ◌==◌,
  nat_key, string_key,
}
use mathlib.Core.Option.{some-injective}
use mathlib.Core.Path.{subst}
use re_wizard.Prelude.Set
use re_wizard.Prelude.Set.{Set}
use re_wizard.Insn.{Instruction}
use re_wizard.Units.BasicBlock.{plain}
use re_wizard.Units.Function.{Function, create, set_start, mark_for_hybrid_analysis}
use re_wizard.Units.Module.{add_function}
use re_wizard.Passes.Rebuilder.{Loader, is_executable_address}
use re_wizard.Passes.Rebuilder.Descend.{analyze_function}
use re_wizard.Passes.Rebuilder.Descend.Visits.{analyze_function-Advances}
use re_wizard.Passes.Rebuilder.Explorer.{
  Explorer, is_in_function, start_function, drain, mark_function,
}

module _ (loader : Loader) (decode : ℕ → Option Instruction) (mark : ℕ → Function → Function) where
  start_function-functions :
      (pc : ℕ) (e t : Explorer)
      → ((n : ℕ) (f : Function) → (mark n f).start ≡ f.start)
      → start_function loader decode mark pc e ≡ some t
      → (f : Function) × (t.in_module.functions ≡ e.in_module.functions ++ f ∷ []) × (f.start ≡ pc)
  unfolding start_function add_function
  start_function-functions pc e t marks ran =
      let fn : Function = record (set_start pc (create (plain ""))) { end = pc } in
      let (s, analysed, e') =
        map-eq-some _ (analyze_function loader decode pc e.in_module e.visited fn e.function_work)
          ran in
      let (h, start) =
        analyze_function-Advances loader decode pc e.in_module e.visited fn e.function_work s
          analysed in
      let f = mark s.insn_count s.function in
      (
        f,
        sym (ap (λ (x : Explorer). x.in_module.functions) e') ∙ ap (λ fs. fs ++ f ∷ []) h.functions,
        marks s.insn_count s.function ∙ start,
      )

  test-passed : (a b c : Bool) → (a || b || not c) ≡ false → c ≡ true
  test-passed a b c h = ground arith

  drained :
      (fuel : ℕ) (allowed : ℕ → Bool) (work : List ℕ) (e t : Explorer) (f : Function)
      → ((n : ℕ) (g : Function) → (mark n g).start ≡ g.start)
      → drain fuel loader decode allowed mark (record e { function_work = work }) ≡ some t
      → In f t.in_module.functions
      → In f e.in_module.functions ⊎ (allowed f.start ≡ true)
  unfolding drain
  drained zero allowed work e t f marks ran m = absurd (cc)
  drained (suc fuel) allowed [] e t f marks ran m = inl (
      subst (λ (x : Explorer). In f x.in_module.functions)
        (sym (some-injective (record e { function_work = [] }) t ran)) m)
  drained (suc fuel) allowed (pc ∷ rest) e t f marks ran m =
      let e' : Explorer = record e { function_work = rest } in
      let in_function = is_in_function e.in_module pc in
      elim (Bool-cases (Set.contains pc e.visited || in_function || not (allowed pc))) [
        | inl skip ↦ drained fuel allowed rest e' t f marks (rw (skip, drain) at ran) m
        | inr go ↦
            let (u, started, rest_ran) =
              bind-eq-some (start_function loader decode mark pc e')
                (λ x. drain fuel loader decode allowed mark x) (rw (go, drain) at ran) in
            let (g, added, start) = start_function-functions pc e' u marks started in
            let passed = test-passed (Set.contains pc e.visited) in_function (allowed pc) go in
            elim (drained fuel allowed u.function_work u t f marks rest_ran m) [
              | inr ok ↦ inr ok
              | inl there ↦
                  elim ((In-append f e.in_module.functions (g ∷ [])).0 (rw added at there)) [
                    | inl old ↦ inl old
                    | inr (inl same) ↦ inr (rw (same, start) passed)
                    | inr (inr none_left) ↦ absurd none_left.0
                  ]
            ]
      ]

mark_function-start :
    (bypass : Bool) (n : ℕ) (f : Function) → (mark_function bypass n f).start ≡ f.start
unfolding mark_function mark_for_hybrid_analysis
mark_function-start true n f = refl
mark_function-start false n f =
    elim (Bool-cases (not (n == 0) && (f.contains_indirect_calls || f.contains_indirect_jumps))) [
      | inl suspect ↦ rw suspect refl
      | inr clear ↦ rw clear refl
    ]

-- A function that the loop of StaticPathExplorer over its queue has added starts in an executable
-- section.
pub drain-executable :
    (fuel : ℕ) (loader : Loader) (decode : ℕ → Option Instruction) (bypass : Bool) (e t : Explorer)
    (f : Function)
    → drain fuel loader decode (is_executable_address loader) (mark_function bypass) e ≡ some t
    → In f t.in_module.functions
    → In f e.in_module.functions ⊎ (is_executable_address loader f.start ≡ true)
drain-executable fuel loader decode bypass e t f ran m =
    drained loader decode (mark_function bypass) fuel (is_executable_address loader) e.function_work
      e t f (mark_function-start bypass) ran m
