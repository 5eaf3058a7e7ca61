-- ===== src/Units/Module/Index.antt =====
-- Module::GetFunctionForAddress of ReWizardLib/source/Analysis/Units/Module.cpp, on a module whose
-- functions were added with AddFunction.
use re_wizard.Prelude.{
  get_elem?-append, get_elem?-last, get_elem?-bound, get_elem?-added, ℕ, sym, ap, inl, inr, none,
  some, List, [], arith, ltb, Bool-cases, Option-cases, length, get_elem?, ◌+◌, ◌≤◌, ◌<◌, ◌≡◌, ◌∙◌,
  ◌∷◌, ◌++◌, ◌==◌, if◌then◌else◌, nat_key,
}
use mathlib.Core.Option.{some-injective}
use re_wizard.Prelude.Map
use re_wizard.Prelude.Map.{Map, find-insert}
use re_wizard.Units.Function.{Function}
use re_wizard.Units.Module.{Module, add_function, last_not_above, get_function_for_address}

-- The keys rise, the first one from the bound on.
abbrev Rises : ℕ → Map ℕ ℕ → Type 0
Rises b [] = Unit
Rises b ((k, v) ∷ m) = (b ≤ k) × Rises (k + 1) m

Rises-place :
    (b k v : ℕ) (m : Map ℕ ℕ) → b ≤ k → Map.find k m ≡ none → Rises b m → Rises b (Map.place k v m)
unfolding Map.place Map.find
Rises-place b k v [] low absent r = (low, tt)
Rises-place b k v ((i, u) ∷ m) low absent r = ground (arith, Rises-place (i + 1) k v m)

Rises-replace : (b k v : ℕ) (m : Map ℕ ℕ) → Rises b m → Rises b (Map.replace k v m)
unfolding Map.replace
Rises-replace b k v [] r = tt
Rises-replace b k v ((i, u) ∷ m) r = ground (arith, Rises-replace (i + 1) k v m)

Rises-insert : (k v : ℕ) (m : Map ℕ ℕ) → Rises 0 m → Rises 0 (Map.insert k v m)
unfolding Map.insert
Rises-insert k v m r = elim (Option-cases (Map.find k m)) [
  | inl absent ↦ rw (absent, Map.insert) (Rises-place 0 k v m (omega arith) absent r)
  | inr (w, here) ↦ rw (here, Map.insert) (Rises-replace 0 k v m r)
]

Rises-find : (b j w : ℕ) (m : Map ℕ ℕ) → Rises b m → Map.find j m ≡ some w → b ≤ j
unfolding Map.find
Rises-find b j w [] r h = absurd (cc)
Rises-find b j w ((i, u) ∷ m) r h = ground (arith, Rises-find (i + 1) j w m)

last_not_above-none :
    (a b j w : ℕ) (m : Map ℕ ℕ)
    → Rises b m
    → last_not_above a m ≡ none
    → Map.find j m ≡ some w
    → a < j
unfolding last_not_above Map.find
last_not_above-none a b j w [] r h e = absurd (cc)
last_not_above-none a b j w ((k, v) ∷ m) r h e = ground (arith, Rises-find (k + 1) j w m)

-- The entry that is found has the greatest key that is not above the address.
last_not_above-some :
    (a b i : ℕ) (m : Map ℕ ℕ)
    → Rises b m
    → last_not_above a m ≡ some i
    → (s : ℕ) × (Map.find s m ≡ some i)
      × (b ≤ s)
      × (s ≤ a)
      × ((j w : ℕ) → Map.find j m ≡ some w → j ≤ a → j ≤ s)
unfolding last_not_above Map.find
last_not_above-some a b i [] r h = absurd (cc)
last_not_above-some a b i ((k, v) ∷ m) r h = elim (Bool-cases (ltb a k)) [
  | inl above ↦ absurd (ground (arith, above, h))
  | inr below ↦ elim (Option-cases (last_not_above a m)) [
    | inl absent ↦ (
      k,
      ground (arith, below, absent, h),
      r.0,
      ground (arith, below),
      λ j w e low. ground (arith, e, low, last_not_above-none a (k + 1) j w m),
    )
    | inr (i', here) ↦
        let (s, found, from, low, highest) = last_not_above-some a (k + 1) i' m r.1 here in
        (
          s,
          ground (arith, below, here, h, found, from),
          omega (arith, from, r.0),
          low,
          λ j w e below'. ground (arith, e, from, highest j w),
        )
  ]
]

-- The keys of the index rise, every key is the start of the function that it leads to, and the start of
-- every function is a key.
abbrev pub IsIndexed : Module → Type 0
IsIndexed m =
    Rises 0 m.function_by_start
    × ((s i : ℕ)
        → Map.find s m.function_by_start ≡ some i
        → (f : Function) × (get_elem? m.functions i ≡ some f) × (f.start ≡ s))
    × ((j : ℕ) (g : Function)
        → get_elem? m.functions j ≡ some g
        → (i : ℕ) × (Map.find g.start m.function_by_start ≡ some i))

IsIndexed-add_function : (f : Function) (m : Module) → IsIndexed m → IsIndexed (add_function f m)
unfolding add_function
IsIndexed-add_function f m (rises, leads, known) = (
  Rises-insert f.start (length m.functions) m.function_by_start rises,
  λ s i e.
      let found = sym (find-insert f.start s (length m.functions) m.function_by_start) ∙ e in
      elim (Bool-cases (f.start == s)) [
        | inl same ↦
            let here = some-injective (length m.functions) i (ground (arith, same, found)) in
            (
              f,
              ap (λ n. get_elem? (m.functions ++ f ∷ []) n) (sym here)
                  ∙ get_elem?-last m.functions f,
              ground (arith, same),
            )
        | inr other ↦
            let (g, at_i, starts) = leads s i (ground (arith, other, found)) in
            (
              g,
              get_elem?-append m.functions f i (get_elem?-bound m.functions i g at_i) ∙ at_i,
              starts,
            )
      ],
  λ j g e.
      let found = find-insert f.start g.start (length m.functions) m.function_by_start in
      elim (get_elem?-added m.functions j g f e) [
        | inl old ↦
            let (i, here) = known j g old in
            elim (Bool-cases (f.start == g.start)) [
              | inl same ↦ (length m.functions, ground (arith, same, found))
              | inr other ↦ (i, ground (arith, other, found, here))
            ]
        | inr new ↦ (length m.functions, ground (arith, ap (λ (h : Function). h.start) new, found))
      ],
)

-- AddFunction, one function after the other.
unfoldable pub add_functions : List Function → Module → Module
unfolding add_function
add_functions [] m = m
add_functions (f ∷ fs) m = add_functions fs (add_function f m)

IsIndexed-add_functions :
    (fs : List Function) (m : Module) → IsIndexed m → IsIndexed (add_functions fs m)
unfolding add_functions
IsIndexed-add_functions [] m ok = ok
IsIndexed-add_functions (f ∷ fs) m ok =
    IsIndexed-add_functions fs (add_function f m) (IsIndexed-add_function f m ok)

-- After AddFunction of each of some functions, if a function of the module starts at an address or
-- below, GetFunctionForAddress decides by one function: it starts at the address or below, the given
-- one does not start after it, and the answer is its place if the address lies before its end and
-- null otherwise. The index of the module is right before.
pub get_function_for_address-nearest :
    (fs : List Function) (m : Module) (a j : ℕ) (g : Function)
    → IsIndexed m
    → get_elem? (add_functions fs m).functions j ≡ some g
    → g.start ≤ a
    → (i : ℕ) × (f : Function) × (get_elem? (add_functions fs m).functions i ≡ some f)
      × (g.start ≤ f.start)
      × (f.start ≤ a)
      × (get_function_for_address (add_functions fs m) a ≡ (if ltb a f.end then some i else none))
unfolding get_function_for_address
get_function_for_address-nearest fs m a j g ok at_j below =
    let m' = add_functions fs m in
    let (rises, leads, known) = IsIndexed-add_functions fs m ok in
    let (k, here) = known j g at_j in
    elim (Option-cases (last_not_above a m'.function_by_start)) [
      | inl absent ↦ absurd (
          omega (
            arith,
            below,
            last_not_above-none a 0 g.start k m'.function_by_start rises absent here,
          ))
      | inr (i, last) ↦
          let (s, found, from, low, highest) =
            last_not_above-some a 0 i m'.function_by_start rises last in
          let (f, at_i, starts) = leads s i found in
          let near = highest g.start k here below in
          (
            i,
            f,
            at_i,
            omega (arith, near, starts),
            omega (arith, low, starts),
            rw (get_function_for_address, last, at_i) (ground (arith, low, starts)),
          )
    ]
