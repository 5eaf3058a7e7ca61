-- ===== src/Passes/Rebuilder/Descend/Ends.antt =====
-- AnalyzeFunction comes to its end, whatever the decoder finds.
use re_wizard.Prelude.{
  ℕ, zero, suc, refl, ap, inl, inr, Option, none, some, List, [], arith, Bool-cases, Option-cases,
  length, ◌+◌, ◌≤◌, ◌<◌, ◌≡◌, ◌∷◌, nat_key, pair_key,
}
use mathlib.Core.Option
use re_wizard.Prelude.Count.{unseen-bound}
use re_wizard.Prelude.Set
use re_wizard.Prelude.Set.{Set}
use re_wizard.Insn.{Instruction}
use re_wizard.Units.Function.{Function, is_empty_name, set_start, add_basic_block}
use re_wizard.Units.Function.Graph.Correct.{normalize_basic_blocks-total}
use re_wizard.Units.Function.Normalize.Kept.{normalize_basic_blocks-keeps}
use re_wizard.Units.Module.{Module}
use re_wizard.Passes.Rebuilder.{Loader}
use re_wizard.Passes.Rebuilder.Descend.{
  Sweep, Round, halt, next, round, explore_block, add_open_block, explore, analyze_function,
}
use re_wizard.Passes.Rebuilder.Descend.Rounds.{
  left, Within, Within-refl, Within-trans, Paid, round-Paid,
}

module _ (loader : Loader) where
  abbrev Finishes : Sweep → Option Sweep → Type 0
  Finishes s r = (t : Sweep) × (r ≡ some t) × Within loader s t

  explore_block-Ends :
      (fuel : ℕ) (decode : ℕ → Option Instruction) (pc : ℕ) (s : Sweep)
      → left loader s.visited < fuel
      → Finishes s (explore_block fuel loader decode pc s)
  unfolding explore_block
  explore_block-Ends zero decode pc s h = absurd (omega (arith, h))
  explore_block-Ends (suc fuel) decode pc s h =
      at_round (round loader decode pc s) (round-Paid loader decode pc s)
        (λ pc' t less. explore_block-Ends fuel decode pc' t less)
    where
      at_round :
          (r : Round)
          → Paid loader s r
          → ((pc' : ℕ) (t : Sweep)
              → left loader t.visited < fuel
              → Finishes t (explore_block fuel loader decode pc' t))
          → Finishes s (elim r as (λ _. Option Sweep) [
            | halt s' ↦ some s'
            | next pc' s' ↦ explore_block fuel loader decode pc' s'
          ])
      at_round (halt t) paid rest = (t, refl, paid)
      at_round (next pc' t) (paid, less) rest =
          let (u, e, k) = rest pc' t (omega (arith, less, h)) in
          (u, e, Within-trans loader s t u paid k)

  add_open_block-Within : (s : Sweep) → Within loader s (add_open_block s)
  unfolding add_basic_block
  add_open_block-Within s = elim (Option-cases s.block) [
    | inl closed ↦ rw closed (Within-refl loader (record s { block = none }))
    | inr (b, still) ↦ rw still (record {
      fewer = omega arith;
      work = omega arith;
      function_work = omega arith;
      call_sites = omega arith;
    })
  ]

  pub explore-Ends :
      (fuel : ℕ) (decode : ℕ → Option Instruction) (work : List ℕ) (s : Sweep)
      → length work + left loader s.visited < fuel
      → Finishes (record s { work = work }) (explore fuel loader decode (record s { work = work }))
  unfolding explore Option.bind
  explore-Ends zero decode work s h = absurd (omega (arith, h))
  explore-Ends (suc fuel) decode [] s h =
      (record s { work = [] }, refl, Within-refl loader (record s { work = [] }))
  explore-Ends (suc fuel) decode (pc ∷ rest) s h =
      let s' : Sweep = record s { work = rest; block = none } in
      let popped : Within loader (record s { work = pc ∷ rest }) s' = record {
        fewer = omega arith;
        work = omega arith;
        function_work = omega arith;
        call_sites = omega arith;
      } in
      elim (Bool-cases (Set.contains pc s.visited)) [
        | inl seen ↦
            let (u, e, k) = explore-Ends fuel decode rest s' (omega (arith, h)) in
            rw (seen, explore)
              (u, e, Within-trans loader (record s { work = pc ∷ rest }) s' u popped k)
        | inr new ↦
            let room = unseen-bound loader.current_image_base loader.mapped_size s.visited in
            let (t, e, k) =
              explore_block-Ends (suc loader.mapped_size) decode pc s' (omega (arith, room)) in
            let closed = add_open_block-Within t in
            let (u, e', k') =
              explore-Ends fuel decode (add_open_block t).work (add_open_block t)
                (omega (arith, h, k.work, closed.work)) in
            rw (new, e, explore)
              (
                u,
                e',
                Within-trans loader (record s { work = pc ∷ rest }) s' u popped
                    (Within-trans loader s' t u k
                      (Within-trans loader t (add_open_block t) u closed k')),
              )
      ]

  pub set_start-call_sites :
      (start : ℕ) (f : Function) → length (set_start start f).call_sites ≡ length f.call_sites
  unfolding set_start
  set_start-call_sites start f = elim (Bool-cases (is_empty_name f.name)) [
    | inl unnamed ↦ rw unnamed refl
    | inr named ↦ rw named refl
  ]

  -- The variables of AnalyzeFunction before its first round.
  abbrev pub entered : ℕ → Module → Set ℕ → Function → List ℕ → Sweep
  entered start m visited f function_work = record {
    in_module = m;
    visited = visited;
    function = set_start start f;
    block = none;
    last = 0;
    work = start ∷ [];
    function_work = function_work;
    insn_count = 0;
    stack_mod_count = 0;
  }

  -- AnalyzeFunction ends for every image, decoder and start, whatever was visited before. What the queue
  -- of functions and the call sites gain is bounded by the addresses of the image that it visits.
  pub analyze_function-ends :
      (decode : ℕ → Option Instruction) (start : ℕ) (m : Module) (visited : Set ℕ) (f : Function)
      (function_work : List ℕ)
      → (t : Sweep) × (analyze_function loader decode start m visited f function_work ≡ some t)
        × (length t.function_work + left loader t.visited
            ≤ length function_work + left loader visited)
        × (length t.function.call_sites + left loader t.visited
            ≤ length f.call_sites + left loader visited)
  unfolding analyze_function Option.bind
  analyze_function-ends decode start m visited f function_work =
      let room = unseen-bound loader.current_image_base loader.mapped_size visited in
      let s = entered start m visited f function_work in
      let (t, e, paid) =
        explore-Ends (2 + loader.mapped_size) decode (start ∷ []) s (omega (arith, room)) in
      let (g, normal) = normalize_basic_blocks-total t.function in
      let same : g.call_sites ≡ t.function.call_sites =
        ap (λ (x : Function). x.call_sites) (normalize_basic_blocks-keeps t.function g normal) in
      let named = set_start-call_sites start f in
      (
        record t { function = g },
        rw (e, normal) refl,
        paid.function_work,
        rw same (omega (arith, paid.call_sites, named)),
      )
