-- ===== src/Passes/Rebuilder/Descend/Visits.antt =====
-- What AnalyzeFunction visits: addresses of the image at which an instruction decodes, each recorded
-- in the module. The function keeps its start.
use re_wizard.Prelude.{
  ℕ, zero, suc, refl, sym, ap, inl, inr, Bool, true, not, Option, none, some, List, [], arith, ltb,
  leb, Bool-cases, Option-cases, bind-eq-some, map-eq-some, ◌+◌, ◌≤◌, ◌<◌, ◌≡◌, ◌∙◌, ◌⊎◌, ◌&&◌,
  ◌||◌, ◌∷◌, ◌==◌, nat_key, pair_key,
}
use mathlib.Core.Option.{some-injective}
use re_wizard.Prelude.Set
use re_wizard.Prelude.Set.{Set, contains-insert}
use mathlib.Core.Path.{subst}
use re_wizard.Insn.{Category, Instruction}
use re_wizard.Units.BasicBlock.{BasicBlock}
use re_wizard.Units.Function.{Function, is_empty_name, set_start, set_end, add_basic_block}
use re_wizard.Units.Function.Graph.{normalize_basic_blocks}
use re_wizard.Units.Function.Normalize.Kept.{normalize_basic_blocks-keeps}
use re_wizard.Units.Module.{Module, add_instruction}
use re_wizard.Passes.Rebuilder.{
  Loader, Descent, image_end, handle_call, handle_branch, handle_trampoline,
}
use re_wizard.Passes.Rebuilder.Handlers.{Little, Little-refl, handle_call-Little}
use re_wizard.Passes.Rebuilder.Handlers.Branches.{handle_branch-Little, handle_trampoline-Little}
use re_wizard.Passes.Rebuilder.Descend.{
  Sweep, Round, halt, next, cut_block, descent_of, resume, close_return, dispatch, advance, decoded,
  round, explore_block, add_open_block, explore, analyze_function, is_known, stack_mods, write_back,
}
use re_wizard.Passes.Rebuilder.Descend.Ends.{entered}
use re_wizard.Passes.Rebuilder.Descend.Rounds.{image_end-bound}
use re_wizard.Passes.Rebuilder.Descend.Records.{
  has, has-emplace, has-emplace_keeps, known-write, inserted, write_back-functions,
  close_return-Little,
}

module _ (loader : Loader) (decode : ℕ → Option Instruction) where
  -- An address of the image at which an instruction decodes.
  abbrev pub Decodable : ℕ → Type 0
  Decodable a =
      (loader.current_image_base ≤ a)
      × (a < loader.current_image_base + loader.mapped_size)
      × ((insn : Instruction) × (decode a ≡ some insn))

  -- What was visited on the way from `s` to `t` is decodable and recorded; no record is lost.
  pub record Advances (s t : Sweep) : Type 0 where
    pub visits :
        (a : ℕ)
        → Set.contains a t.visited ≡ true
        → (Set.contains a s.visited ≡ true) ⊎ (Decodable a × (is_known a t.in_module ≡ true))
    pub keeps : (a : ℕ) → is_known a s.in_module ≡ true → is_known a t.in_module ≡ true
    pub start : t.function.start ≡ s.function.start
    pub functions : t.in_module.functions ≡ s.in_module.functions

  Advances-refl : (s : Sweep) → Advances s s
  Advances-refl s = record {
    visits = λ a h. inl h;
    keeps = λ a h. h;
    start = refl;
    functions = refl;
  }

  Advances-trans : (s t u : Sweep) → Advances s t → Advances t u → Advances s u
  Advances-trans s t u h k = record {
    visits = λ a v. elim (k.visits a v) [
      | inr fresh ↦ inr fresh
      | inl old ↦ elim (h.visits a old) [
        | inl older ↦ inl older
        | inr (d, known) ↦ inr (d, k.keeps a known)
      ]
    ];
    keeps = λ a known. k.keeps a (h.keeps a known);
    start = k.start ∙ h.start;
    functions = k.functions ∙ h.functions;
  }

  abbrev left_by : Round → Sweep
  left_by (halt t) = t
  left_by (next pc t) = t

  module _ (s : Sweep) (pc : ℕ) (insn : Instruction) (here : Decodable insn.address) where
    resume-Advances :
        (held : Bool) (block : Option BasicBlock) (d : Descent) (mods : ℕ)
        → Little (descent_of pc insn s) d
        → Advances s (
            resume held block d (record s {
              visited = Set.insert insn.address s.visited;
              insn_count = suc s.insn_count;
              stack_mod_count = mods;
            }))
    unfolding add_instruction
    resume-Advances held block d mods h =
        let known : (a : ℕ)
            → is_known a s.in_module ≡ true
            → is_known a (write_back held d.insn d.in_module) ≡ true =
          λ a k. known-write held a d.insn d.in_module (
            subst (λ m. has a m ≡ true) (sym h.instructions)
              (has-emplace_keeps insn.address a insn s.in_module.instructions k)) in
        let itself : is_known insn.address (write_back held d.insn d.in_module) ≡ true =
          known-write held insn.address d.insn d.in_module (
            subst (λ m. has insn.address m ≡ true) (sym h.instructions)
              (has-emplace insn.address insn s.in_module.instructions)) in
        record {
          visits = λ a v. elim (inserted insn.address a s.visited v) [
            | inl e ↦ inr (
                subst (λ x. Decodable x × (is_known x (write_back held d.insn d.in_module) ≡ true))
                  e (here, itself))
            | inr old ↦ inl old
          ];
          keeps = known;
          start = h.start;
          functions = write_back-functions held d.insn d.in_module ∙ h.functions;
        }

    advance-Advances : (t : Sweep) → Advances s t → Advances s (left_by (advance pc insn t))
    advance-Advances t h = record {
      visits = h.visits;
      keeps = h.keeps;
      start = h.start;
      functions = h.functions;
    }

    dispatch-Advances :
        (held : Bool) (mods : ℕ)
        → Advances s (
            left_by (
              dispatch loader pc insn held (descent_of pc insn s) (record s {
                visited = Set.insert insn.address s.visited;
                insn_count = suc s.insn_count;
                stack_mod_count = mods;
              })))
    unfolding dispatch set_end add_basic_block
    dispatch-Advances held mods = at_category insn.category refl
      where
        d : Descent
        d = descent_of pc insn s

        visited : Set ℕ
        visited = Set.insert insn.address s.visited

        t : Sweep
        t = record s { visited = visited; insn_count = suc s.insn_count; stack_mod_count = mods }

        branch : Advances s (resume held none (handle_branch loader visited pc d) t)
        branch =
            resume-Advances held none (handle_branch loader visited pc d) mods
              (handle_branch-Little loader visited pc d)

        at_category :
            (c : Category)
            → insn.category ≡ c
            → Advances s (left_by (dispatch loader pc insn held d t))
        at_category Category.call e =
            let d' = handle_call loader visited pc d in
            rw (e, dispatch)
              (advance-Advances (resume held (some d'.block) d' t) (
                resume-Advances held (some d'.block) d' mods
                  (handle_call-Little loader visited pc d)))
        at_category Category.cond_br e =
            rw (e, dispatch)
              (advance-Advances (resume held none (handle_branch loader visited pc d) t) branch)
        at_category Category.uncond_br e = rw (e, dispatch) branch
        at_category Category.ret e =
            rw (e, dispatch)
              (resume-Advances held none (close_return insn d) mods (close_return-Little insn d))
        at_category (Category.other n) e =
            rw (e, dispatch)
              (advance-Advances (resume held (some d.block) d t)
                (resume-Advances held (some d.block) d mods (Little-refl d)))

    decoded-Advances : Advances s (left_by (decoded loader pc insn s))
    unfolding decoded set_end add_basic_block
    decoded-Advances =
        let held = not (is_known insn.address s.in_module) in
        let d = descent_of pc insn s in
        elim (Bool-cases (s.insn_count == 0 && (handle_trampoline loader d).1)) [
          | inl jumps ↦
              rw (jumps, decoded)
                (resume-Advances held none (handle_trampoline loader d).0 s.stack_mod_count
                  (handle_trampoline-Little loader d))
          | inr other ↦
              rw (other, decoded) (dispatch-Advances held (s.stack_mod_count + stack_mods insn))
        ]

  cut_block-Advances : (pc : ℕ) (s : Sweep) → Advances s (cut_block pc s)
  unfolding set_end
  cut_block-Advances pc s = elim (Option-cases s.block) [
    | inl closed ↦ rw closed (Advances-refl (record s { block = none }))
    | inr (b, still) ↦
        rw still
          (record { visits = λ a h. inl h; keeps = λ a h. h; start = refl; functions = refl })
  ]

  add_open_block-Advances : (s : Sweep) → Advances s (add_open_block s)
  unfolding add_basic_block
  add_open_block-Advances s = elim (Option-cases s.block) [
    | inl closed ↦ rw closed (Advances-refl (record s { block = none }))
    | inr (b, still) ↦
        rw still
          (record { visits = λ a h. inl h; keeps = λ a h. h; start = refl; functions = refl })
  ]

  round-Advances : (pc : ℕ) (s : Sweep) → Advances s (left_by (round loader decode pc s))
  unfolding round
  round-Advances pc s = elim (Bool-cases (Set.contains pc s.visited)) [
    | inl seen ↦ rw (seen, round) (Advances-refl s)
    | inr new ↦ elim (Bool-cases (ltb pc loader.current_image_base || leb (image_end loader) pc)) [
      | inl outside ↦ rw (new, outside, round) (Advances-refl s)
      | inr inside ↦ elim (Option-cases (decode pc)) [
        | inl bad ↦ rw (new, inside, bad, round) (cut_block-Advances pc s)
        | inr (insn, good) ↦
            let low : loader.current_image_base ≤ pc = ground (arith, inside) in
            let high = image_end-bound loader pc (ground (arith, inside)) in
            rw (new, inside, good, round)
              (decoded-Advances s pc (record insn { address = pc }) (low, high, (insn, good)))
      ]
    ]
  ]

  explore_block-Advances :
      (fuel pc : ℕ) (s t : Sweep) → explore_block fuel loader decode pc s ≡ some t → Advances s t
  unfolding explore_block
  explore_block-Advances zero pc s t e = absurd (cc)
  explore_block-Advances (suc fuel) pc s t e =
      at_round (round loader decode pc s) (round-Advances pc s) e
        (λ pc' s' e'. explore_block-Advances fuel pc' s' t e')
    where
      at_round :
          (r : Round)
          → Advances s (left_by r)
          → elim r as (λ _. Option Sweep) [
            | halt s' ↦ some s'
            | next pc' s' ↦ explore_block fuel loader decode pc' s'
          ]
            ≡ some t
          → ((pc' : ℕ) (s' : Sweep)
              → explore_block fuel loader decode pc' s' ≡ some t
              → Advances s' t)
          → Advances s t
      at_round (halt s') h e' rest = subst (Advances s) (some-injective s' t e') h
      at_round (next pc' s') h e' rest = Advances-trans s s' t h (rest pc' s' e')

  explore-Advances :
      (fuel : ℕ) (work : List ℕ) (s t : Sweep)
      → explore fuel loader decode (record s { work = work }) ≡ some t
      → Advances s t
  unfolding explore
  explore-Advances zero work s t e = absurd (cc)
  explore-Advances (suc fuel) [] s t e =
      subst (Advances s) (some-injective (record s { work = [] }) t e)
        (record { visits = λ a h. inl h; keeps = λ a h. h; start = refl; functions = refl })
  explore-Advances (suc fuel) (pc ∷ rest) s t e =
      let s' : Sweep = record s { work = rest; block = none } in
      let popped : Advances s s' = record {
        visits = λ a h. inl h;
        keeps = λ a h. h;
        start = refl;
        functions = refl;
      } in
      elim (Bool-cases (Set.contains pc s.visited)) [
        | inl seen ↦
            Advances-trans s s' t popped (explore-Advances fuel rest s' t (rw (seen, explore) at e))
        | inr new ↦
            let (u, ran, e') =
              bind-eq-some (explore_block (suc loader.mapped_size) loader decode pc s')
                (λ x. explore fuel loader decode (add_open_block x)) (rw (new, explore) at e) in
            let first = explore_block-Advances (suc loader.mapped_size) pc s' u ran in
            let closed = add_open_block u in
            let last = explore-Advances fuel closed.work closed t e' in
            Advances-trans s s' t popped (
              Advances-trans s' u t first
                (Advances-trans u closed t (add_open_block-Advances u) last))
      ]

  set_start-start : (start : ℕ) (f : Function) → (set_start start f).start ≡ start
  unfolding set_start
  set_start-start start f = elim (Bool-cases (is_empty_name f.name)) [
    | inl unnamed ↦ rw unnamed refl
    | inr named ↦ rw named refl
  ]

  -- The function starts where the analysis was told to start; no function is added by it.
  pub analyze_function-Advances :
      (start : ℕ) (m : Module) (visited : Set ℕ) (f : Function) (function_work : List ℕ) (t : Sweep)
      → analyze_function loader decode start m visited f function_work ≡ some t
      → Advances (entered loader start m visited f function_work) t × (t.function.start ≡ start)
  unfolding analyze_function
  analyze_function-Advances start m visited f function_work t e =
      let s = entered loader start m visited f function_work in
      let (u, ran, e') = bind-eq-some (explore (2 + loader.mapped_size) loader decode s) _ e in
      let (g, normal, e'') = map-eq-some _ (normalize_basic_blocks u.function) e' in
      let h = explore-Advances (2 + loader.mapped_size) (start ∷ []) s u ran in
      let same =
        ap (λ (x : Function). x.start) (normalize_basic_blocks-keeps u.function g normal) in
      subst (λ x. Advances s x × (x.function.start ≡ start)) e''
        (
          record {
            visits = h.visits;
            keeps = h.keeps;
            start = same ∙ h.start;
            functions = h.functions;
          },
          same ∙ (h.start ∙ set_start-start start f),
        )

  -- An address that is visited after AnalyzeFunction was visited before, or it lies in the image, an
  -- instruction decodes there, and the module has an instruction for it.
  pub analyze_function-visits :
      (start a : ℕ) (m : Module) (visited : Set ℕ) (f : Function) (function_work : List ℕ)
      (t : Sweep)
      → analyze_function loader decode start m visited f function_work ≡ some t
      → Set.contains a t.visited ≡ true
      → (Set.contains a visited ≡ true) ⊎ (Decodable a × (is_known a t.in_module ≡ true))
  analyze_function-visits start a m visited f function_work t e h =
      (analyze_function-Advances start m visited f function_work t e).0.visits a h
