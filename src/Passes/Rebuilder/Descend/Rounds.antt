-- ===== src/Passes/Rebuilder/Descend/Rounds.antt =====
-- What a round of AnalyzeFunction costs: one that goes on has visited a new address of the image, and
-- adds one entry at most to each queue and to the call sites.
use re_wizard.Prelude.{
  ℕ, suc, refl, inl, inr, Bool, false, not, Option, none, some, arith, ltb, leb, Bool-cases,
  Option-cases, length, ◌+◌, ◌≤◌, ◌<◌, ◌≡◌, ◌&&◌, ◌||◌, ◌==◌, nat_key, pair_key,
}
use re_wizard.Prelude.Count.{unseen, unseen-insert}
use re_wizard.Prelude.Set
use re_wizard.Prelude.Set.{Set}
use re_wizard.Insn.{Category, Instruction}
use re_wizard.Units.BasicBlock.{BasicBlock}
use re_wizard.Units.Function.{set_end, add_basic_block}
use re_wizard.Passes.Rebuilder.{
  Loader, Descent, image_end, handle_call, handle_branch, handle_trampoline,
}
use re_wizard.Passes.Rebuilder.Handlers.{Little, handle_call-Little}
use re_wizard.Passes.Rebuilder.Handlers.Branches.{handle_branch-Little, handle_trampoline-Little}
use re_wizard.Passes.Rebuilder.Descend.{
  Sweep, Round, halt, next, cut_block, descent_of, resume, close_return, dispatch, advance, decoded,
  round, is_known, stack_mods,
}

module _ (loader : Loader) where
  -- The addresses of the image that are still to be visited.
  abbrev pub left : Set ℕ → ℕ
  left v = unseen loader.current_image_base loader.mapped_size v

  -- What `s'` has gained in a queue or in the call sites is paid for by visited addresses.
  pub record Within (s s' : Sweep) : Type 0 where
    pub fewer : left s'.visited ≤ left s.visited
    pub work : length s'.work + left s'.visited ≤ length s.work + left s.visited
    pub function_work :
        length s'.function_work + left s'.visited ≤ length s.function_work + left s.visited
    pub call_sites :
        length s'.function.call_sites + left s'.visited
        ≤ length s.function.call_sites + left s.visited

  pub Within-trans : (s t u : Sweep) → Within s t → Within t u → Within s u
  Within-trans s t u h k = record {
    fewer = omega (arith, h.fewer, k.fewer);
    work = omega (arith, h.work, k.work);
    function_work = omega (arith, h.function_work, k.function_work);
    call_sites = omega (arith, h.call_sites, k.call_sites);
  }

  abbrev pub Spent : Sweep → Sweep → Type 0
  Spent s t = Within s t × (suc (left t.visited) ≤ left s.visited)

  abbrev pub Paid : Sweep → Round → Type 0
  Paid s (halt t) = Within s t
  Paid s (next pc t) = Spent s t

  -- An address of the image that is not visited yet.
  abbrev pub New : ℕ → Sweep → Type 0
  New a s =
      (Set.contains a s.visited ≡ false)
      × (loader.current_image_base ≤ a)
      × (a < loader.current_image_base + loader.mapped_size)

  module _ (s : Sweep) (pc : ℕ) (insn : Instruction) (new : New insn.address s) where
    resume-Spent :
        (held : Bool) (block : Option BasicBlock) (d : Descent) (mods : ℕ)
        → Little (descent_of pc insn s) d
        → Spent s (
            resume held block d (record s {
              visited = Set.insert insn.address s.visited;
              insn_count = suc s.insn_count;
              stack_mod_count = mods;
            }))
    resume-Spent held block d mods h =
        let (fresh, low, high) = new in
        let paid =
          unseen-insert loader.current_image_base loader.mapped_size insn.address s.visited fresh
            low high in
        (
          record {
            fewer = omega (arith, paid);
            work = omega (arith, paid, h.work);
            function_work = omega (arith, paid, h.function_work);
            call_sites = omega (arith, paid, h.call_sites);
          },
          omega (arith, paid),
        )

    advance-Paid : (t : Sweep) → Spent s t → Paid s (advance pc insn t)
    advance-Paid t (h, less) = (
      record {
        fewer = h.fewer;
        work = h.work;
        function_work = h.function_work;
        call_sites = h.call_sites;
      },
      less,
    )

    -- The category decides how the round ends.
    dispatch-Paid :
        (held : Bool) (mods : ℕ)
        → Paid s (
            dispatch loader pc insn held (descent_of pc insn s) (record s {
              visited = Set.insert insn.address s.visited;
              insn_count = suc s.insn_count;
              stack_mod_count = mods;
            }))
    unfolding dispatch set_end add_basic_block
    dispatch-Paid held mods = at_category insn.category refl
      where
        d : Descent
        d = descent_of pc insn s

        visited : Set ℕ
        visited = Set.insert insn.address s.visited

        t : Sweep
        t = record s { visited = visited; insn_count = suc s.insn_count; stack_mod_count = mods }

        same :
            (d' : Descent)
            → (d'.work ≡ s.work)
            → (d'.function_work ≡ s.function_work)
            → (d'.function.call_sites ≡ s.function.call_sites)
            → (d'.in_module.instructions ≡ d.in_module.instructions)
            → (d'.in_module.functions ≡ d.in_module.functions)
            → (d'.function.start ≡ d.function.start)
            → Little d d'
        same d' w f c i fs b = record {
          work = rw w (omega arith);
          function_work = rw f (omega arith);
          call_sites = rw c (omega arith);
          instructions = i;
          functions = fs;
          start = b;
        }

        at_category : (c : Category) → insn.category ≡ c → Paid s (dispatch loader pc insn held d t)
        at_category Category.call e =
            let d' = handle_call loader visited pc d in
            rw (e, dispatch)
              (advance-Paid (resume held (some d'.block) d' t) (
                resume-Spent held (some d'.block) d' mods (handle_call-Little loader visited pc d)))
        at_category Category.cond_br e =
            let d' = handle_branch loader visited pc d in
            rw (e, dispatch)
              (advance-Paid (resume held none d' t)
                (resume-Spent held none d' mods (handle_branch-Little loader visited pc d)))
        at_category Category.uncond_br e =
            let d' = handle_branch loader visited pc d in
            rw (e, dispatch)
              (resume-Spent held none d' mods (handle_branch-Little loader visited pc d)).0
        at_category Category.ret e =
            rw (e, dispatch)
              (resume-Spent held none (close_return insn d) mods
                (same (close_return insn d) refl refl refl refl refl refl)).0
        at_category (Category.other n) e =
            rw (e, dispatch)
              (advance-Paid (resume held (some d.block) d t)
                (resume-Spent held (some d.block) d mods (same d refl refl refl refl refl refl)))

    decoded-Paid : Paid s (decoded loader pc insn s)
    unfolding decoded set_end add_basic_block
    decoded-Paid =
        let held = not (is_known insn.address s.in_module) in
        let d = descent_of pc insn s in
        elim (Bool-cases (s.insn_count == 0 && (handle_trampoline loader d).1)) [
          | inl jumps ↦
              rw (jumps, decoded)
                (resume-Spent held none (handle_trampoline loader d).0 s.stack_mod_count
                  (handle_trampoline-Little loader d)).0
          | inr other ↦
              rw (other, decoded) (dispatch-Paid held (s.stack_mod_count + stack_mods insn))
        ]

  pub Within-refl : (s : Sweep) → Within s s
  Within-refl s = record {
    fewer = omega arith;
    work = omega arith;
    function_work = omega arith;
    call_sites = omega arith;
  }

  cut_block-Within : (pc : ℕ) (s : Sweep) → Within s (cut_block pc s)
  unfolding set_end
  cut_block-Within pc s = elim (Option-cases s.block) [
    | inl closed ↦ rw closed (Within-refl (record s { block = none }))
    | inr (b, open_) ↦ rw open_ (record {
      fewer = omega arith;
      work = omega arith;
      function_work = omega arith;
      call_sites = omega arith;
    })
  ]

  pub image_end-bound :
      (pc : ℕ)
      → leb (image_end loader) pc ≡ false
      → pc < loader.current_image_base + loader.mapped_size
  image_end-bound pc h = ground arith

  pub round-Paid :
      (decode : ℕ → Option Instruction) (pc : ℕ) (s : Sweep) → Paid s (round loader decode pc s)
  unfolding round
  round-Paid decode pc s = elim (Bool-cases (Set.contains pc s.visited)) [
    | inl seen ↦ rw (seen, round) (Within-refl s)
    | inr new ↦ elim (Bool-cases (ltb pc loader.current_image_base || leb (image_end loader) pc)) [
      | inl outside ↦ rw (new, outside, round) (Within-refl s)
      | inr inside ↦ elim (Option-cases (decode pc)) [
        | inl bad ↦ rw (new, inside, bad, round) (cut_block-Within pc s)
        | inr (insn, good) ↦
            let low : loader.current_image_base ≤ pc = ground (arith, inside) in
            let high = image_end-bound pc (ground (arith, inside)) in
            rw (new, inside, good, round)
              (decoded-Paid s pc (record insn { address = pc }) (new, low, high))
      ]
    ]
  ]
