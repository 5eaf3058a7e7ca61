-- ===== src/Passes/Rebuilder/Explorer/Ends.antt =====
-- StaticPathExplorer comes to its end.
use re_wizard.Prelude.{
  ℕ, zero, suc, refl, ap, inl, inr, Bool, true, false, not, Option, some, List, [], arith, ltb,
  ltb→lt, Bool-cases, Option-cases, length, length-append, ◌+◌, ◌-◌, ◌*◌, ◌≤◌, ◌<◌, ◌≡◌, ◌&&◌, ◌||◌,
  ◌∷◌, ◌++◌, ◌==◌, if◌then◌else◌, nat_key, pair_key, string_key,
}
use mathlib.Core.Option
use re_wizard.Prelude.Set
use re_wizard.Prelude.Set.{Set}
use native.Mathlib.Nat.{mod-eq_of_lt}
use re_wizard.Prelude.Word.{add_word, word_mod}
use re_wizard.Insn.{Instruction}
use re_wizard.Units.BasicBlock.{plain}
use re_wizard.Units.Function.{Function, create, set_start, mark_for_hybrid_analysis}
use re_wizard.Units.Module.{Module, add_function}
use re_wizard.Passes.Rebuilder.{Loader, is_within_mapping, is_executable_address}
use re_wizard.Passes.Rebuilder.Descend.Rounds.{left}
use re_wizard.Passes.Rebuilder.Descend.Ends.{analyze_function-ends, set_start-call_sites}
use re_wizard.Passes.Rebuilder.Explorer.{
  Binary, Explorer, is_in_function, enqueue_callees, start_function, drain, drain_fuel,
  mark_function, sweep_section, sweep_sections, linear_sweep_fallback, first_work,
  static_path_explorer, is_prologue,
}

-- What Zydis documents of the length of an instruction.
abbrev pub Decodes : (ℕ → Option Instruction) → Type 0
Decodes decode =
    (a : ℕ) (insn : Instruction) → decode a ≡ some insn → (1 ≤ insn.length) × (insn.length ≤ 15)

-- No instruction that starts in one of the sections runs over the end of the address space.
abbrev pub Low : List (ℕ × ℕ) → Type 0
Low [] = Unit
Low ((start, end) ∷ sections) = (end + 15 ≤ word_mod) × Low sections

step-forward :
    (addr n end : ℕ)
    → addr < end
    → 1 ≤ n
    → n ≤ 15
    → end + 15 ≤ word_mod
    → add_word addr n ≡ addr + n
step-forward addr n end h one small low = mod-eq_of_lt (omega (arith, h, small, low))

module _ (loader : Loader) where
  length-enqueue_callees :
      (m : Module) (visited : Set ℕ) (sites : List (ℕ × ℕ)) (queue : List ℕ)
      → length (enqueue_callees loader m visited sites queue) ≤ length queue + length sites
  unfolding enqueue_callees
  length-enqueue_callees m visited [] queue = omega arith
  length-enqueue_callees m visited ((src, dest) ∷ sites) queue =
      let more = length-append queue (dest ∷ []) in
      let with = length-enqueue_callees m visited sites (queue ++ dest ∷ []) in
      let without = length-enqueue_callees m visited sites queue in
      elim (Bool-cases (not (dest == 0) && not (Set.contains dest visited))) [
        | inl worth ↦
            elim (Bool-cases (is_within_mapping loader dest && not (is_in_function m dest))) [
              | inl queued ↦ rw (worth, queued, enqueue_callees) (omega (arith, more, with))
              | inr known ↦ rw (worth, known, enqueue_callees) (omega (arith, without))
            ]
        | inr idle ↦ rw (idle, enqueue_callees) (omega (arith, without))
      ]

  -- A mark that leaves the call sites alone.
  abbrev Marks : (ℕ → Function → Function) → Type 0
  Marks mark = (n : ℕ) (f : Function) → (mark n f).call_sites ≡ f.call_sites

  -- The rounds that are left at most.
  abbrev pub rounds_left : Explorer → ℕ
  rounds_left e = length e.function_work + 2 * left loader e.visited

  start_function-ends :
      (decode : ℕ → Option Instruction) (mark : ℕ → Function → Function) (pc : ℕ) (e : Explorer)
      → Marks mark
      → (t : Explorer) × (start_function loader decode mark pc e ≡ some t)
        × (rounds_left t ≤ rounds_left e)
  unfolding start_function
  start_function-ends decode mark pc e marks =
      let fn : Function = record (set_start pc (create (plain ""))) { end = pc } in
      let (s, ran, queued, sites) =
        analyze_function-ends loader decode pc e.in_module e.visited fn e.function_work in
      let f = mark s.insn_count s.function in
      let bare = set_start-call_sites loader pc (create (plain "")) in
      let same : length f.call_sites ≡ length s.function.call_sites =
        ap length (marks s.insn_count s.function) in
      let callees = length-enqueue_callees s.in_module s.visited f.call_sites s.function_work in
      (
        record {
          in_module = add_function f s.in_module;
          visited = s.visited;
          function_work = enqueue_callees loader s.in_module s.visited f.call_sites s.function_work;
        },
        rw (ran, start_function) refl,
        omega (arith, queued, sites, bare, same, callees),
      )

  drain-ends :
      (fuel : ℕ) (decode : ℕ → Option Instruction) (allowed : ℕ → Bool)
      (mark : ℕ → Function → Function) (work : List ℕ) (m : Module) (visited : Set ℕ)
      → Marks mark
      → length work + 2 * left loader visited < fuel
      → (t : Explorer) × (drain fuel loader decode allowed mark
            (record { in_module = m; visited = visited; function_work = work })
          ≡ some t)
  unfolding drain Option.bind
  drain-ends zero decode allowed mark work m visited marks h = absurd (omega (arith, h))
  drain-ends (suc fuel) decode allowed mark [] m visited marks h = (_, refl)
  drain-ends (suc fuel) decode allowed mark (pc ∷ rest) m visited marks h =
      let e' : Explorer = record { in_module = m; visited = visited; function_work = rest } in
      elim (Bool-cases (Set.contains pc visited || is_in_function m pc || not (allowed pc))) [
        | inl skip ↦
            rw (skip, drain)
              (drain-ends fuel decode allowed mark rest m visited marks (omega (arith, h)))
        | inr start ↦
            let (t, ran, less) = start_function-ends decode mark pc e' marks in
            rw (start, ran, drain)
              (drain-ends fuel decode allowed mark t.function_work t.in_module t.visited marks
                (omega (arith, h, less)))
      ]

  sweep_section-ends :
      (fuel : ℕ) (decode : ℕ → Option Instruction) (addr end : ℕ) (e : Explorer)
      → Decodes decode
      → end + 15 ≤ word_mod
      → end ≤ addr + fuel
      → (t : Explorer) × (sweep_section fuel loader decode addr end e ≡ some t)
  unfolding sweep_section
  sweep_section-ends zero decode addr end e lengths low h =
      let past : ltb addr end ≡ false = ground (arith, h) in (e, rw (past, sweep_section) refl)
  sweep_section-ends (suc fuel) decode addr end e lengths low h = elim (Bool-cases (ltb addr end)) [
    | inr past ↦ (e, rw (past, sweep_section) refl)
    | inl inside ↦
        let before = ltb→lt addr end inside in
        let one = step-forward addr 1 end before (omega arith) (omega arith) low in
        let (skipped, skips) =
          sweep_section-ends fuel decode (add_word addr 1) end e lengths low
            (omega (arith, one, h)) in
        elim (Bool-cases (Set.contains addr e.visited)) [
          | inl seen ↦ (skipped, rw (inside, seen, sweep_section) skips)
          | inr new ↦ elim (Option-cases (decode addr)) [
            | inl bad ↦ (skipped, rw (inside, new, bad, sweep_section) skips)
            | inr (insn, good) ↦
                let (some_length, short) = lengths addr insn good in
                let far = step-forward addr insn.length end before some_length short low in
                let queued : Explorer =
                  if is_prologue (record insn { address = addr })
                    && (not (is_in_function e.in_module addr) && is_executable_address loader addr)
                  then record e { function_work = e.function_work ++ addr ∷ [] }
                  else e in
                let (t, ends) =
                  sweep_section-ends fuel decode (add_word addr insn.length) end queued lengths low
                    (omega (arith, far, some_length, h)) in
                (t, rw (inside, new, good, sweep_section) ends)
          ]
        ]
  ]

  sweep_sections-ends :
      (decode : ℕ → Option Instruction) (sections : List (ℕ × ℕ)) (e : Explorer)
      → Decodes decode
      → Low sections
      → (t : Explorer) × (sweep_sections loader decode sections e ≡ some t)
  unfolding sweep_sections Option.bind
  sweep_sections-ends decode [] e lengths low = (e, refl)
  sweep_sections-ends decode ((start, end) ∷ sections) e lengths (low, rest) =
      let (s, swept) =
        sweep_section-ends (end - start) decode start end e lengths low (omega arith) in
      let (t, ends) = sweep_sections-ends decode sections s lengths rest in
      (t, rw (swept, sweep_sections) ends)

  linear_sweep_fallback-ends :
      (decode : ℕ → Option Instruction) (e : Explorer)
      → Decodes decode
      → Low loader.executable_sections
      → (t : Explorer) × (linear_sweep_fallback loader decode e ≡ some t)
  unfolding linear_sweep_fallback Option.bind
  linear_sweep_fallback-ends decode e lengths low =
      let (s, swept) = sweep_sections-ends decode loader.executable_sections e lengths low in
      let (t, ends) =
        drain-ends (drain_fuel loader s) decode (λ pc. true) (λ n f. f) s.function_work s.in_module
          s.visited (λ n f. refl) (omega arith) in
      (t, rw (swept, linear_sweep_fallback) ends)

  mark_function-call_sites : (bypass : Bool) → Marks (mark_function bypass)
  unfolding mark_function mark_for_hybrid_analysis
  mark_function-call_sites true n f = refl
  mark_function-call_sites false n f =
      elim (Bool-cases (not (n == 0) && (f.contains_indirect_calls || f.contains_indirect_jumps))) [
        | inl suspect ↦ rw suspect refl
        | inr clear ↦ rw clear refl
      ]

  -- Static exploration ends, whatever the image holds and whatever cycles its calls and jumps make,
  -- if a decoded instruction has from 1 to 15 bytes and the executable sections end at least 15
  -- bytes below the end of the address space.
  pub static_path_explorer-total :
      (decode : ℕ → Option Instruction) (binary : Binary) (from_address : ℕ) (bypass_heur : Bool)
      (m : Module) (visited : Set ℕ)
      → Decodes decode
      → Low loader.executable_sections
      → (t : Explorer) × (static_path_explorer loader decode binary from_address bypass_heur m
            visited
          ≡ some t)
  unfolding static_path_explorer Option.bind
  static_path_explorer-total decode binary from_address bypass_heur m visited lengths low =
      let work = first_work loader binary from_address m in
      let e : Explorer = record { in_module = m; visited = visited; function_work = work } in
      let (s, drained) =
        drain-ends (drain_fuel loader e) decode (is_executable_address loader)
          (mark_function bypass_heur) work m visited (mark_function-call_sites bypass_heur)
          (omega arith) in
      let (t, ends) = linear_sweep_fallback-ends decode s lengths low in
      (t, rw (drained, static_path_explorer) ends)
