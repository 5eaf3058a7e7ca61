-- ===== src/Passes/Hybrid/Run/Verified.antt =====
-- What HybridAnalysisPass::Run does to the functions of a module, and that it ends:
-- ReWizardLib/source/Analysis/Passes/HybridAnalysisPass.cpp.
use re_wizard.Prelude.{
  ℕ, zero, suc, String, refl, inl, inr, Bool, true, false, not, Option, none, some, List, [], arith,
  Bool-cases, Option-cases, In, ◌≡◌, ◌∙◌, ◌⊎◌, ◌&&◌, ◌∷◌, ◌==◌, if◌then◌else◌, nat_key,
}
use re_wizard.Prelude.Map.{Map}
use re_wizard.Prelude.Set
use re_wizard.Prelude.Set.{Set}
use re_wizard.Insn.{Instruction}
use re_wizard.Insn.Walk.{IsDecoded}
use re_wizard.Trace.{TraceRecord, TraceReader, get_records_for_pc}
use re_wizard.Units.Function.{Function, add_call_site}
use re_wizard.Units.Function.Indirect.Found.{IsApart, get_indirect_instructions-total}
use re_wizard.Units.Module.{Module}
use re_wizard.Passes.Hybrid.{
  resolve_indirect_target, resolve_records, resolve_indirects, process_opaque_predicates, settle,
  disproven, erase_all,
}
use re_wizard.Passes.Hybrid.Run.{
  obtain_reader, verify_function, verify_functions, explore_targets, run,
}
use re_wizard.Passes.Rebuilder.{Loader, is_within_mapping}
use re_wizard.Passes.Rebuilder.Explorer.{Binary, Explorer, is_in_function, re_analyze_from}
use re_wizard.Passes.Rebuilder.Explorer.Ends.{Decodes, Low, static_path_explorer-total}

-- The same code in the same blocks.
abbrev SameCode : Function → Function → Type 0
SameCode f g = (g.blocks ≡ f.blocks) × (g.start ≡ f.start) × (g.end ≡ f.end)

SameCode-trans : (f g h : Function) → SameCode f g → SameCode g h → SameCode f h
SameCode-trans f g h (b, s, e) (b', s', e') = (b' ∙ b, s' ∙ s, e' ∙ e)

noted-SameCode :
    (unknown : Bool) (f : Function) (site : ℕ × ℕ) (targets more : Set ℕ)
    → SameCode f
        (if◌then◌else◌ {A = Function × Set ℕ} unknown
          (f, targets)
          (add_call_site site.0 site.1 f, more)).0
unfolding add_call_site
noted-SameCode true f site targets more = (refl, refl, refl)
noted-SameCode false f site targets more = (refl, refl, refl)

resolve_records-SameCode :
    (insn : Instruction) (recs : List TraceRecord) (p : Function × Set ℕ)
    → SameCode p.0 (resolve_records insn recs p).0
unfolding resolve_records
resolve_records-SameCode insn [] p = (refl, refl, refl)
resolve_records-SameCode insn (rec ∷ recs) (f, targets) =
    let target = resolve_indirect_target insn rec in
    let p : Function × Set ℕ =
      if target == 0
      then (f, targets)
      else (add_call_site insn.address target f, Set.insert target targets) in
    SameCode-trans f p.0 (resolve_records insn recs p).0
      (noted-SameCode (target == 0) f (insn.address, target) targets (Set.insert target targets))
      (resolve_records-SameCode insn recs p)

resolve_indirects-SameCode :
    (reader : TraceReader) (insns : List Instruction) (p : Function × Set ℕ)
    → SameCode p.0 (resolve_indirects reader insns p).0
unfolding resolve_indirects
resolve_indirects-SameCode reader [] p = (refl, refl, refl)
resolve_indirects-SameCode reader (insn ∷ insns) p =
    let recs = get_records_for_pc reader insn.address in
    let q = resolve_records insn recs p in
    SameCode-trans p.0 q.0 (resolve_indirects reader insns q).0
      (resolve_records-SameCode insn recs p) (resolve_indirects-SameCode reader insns q)

settle-SameCode : (f : Function) (s : Set ℕ) → SameCode f (settle f s)
settle-SameCode f [] = (refl, refl, refl)
settle-SameCode f (a ∷ s) = (refl, refl, refl)

process_opaque_predicates-SameCode :
    (reader : TraceReader) (f : Function) → SameCode f (process_opaque_predicates reader f)
unfolding process_opaque_predicates
process_opaque_predicates-SameCode reader f = ground (
  arith,
  settle-SameCode f
      (erase_all (disproven reader f.opaque_predicate_addresses) f.opaque_predicate_addresses),
)

-- A function before and after the pass.
abbrev pub Verifies : Function → Function → Type 0
Verifies f g =
    ((f.marked_for_hybrid_analysis ≡ false) × (g ≡ f))
    ⊎ ((f.marked_for_hybrid_analysis ≡ true) × (g.hybrid_verified ≡ true) × SameCode f g)

-- Function by function.
abbrev pub AllVerified : List Function → List Function → Type 0
AllVerified [] [] = Unit
AllVerified (f ∷ fs) (g ∷ gs) = Verifies f g × AllVerified fs gs
AllVerified fs gs = ⊥

-- No lookup in a marked function splits a block.
abbrev pub MarkedApart : List Function → Type 0
MarkedApart fs = (f : Function) → In f fs → f.marked_for_hybrid_analysis ≡ true → IsApart f

verify_function-total :
    (reader : TraceReader) (insns : Map ℕ Instruction) (f : Function) (targets : Set ℕ)
    → IsDecoded insns
    → (f.marked_for_hybrid_analysis ≡ true → IsApart f)
    → (g : Function) × (found : Set ℕ) × (verify_function reader insns f targets ≡ some (g, found))
      × Verifies f g
unfolding verify_function
verify_function-total reader insns f targets d apart =
    elim (Bool-cases f.marked_for_hybrid_analysis) [
      | inr plain_one ↦ (f, targets, ground arith, inl (plain_one, refl))
      | inl is_marked ↦
          let (indirects, found, noted) =
            get_indirect_instructions-total insns f d (apart is_marked) in
          let resolved = resolve_indirects reader indirects (f, targets) in
          (
            record (process_opaque_predicates reader resolved.0) { hybrid_verified = true },
            resolved.1,
            ground (arith, found),
            inr (
              is_marked,
              refl,
              SameCode-trans f resolved.0 (process_opaque_predicates reader resolved.0)
                  (resolve_indirects-SameCode reader indirects (f, targets))
                  (process_opaque_predicates-SameCode reader resolved.0),
            ),
          )
    ]

verify_functions-total :
    (reader : TraceReader) (insns : Map ℕ Instruction) (fs : List Function) (targets : Set ℕ)
    → IsDecoded insns
    → MarkedApart fs
    → (gs : List Function) × (more : Set ℕ) × (verify_functions reader insns fs targets
        ≡ some (gs, more))
      × AllVerified fs gs
unfolding verify_functions
verify_functions-total reader insns [] targets d apart = ([], targets, refl, tt)
verify_functions-total reader insns (f ∷ fs) targets d apart =
    let (g, found, e, v) = verify_function-total reader insns f targets d (apart f (inl refl)) in
    let (gs, more, e', vs) =
      verify_functions-total reader insns fs found d (λ h m. apart h (inr m)) in
    (g ∷ gs, more, rw (e, e', verify_functions) refl, (v, vs))

re_analyze_from-total :
    (loader : Loader) (decode : ℕ → Option Instruction) (binary : Binary) (target : ℕ) (m : Module)
    (visited : Set ℕ)
    → Decodes decode
    → Low loader.executable_sections
    → (e : Explorer) × (re_analyze_from loader decode binary target m visited ≡ some e)
unfolding re_analyze_from
re_analyze_from-total loader decode binary zero m visited lengths low = (_, refl)
re_analyze_from-total loader decode binary (suc target) m visited lengths low =
    let (e, ran) =
      static_path_explorer-total loader decode binary (suc target) false m visited lengths low in
    (e, ground (arith, ran))

explore_targets-total :
    (loader : Loader) (decode : ℕ → Option Instruction) (binary : Binary) (targets : List ℕ)
    (m : Module) (visited : Set ℕ)
    → Decodes decode
    → Low loader.executable_sections
    → (r : Module × Set ℕ) × (explore_targets loader decode binary targets m visited ≡ some r)
unfolding explore_targets
explore_targets-total loader decode binary [] m visited lengths low = ((m, visited), refl)
explore_targets-total loader decode binary (target ∷ targets) m visited lengths low =
    elim (Bool-cases (
      is_within_mapping loader target
      && (not (Set.contains target visited) && not (is_in_function m target)))) [
        | inr old ↦
            let (r, e) = explore_targets-total loader decode binary targets m visited lengths low in
            (r, rw old e)
        | inl new ↦
            let (x, explored) =
              re_analyze_from-total loader decode binary target m visited lengths low in
            let (r, e) =
              explore_targets-total loader decode binary targets x.in_module x.visited lengths
                low in
            (r, rw (new, explored) e)
      ]

-- What the pass has done: nothing without a reader; with one, the functions are verified and the
-- targets explored from them.
abbrev pub Ran :
    (String → Option (List TraceRecord))
    → Loader
    → (ℕ → Option Instruction)
    → Binary
    → Option TraceReader
    → String
    → Module
    → Set ℕ
    → Module × Set ℕ
    → Type 0
Ran read_trace loader decode binary reader trace_path m visited r =
    elim (obtain_reader read_trace reader trace_path) [
      | none ↦ r ≡ (m, visited)
      | some reader' ↦
          (gs : List Function) × (targets : Set ℕ) × AllVerified m.functions gs
          × (explore_targets loader decode binary targets (record m { functions = gs }) visited
              ≡ some r)
    ]

-- The pass ends on every trace and module, if the module's instructions are decoded ones, no lookup in
-- a marked function splits a block, a decoded instruction has from 1 to 15 bytes and the executable
-- sections end at least 15 bytes below the end of the address space. Without a reader it changes
-- nothing; with one, before the new targets are explored, every marked function is verified, in the
-- same code, and every other function is as it was.
pub hybrid_run-total :
    (read_trace : String → Option (List TraceRecord)) (loader : Loader)
    (decode : ℕ → Option Instruction) (binary : Binary) (reader : Option TraceReader)
    (trace_path : String) (m : Module) (visited : Set ℕ)
    → IsDecoded m.instructions
    → MarkedApart m.functions
    → Decodes decode
    → Low loader.executable_sections
    → (r : Module × Set ℕ) × (run read_trace loader decode binary reader trace_path m visited
        ≡ some r)
      × Ran read_trace loader decode binary reader trace_path m visited r
unfolding run
hybrid_run-total read_trace loader decode binary reader trace_path m visited d apart lengths low =
    elim (Option-cases (obtain_reader read_trace reader trace_path)) [
      | inl absent ↦ ((m, visited), rw (absent, run) refl, rw (absent, Ran) refl)
      | inr (reader', obtained) ↦
          let (gs, targets, verified, vs) =
            verify_functions-total reader' m.instructions m.functions [] d apart in
          let (r, explored) =
            explore_targets-total loader decode binary targets (record m { functions = gs }) visited
              lengths low in
          (r, rw (obtained, verified, run) explored, rw (obtained, Ran) (gs, targets, vs, explored))
    ]
