-- ===== src/Emulator/Session/Records.antt =====
-- What the producer is handed while the emulator runs:
-- ReWizardLib/source/Hybrid/BochsInstrumentationBridge.cpp and BochsExecutor.cpp, and what
-- HybridAnalysisPass::ResolveIndirectTarget reads in it.
use re_wizard.Prelude.{
  ℕ, refl, ap, inl, inr, Bool, true, false, not, Option, none, some, List, [], map, arith, ltb,
  Bool-cases, any, ◌<◌, ◌≡◌, ◌∙◌, ◌∷◌, ◌++◌, ◌==◌, if◌then◌else◌, nat_key,
}
use mathlib.Core.List.{append-nil, append_assoc}
use re_wizard.Prelude.Map
use re_wizard.Prelude.Map.{Map, find-insert}
use re_wizard.Prelude.Word.{add_word}
use re_wizard.Insn.{Register, r64, reg_beq, register_key, Instruction, OperandKind, operand}
use re_wizard.Trace.{TraceRecord}
use re_wizard.Passes.Hybrid.{resolve_indirect_target, is_transfer, first_read}
use re_wizard.Emulator.{Bochs, bx_rip, Emulator}
use re_wizard.Emulator.Session.{
  all_registers, put_registers, capture, before_execution, instrument, run_guarded, execute,
}

module _ {C : Type 0} (bochs : Bochs C) where
  find-put_registers :
      (is : List ℕ) (c : C) (m : Map Register ℕ) (i : ℕ)
      → Map.find (r64 i) (put_registers bochs is c m)
        ≡ (if any (λ j. j == i) is then some (bochs.gen_reg i c) else Map.find (r64 i) m)
  unfolding put_registers any
  find-put_registers [] c m i = refl
  find-put_registers (j ∷ is) c m i = ground (
    arith,
    find-put_registers is c (Map.insert (r64 j) (bochs.gen_reg j c) m) i,
    find-insert (r64 j) (r64 i) (bochs.gen_reg j c) m,
  )

  abbrev is_r64 : Register → Bool
  is_r64 (r64 i) = true
  is_r64 r = false

  not_r64 : (j : ℕ) (r : Register) → is_r64 r ≡ false → reg_beq (r64 j) r ≡ false
  not_r64 j (r64 i) h = absurd (cc)
  not_r64 j r h = ground arith

  find-put_registers_other :
      (is : List ℕ) (c : C) (m : Map Register ℕ) (r : Register)
      → is_r64 r ≡ false
      → Map.find r (put_registers bochs is c m) ≡ Map.find r m
  unfolding put_registers
  find-put_registers_other [] c m r h = refl
  find-put_registers_other (j ∷ is) c m r h =
      find-put_registers_other is c (Map.insert (r64 j) (bochs.gen_reg j c) m) r h
      ∙ (find-insert (r64 j) r (bochs.gen_reg j c) m ∙ rw (not_r64 j r h) refl)

  -- The value of a register that a record holds: those of 64 bits, without RIP.
  abbrev pub captured : C → Register → Option ℕ
  captured c (r64 i) = if ltb i 16 then some (bochs.gen_reg i c) else none
  captured c r = none

  find-capture : (c : C) (r : Register) → Map.find r (capture bochs c).registers ≡ captured c r
  unfolding capture Map.find any
  find-capture c (r64 i) = find-put_registers all_registers c [] i ∙ ground arith
  find-capture c r = find-put_registers_other all_registers c [] r (ground arith) ∙ refl

-- What a record of the emulator shows of the target of an indirect call or jump: a register of 64
-- bits other than RIP that is its operand had this value right before the instruction.
abbrev pub shown_target : {C : Type 0} → Bochs C → Instruction → C → ℕ
shown_target bochs insn c =
    if not (is_transfer insn.mnemonic)
    then 0
    else if insn.operand_count == 0
    then 0
    else elim (operand insn 0).kind [
      | OperandKind.register r ↦ elim (captured bochs c r) [ none ↦ 0 | some value ↦ value ]
      | _ ↦ 0
    ]

resolve-kind :
    {C : Type 0} (bochs : Bochs C) (insn : Instruction) (c : C) (k : OperandKind)
    → (operand insn 0).kind ≡ k
    → resolve_indirect_target insn (capture bochs c) ≡ shown_target bochs insn c
unfolding resolve_indirect_target capture first_read
resolve-kind bochs insn c (OperandKind.register r) h = ground (arith, find-capture bochs c r)
resolve-kind bochs insn c k h = ground arith

-- The hybrid analysis resolves from a record that the bridge has captured the value of the register
-- operand right before the instruction, and nothing for an operand in memory.
pub resolve_indirect_target-capture :
    {C : Type 0} (bochs : Bochs C) (insn : Instruction) (c : C)
    → resolve_indirect_target insn (capture bochs c) ≡ shown_target bochs insn c
resolve_indirect_target-capture bochs insn c = resolve-kind bochs insn c (operand insn 0).kind refl

-- The records of a run that passes the states.
abbrev pub records : {C : Type 0} → Bochs C → Option ℕ → Bool → List C → List (ℕ × TraceRecord)
records bochs none active cs = []
records bochs (some producer) false cs = []
records bochs (some producer) true cs = map (λ c. (producer, capture bochs c)) cs

module _ {C B : Type 0} (bochs : Bochs C) where
  abbrev handed : C → Emulator C B → ℕ → Emulator C B
  handed c e producer = record e { delivered = e.delivered ++ (producer, capture bochs c) ∷ [] }

  before_idle :
      (c : C) (e : Emulator C B) → e.bridge_producer ≡ none → before_execution bochs c e ≡ e
  unfolding before_execution
  before_idle c e hp = ground arith

  before_inactive :
      (c : C) (e : Emulator C B) → e.trace_active ≡ false → before_execution bochs c e ≡ e
  unfolding before_execution
  before_inactive c e ha = ground arith

  before_active :
      (c : C) (e : Emulator C B) (producer : ℕ)
      → e.trace_active ≡ true
      → e.bridge_producer ≡ some producer
      → before_execution bochs c e ≡ handed c e producer
  unfolding before_execution
  before_active c e producer ha hp = simp (ha, hp)

  pub instrument_at :
      (cs : List C) (e : Emulator C B) (producer : Option ℕ) (active : Bool)
      → e.bridge_producer ≡ producer
      → e.trace_active ≡ active
      → instrument bochs cs e
        ≡ record e { delivered = e.delivered ++ records bochs producer active cs }
  unfolding instrument
  instrument_at [] e none active hp ha = rw append-nil refl
  instrument_at [] e (some producer) false hp ha = rw append-nil refl
  instrument_at [] e (some producer) true hp ha = rw append-nil refl
  instrument_at (c ∷ cs) e none active hp ha =
      ap (instrument bochs cs) (before_idle c e hp) ∙ instrument_at cs e none active hp ha
  instrument_at (c ∷ cs) e (some producer) false hp ha =
      ap (instrument bochs cs) (before_inactive c e ha)
      ∙ instrument_at cs e (some producer) false hp ha
  instrument_at (c ∷ cs) e (some producer) true hp ha =
      ap (instrument bochs cs) (before_active c e producer ha hp)
      ∙ (instrument_at cs (handed c e producer) (some producer) true hp ha
          ∙ ap (λ l. record e { delivered = l }) (append_assoc e.delivered _ _))

module _ {C : Type 0} (bochs : Bochs C) where
  -- The states right before the instructions of a run, and the one behind it.
  abbrev pub run_of : ℕ → C → List C × C
  run_of count c =
      bochs.cpu_loop_debugger (bochs.guard_icount (add_word (bochs.get_icount c) count) c)

  -- The state of Bochs in which Execute starts to run.
  abbrev pub started : ℕ → C → C
  started start c = if start == 0 then c else bochs.set_gen_reg bx_rip start c

module _ {C B : Type 0} (bochs : Bochs C) where
  -- The emulator after a run for which Bochs starts in the state `c`.
  abbrev pub after_run : ℕ → C → Emulator C B → Emulator C B
  after_run count c e = record e {
    core = (run_of bochs count c).1;
    delivered =
        e.delivered ++ records bochs e.bridge_producer e.trace_active (run_of bochs count c).0;
  }

  pub run_guarded-after_run :
      (count : ℕ) (e : Emulator C B) → run_guarded bochs count e ≡ after_run count e.core e
  unfolding run_guarded
  run_guarded-after_run count e =
      ap (λ (e' : Emulator C B). record e' { core = (run_of bochs count e.core).1 })
        (instrument_at bochs (run_of bochs count e.core).0 e e.bridge_producer e.trace_active refl
          refl)

  execute-runs :
      (start max_instructions : ℕ) (e : Emulator C B)
      → e.impl.initialized ≡ true
      → e.core_initialized ≡ true
      → 0 < max_instructions
      → execute bochs start max_instructions e ≡ (
        run_guarded bochs max_instructions (record e { core = started bochs start e.core }),
        true,
      )
  unfolding execute
  execute-runs start max_instructions e hi hc hm = elim (Bool-cases (start == 0)) [
    | inl stay ↦ ground arith
    | inr jump ↦ ground arith
  ]

  -- Execute of an initialised emulator, for at least one instruction: it hands the producer one
  -- record for each instruction that Bochs runs, in order, if tracing is on and there is one, and
  -- nothing otherwise; besides it changes only the state of Bochs.
  pub execute-delivers :
      (start max_instructions : ℕ) (e : Emulator C B)
      → e.impl.initialized ≡ true
      → e.core_initialized ≡ true
      → 0 < max_instructions
      → execute bochs start max_instructions e
        ≡ (after_run max_instructions (started bochs start e.core) e, true)
  execute-delivers start max_instructions e hi hc hm =
      execute-runs start max_instructions e hi hc hm
      ∙ ap (λ (e' : Emulator C B). (e', true))
          (run_guarded-after_run max_instructions (record e { core = started bochs start e.core }))
