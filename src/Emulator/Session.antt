-- ===== src/Emulator/Session.antt =====
-- Execute and BootFromDisk of ReWizardLib/source/Hybrid/BochsExecutor.cpp, with the callback of
-- BochsInstrumentationBridge.cpp that Bochs calls before each instruction.
pub mod Records
pub mod States
pub mod Retry
use re_wizard.Prelude.{
  ℕ, Bool, true, false, not, none, some, List, [], ◌∷◌, ◌++◌, ◌==◌, if◌then◌else◌, nat_key,
}
use text.Mathlib.Text.{◌==◌ as str_eq}
use re_wizard.Prelude.Map
use re_wizard.Prelude.Map.{Map}
use re_wizard.Prelude.Word.{add_word}
use re_wizard.Insn.{Register, r64, register_key}
use re_wizard.Trace.{TraceRecord}
use re_wizard.Emulator.{Bochs, bx_rip, Emulator}

-- The registers that a record holds: ZYDIS_REGISTER_RAX to ZYDIS_REGISTER_R15.
abbrev pub all_registers : List ℕ
all_registers = 0 ∷ 1 ∷ 2 ∷ 3 ∷ 4 ∷ 5 ∷ 6 ∷ 7 ∷ 8 ∷ 9 ∷ 10 ∷ 11 ∷ 12 ∷ 13 ∷ 14 ∷ 15 ∷ []

module _ {C : Type 0} (bochs : Bochs C) where
  -- record.registers[r] = … for the registers of the list, in order.
  unfoldable pub put_registers : List ℕ → C → Map Register ℕ → Map Register ℕ
  put_registers [] c m = m
  put_registers (i ∷ is) c m = put_registers is c (Map.insert (r64 i) (bochs.gen_reg i c) m)

  -- The record that bx_instr_before_execution builds.
  unfoldable pub capture : C → TraceRecord
  unfolding put_registers
  capture c = record {
    pc = bochs.gen_reg bx_rip c;
    registers = put_registers all_registers c [];
    memory_accesses = [];
  }

module _ {C B : Type 0} (bochs : Bochs C) where
  unfoldable pub before_execution : C → Emulator C B → Emulator C B
  unfolding capture
  before_execution c e = if not e.trace_active then e else elim e.bridge_producer [
    | none ↦ e
    | some producer ↦ record e { delivered = e.delivered ++ (producer, capture bochs c) ∷ [] }
  ]

  -- The callback for every instruction that Bochs runs.
  unfoldable pub instrument : List C → Emulator C B → Emulator C B
  unfolding before_execution
  instrument [] e = e
  instrument (c ∷ cs) e = instrument cs (before_execution c e)

  -- The guard on the instruction count, and the loop of the debugger until it is met.
  unfoldable pub run_guarded : ℕ → Emulator C B → Emulator C B
  unfolding instrument
  run_guarded count e =
      let (befores, last) =
        bochs.cpu_loop_debugger
          (bochs.guard_icount (add_word (bochs.get_icount e.core) count) e.core) in
      record (instrument befores e) { core = last }

  unfoldable pub execute : ℕ → ℕ → Emulator C B → Emulator C B × Bool
  unfolding run_guarded
  execute start max_instructions e =
      let started =
        if start == 0 then e else record e { core = bochs.set_gen_reg bx_rip start e.core } in
      if not e.impl.initialized
      then (e, false)
      else if not e.core_initialized
      then (e, false)
      else if max_instructions == 0
      then (started, true)
      else (run_guarded max_instructions started, true)

  unfoldable pub boot_from_disk : ℕ → Emulator C B → Emulator C B × Bool
  unfolding run_guarded
  boot_from_disk max_instructions e =
      if not e.impl.initialized
      then (e, false)
      else if not e.core_initialized
      then (e, false)
      else if str_eq e.impl.disk_image_path ""
      then (e, false)
      else if max_instructions == 0
      then (e, true)
      else (run_guarded max_instructions e, true)
