-- ===== src/Emulator/Session/States.antt =====
-- The states that the calls of an executor lead through:
-- ReWizardLib/source/Hybrid/BochsExecutor.cpp and BochsInstrumentationBridge.cpp.
use re_wizard.Prelude.{
  ℕ, String, refl, ap, inl, inr, Bool, true, false, not, Option, none, some, List, [], arith,
  Bool-cases, Option-cases, length, ◌≡◌, ◌∙◌, ◌&&◌, ◌==◌,
}
use text.Mathlib.Text.{◌==◌ as str_eq}
use mathlib.Core.Path.{subst}
use mathlib.Core.Option.{some-injective}
use re_wizard.Insn.{Register}
use re_wizard.Emulator.{
  Bochs, Parsed, Impl, Emulator, load_binaries, shutdown, destroy, set_trace_producer,
  set_bochs_trace_producer, set_bochs_trace_active, set_disk_image, initialize_core, start_core,
  initialize,
}
use mathlib.Core.List.{append-nil}
use re_wizard.Emulator.Memory.{write_pages, load_binary, set_register, snapshot, restore}
use re_wizard.Emulator.Session.{execute, boot_from_disk, run_guarded, instrument}
use re_wizard.Emulator.Session.Records.{records, instrument_at, run_of, started}

-- Before any call: no Bochs, nothing initialised.
pub record IsFresh {C B : Type 0} (e : Emulator C B) : Type 0 where
  pub initialized : e.impl.initialized ≡ false
  pub core_initialized : e.core_initialized ≡ false
  pub inactive : e.trace_active ≡ false

-- A call of a method of the executor.
pub data Call {C B : Type 0} (bochs : Bochs C) (e e' : Emulator C B) : Type 0 where
  initializes :
      (files : String → Parsed B) (ok : Bool)
      → initialize bochs files e ≡ some (e', ok)
      → Call bochs e e'
  shuts_down : shutdown e ≡ e' → Call bochs e e'
  is_destroyed : destroy e ≡ e' → Call bochs e e'
  loads :
      (bytes : Option (List ℕ)) (base : ℕ) (ok : Bool)
      → load_binary bochs bytes base e ≡ some (e', ok)
      → Call bochs e e'
  sets : (reg : Register) (value : ℕ) → (set_register bochs reg value e).0 ≡ e' → Call bochs e e'
  executes :
      (start max_instructions : ℕ)
      → (execute bochs start max_instructions e).0 ≡ e'
      → Call bochs e e'
  boots :
      (max_instructions : ℕ) → (boot_from_disk bochs max_instructions e).0 ≡ e' → Call bochs e e'
  takes_producer : (producer : Option ℕ) → set_trace_producer producer e ≡ e' → Call bochs e e'
  takes_disk : (path : String) → set_disk_image path e ≡ e' → Call bochs e e'
  snapshots : (snapshot e).0 ≡ e' → Call bochs e e'
  restores : (restore e).0 ≡ e' → Call bochs e e'

-- Any number of calls.
pub data Calls {C B : Type 0} (bochs : Bochs C) (e : Emulator C B) : Emulator C B → Type 0 where
  no_call : Calls bochs e e
  more : {e' e'' : Emulator C B} → Calls bochs e e' → Call bochs e' e'' → Calls bochs e e''

-- Calls of the executor and of the two functions of the bridge.
pub data Steps {C B : Type 0} (bochs : Bochs C) (e : Emulator C B) : Emulator C B → Type 0 where
  no_step : Steps bochs e e
  call : {e' e'' : Emulator C B} → Steps bochs e e' → Call bochs e' e'' → Steps bochs e e''
  attach :
      {e' : Emulator C B} (p : Option ℕ)
      → Steps bochs e e'
      → Steps bochs e (set_bochs_trace_producer p e')
  activate :
      {e' : Emulator C B} (a : Bool)
      → Steps bochs e e'
      → Steps bochs e (set_bochs_trace_active a e')

load_binaries-initialized :
    {B : Type 0} (files : String → Parsed B) (i i' : Impl B)
    → load_binaries files i ≡ some i'
    → i'.initialized ≡ i.initialized
unfolding load_binaries
load_binaries-initialized files i i' h = ground arith

-- An executor that is initialised stands on an initialised core.
abbrev IsReady : {C B : Type 0} → Emulator C B → Type 0
IsReady e = e.impl.initialized ≡ true → e.core_initialized ≡ true

-- What a call keeps: that, whether tracing is on, and while it is off what was handed out.
record Keeps {C B : Type 0} (e e' : Emulator C B) : Type 0 where
  ready : IsReady e → IsReady e'
  tracing : e'.trace_active ≡ e.trace_active
  quiet : e.trace_active ≡ false → e'.delivered ≡ e.delivered

records_quiet :
    {C : Type 0} (bochs : Bochs C) (producer : Option ℕ) (active : Bool) (cs : List C)
    → active ≡ false
    → records bochs producer active cs ≡ []
records_quiet bochs none active cs h = refl
records_quiet bochs (some producer) false cs h = refl
records_quiet bochs (some producer) true cs h = absurd (cc)

module _ {C B : Type 0} (bochs : Bochs C) where
  start_core-Keeps : (e : Emulator C B) → Keeps e (start_core bochs e).0
  unfolding start_core initialize_core
  start_core-Keeps e = ground arith

  initialize-Keeps :
      (files : String → Parsed B) (e e' : Emulator C B) (ok : Bool)
      → initialize bochs files e ≡ some (e', ok)
      → Keeps e e'
  unfolding initialize
  initialize-Keeps files e e' ok h = elim (Option-cases (load_binaries files e.impl)) [
    | inl fault ↦ ground arith
    | inr (impl, loaded) ↦
        let same_flag = load_binaries-initialized files e.impl impl loaded in
        let k = start_core-Keeps (record e { impl = impl }) in
        ground (arith, k.ready, k.tracing, k.quiet)
  ]

  instrument-Keeps : (cs : List C) (e : Emulator C B) → Keeps e (instrument bochs cs e)
  instrument-Keeps cs e =
      rw (instrument_at bochs cs e e.bridge_producer e.trace_active refl refl) (record {
        ready = λ r. r;
        tracing = refl;
        quiet = λ off.
            rw (records_quiet bochs e.bridge_producer e.trace_active cs off)
              (append-nil e.delivered);
      })

  execute-Keeps : (start count : ℕ) (e : Emulator C B) → Keeps e (execute bochs start count e).0
  unfolding execute run_guarded
  execute-Keeps start count e =
      let e1 = record e { core = started bochs start e.core } in
      let k = instrument-Keeps (run_of bochs count e1.core).0 e1 in
      elim (Bool-cases (start == 0)) [
        | inl stay ↦ ground (arith, k.ready, k.tracing, k.quiet)
        | inr jump ↦ ground (arith, k.ready, k.tracing, k.quiet)
      ]

  boot_from_disk-Keeps : (count : ℕ) (e : Emulator C B) → Keeps e (boot_from_disk bochs count e).0
  unfolding boot_from_disk run_guarded
  boot_from_disk-Keeps count e =
      let k = instrument-Keeps (run_of bochs count e.core).0 e in
      ground (arith, k.ready, k.tracing, k.quiet)

  load_binary-Keeps :
      (bytes : Option (List ℕ)) (base : ℕ) (e e' : Emulator C B) (ok : Bool)
      → load_binary bochs bytes base e ≡ some (e', ok)
      → Keeps e e'
  unfolding load_binary
  load_binary-Keeps none base e e' ok h =
      let same : e ≡ e' = ap (λ x. x.0) (some-injective _ _ h) in
      subst (Keeps e) same (record { ready = λ r. r; tracing = refl; quiet = λ off. refl })
  load_binary-Keeps (some bytes) base e e' ok h =
      elim (Option-cases (write_pages bochs (length bytes) bytes base 0 e.core)) [
        | inl stuck ↦ ground arith
        | inr (c, done) ↦ ground arith
      ]

  Call-Keeps : {e e' : Emulator C B} → Call bochs e e' → Keeps e e'
  unfolding shutdown destroy set_trace_producer set_disk_image snapshot restore set_register
  Call-Keeps {e} {e'} (initializes files ok h) = initialize-Keeps files e e' ok h
  Call-Keeps (shuts_down h) = ground arith
  Call-Keeps (is_destroyed h) = ground arith
  Call-Keeps {e} {e'} (loads bytes base ok h) = load_binary-Keeps bytes base e e' ok h
  Call-Keeps (sets reg value h) = ground arith
  Call-Keeps {e} (executes from n h) = subst (Keeps e) h (execute-Keeps from n e)
  Call-Keeps {e} (boots n h) = subst (Keeps e) h (boot_from_disk-Keeps n e)
  Call-Keeps (takes_producer p h) = ground arith
  Call-Keeps (takes_disk path h) = ground arith
  Call-Keeps (snapshots h) = ground arith
  Call-Keeps (restores h) = ground arith

  Steps-IsReady : {e e' : Emulator C B} → IsFresh e → Steps bochs e e' → IsReady e'
  unfolding set_bochs_trace_producer set_bochs_trace_active
  Steps-IsReady f no_step = λ up. absurd (cc (up, f.initialized))
  Steps-IsReady f (call steps c) = (Call-Keeps c).ready (Steps-IsReady f steps)
  Steps-IsReady f (attach p steps) = Steps-IsReady f steps
  Steps-IsReady f (activate a steps) = Steps-IsReady f steps

  -- After any calls of the executor and of the bridge, from a state with nothing initialised,
  -- Execute succeeds exactly when the executor is initialised, and BootFromDisk exactly when it is
  -- and a disk image is set: the later test of the core in both never fails.
  pub Steps-succeeds :
      {e e' : Emulator C B} (from count : ℕ)
      → IsFresh e
      → Steps bochs e e'
      → ((execute bochs from count e').1 ≡ e'.impl.initialized)
        × ((boot_from_disk bochs count e').1
            ≡ (e'.impl.initialized && not (str_eq e'.impl.disk_image_path "")))
  unfolding execute boot_from_disk
  Steps-succeeds from count f steps =
      let r = Steps-IsReady f steps in (ground (arith, r), ground (arith, r))

  Calls-off : {e e' : Emulator C B} → IsFresh e → Calls bochs e e' → e'.trace_active ≡ false
  Calls-off f no_call = f.inactive
  Calls-off f (more calls c) = (Call-Keeps c).tracing ∙ Calls-off f calls

  -- Calls of the methods of the executor alone, from a state with nothing initialised, hand no record
  -- to a producer, whatever producer was set.
  pub Calls-quiet :
      {e e' : Emulator C B} → IsFresh e → Calls bochs e e' → e'.delivered ≡ e.delivered
  Calls-quiet f no_call = refl
  Calls-quiet f (more calls c) = (Call-Keeps c).quiet (Calls-off f calls) ∙ Calls-quiet f calls
