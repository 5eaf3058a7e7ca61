-- ===== src/Emulator/Session/Retry.antt =====
-- A second Initialize after one that failed: ReWizardLib/source/Hybrid/BochsExecutor.cpp.
use mathlib.Core.Path.{subst}
use re_wizard.Prelude.{String, ap, inl, inr, true, false, some, arith, Option-cases, ◌≡◌, ◌⊎◌}
use re_wizard.Emulator.{
  Bochs, Parsed, Impl, Emulator, load_binaries, bochsrc, initialize_core, start_core, initialize,
}

-- The images of `i` in the place of those of `j`.
reloaded : {B : Type 0} → Impl B → Impl B → Impl B
reloaded j i = record j {
  ntoskrnl = i.ntoskrnl;
  hal = i.hal;
  ntdll = i.ntdll;
  kernel32 = i.kernel32;
  kernelbase = i.kernelbase;
}

-- The same files are loaded a second time.
load_binaries-again :
    {B : Type 0} (files : String → Parsed B) (i i' j : Impl B)
    → load_binaries files i ≡ some i'
    → load_binaries files j ≡ some (reloaded j i')
unfolding load_binaries reloaded
load_binaries-again files i i' j h = ground arith

load_binaries_path :
    {B : Type 0} (files : String → Parsed B) (i i' : Impl B)
    → load_binaries files i ≡ some i'
    → i'.disk_image_path ≡ i.disk_image_path
unfolding load_binaries
load_binaries_path files i i' h = ground arith

module _ {C B : Type 0} (bochs : Bochs C) where
  -- Bochs as the options leave it that are read after the start of the interface.
  abbrev pub read_core : Emulator C B → C
  read_core e =
      (bochs.read_configuration (bochsrc e.impl.disk_image_path) (bochs.start_interface e.core)).0

  -- Bochs was left behind the options or behind the display library, with its hardware not set up.
  abbrev pub LeftEarly : Emulator C B → Emulator C B → Type 0
  LeftEarly e e' = (e'.core ≡ read_core e) ⊎ (e'.core ≡ (bochs.load_display (read_core e)).0)

  -- The core is initialised only where Initialize succeeds, but the interface is there either way.
  start_core_fails :
      (e e' : Emulator C B)
      → start_core bochs e ≡ (e', false)
      → (e'.core_initialized ≡ false) × (e'.has_interface ≡ true) × LeftEarly e e'
  unfolding start_core initialize_core
  start_core_fails e e' h = ground arith

  start_core_retries :
      (e : Emulator C B)
      → e.core_initialized ≡ false
      → e.has_interface ≡ true
      → ((start_core bochs e).1 ≡ true)
        × ((start_core bochs e).0.core ≡ bochs.reset e.core)
        × ((start_core bochs e).0.impl.initialized ≡ true)
  unfolding start_core
  start_core_retries e hc hi = ground arith

  -- Where Initialize fails, Bochs is as reading the options or loading the display library leaves it,
  -- without init_hardware, and a second call with the same files succeeds: all it does with Bochs is
  -- one reset.
  pub initialize-retries :
      (files : String → Parsed B) (e e' : Emulator C B)
      → initialize bochs files e ≡ some (e', false)
      → LeftEarly e e'
        × (e'' : Emulator C B) × (initialize bochs files e' ≡ some (e'', true))
        × (e''.core ≡ bochs.reset e'.core)
        × (e''.impl.initialized ≡ true)
  unfolding initialize
  initialize-retries files e e' h = elim (Option-cases (load_binaries files e.impl)) [
    | inl fault ↦ ground arith
    | inr (impl, loaded) ↦
        let (down, there, early) = start_core_fails (record e { impl = impl }) e' (ground arith) in
        let impl' = reloaded e'.impl impl in
        let e1 = record e' { impl = impl' } in
        let (ok, core, up) = start_core_retries e1 down there in
        let again = load_binaries-again files e.impl impl e'.impl loaded in
        let left = λ (path : String).
          let read = (bochs.read_configuration (bochsrc path) (bochs.start_interface e.core)).0 in
          (e'.core ≡ read) ⊎ (e'.core ≡ (bochs.load_display read).0) in
        (
          subst left (load_binaries_path files e.impl impl loaded) early,
          (start_core bochs e1).0,
          rw again (ap some (ap (λ b. ((start_core bochs e1).0, b)) ok)),
          core,
          up,
        )
  ]
