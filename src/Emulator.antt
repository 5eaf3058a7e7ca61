-- ===== src/Emulator.antt =====
-- ReWizardLib/source/Hybrid/BochsExecutor.cpp and BochsInstrumentationBridge.cpp: the emulator as an
-- executor of the library drives it. Bochs and LIEF are parameters: `C` is the state of Bochs, `B` a
-- parsed PE image. The log is left out, and the
-- directory of the system's binaries is part of the function that reads them.
pub mod Memory
pub mod Session
use re_wizard.Prelude.{
  ℕ, String, Bool, true, false, Option, none, some, List, [], ltb, ◌*◌, ◌%◌, ◌∷◌, ◌++◌, ◌==◌,
  if◌then◌else◌, ◌>>=◌,
}
use text.Mathlib.Text.{◌==◌ as str_eq}
use Prim.Native.String.{◌++◌ as str_append}
use re_wizard.Prelude.Map
use re_wizard.Prelude.Word.{word_mod}
use re_wizard.Insn.{Register, rip, r64, register_key}
use re_wizard.Trace.{TraceRecord}

-- What the executor calls of Bochs. The loop of the debugger yields the states right before each
-- instruction that it runs, and the last state; a test yields true where the call fails.
pub record Bochs (C : Type 0) : Type 0 where
  pub gen_reg : ℕ → C → ℕ
  pub set_gen_reg : ℕ → ℕ → C → C
  pub write_physical_page : ℕ → List ℕ → C → C
  pub get_icount : C → ℕ
  pub guard_icount : ℕ → C → C
  pub cpu_loop_debugger : C → List C × C
  pub reset : C → C
  pub start_interface : C → C
  pub read_configuration : List String → C → C × Bool
  pub processors : C → ℕ
  pub cores : C → ℕ
  pub threads : C → ℕ
  pub load_display : C → C × Bool
  pub init_hardware : C → C

-- The places in gen_reg: BX_64BIT_REG_RAX to BX_64BIT_REG_R15 in the order of the instruction set,
-- and BX_64BIT_REG_RIP behind them.
abbrev pub bx_rip : ℕ
bx_rip = 16

-- `none` is -1.
unfoldable pub zydis_to_bochs_reg : Register → Option ℕ
zydis_to_bochs_reg (r64 n) = if ltb n 16 then some n else none
zydis_to_bochs_reg rip = some bx_rip
zydis_to_bochs_reg r = none

-- What std::filesystem and LIEF make of a path; `no_image` is the null pointer that LIEF returns for
-- a file that is no PE image.
pub data Parsed (B : Type 0) : Type 0 where
  missing no_image raised : Parsed B
  image : B → Parsed B

-- BochsExecutor::Impl
pub record Impl (B : Type 0) : Type 0 where
  pub trace_producer : Option ℕ
  pub initialized : Bool
  pub disk_image_path : String
  pub ntoskrnl : Option B
  pub hal : Option B
  pub ntdll : Option B
  pub kernel32 : Option B
  pub kernelbase : Option B

-- The state of Bochs with the globals of the two files, and the executor. A producer is known by a
-- number, and has been handed `delivered`.
pub record Emulator (C B : Type 0) : Type 0 where
  pub core : C
  -- SIM != nullptr
  pub has_interface : Bool
  pub core_initialized : Bool
  pub cpu_count : ℕ
  pub bridge_producer : Option ℕ
  pub trace_active : Bool
  pub delivered : List (ℕ × TraceRecord)
  pub impl : Impl B

-- tryLoadBinary; the outer `none` is the dereference of a null pointer.
unfoldable pub try_load_binary : {B : Type 0} → Parsed B → Option (Option B)
try_load_binary missing = some none
try_load_binary no_image = none
try_load_binary raised = some none
try_load_binary (image b) = some (some b)

-- The lines of rewizard_minimal.bochsrc.
unfoldable pub bochsrc : String → List String
bochsrc disk_image =
    "cpu: model=corei7_haswell_4770, count=1, ips=50000000, reset_on_triple_fault=1, ignore_bad_msrs=1"
    ∷ "memory: guest=512, host=256"
    ∷ "romimage: file=\"Z:/bochs/bochs-3.0-msvc-src/bochs-3.0/bios/BIOS-bochs-latest\", options=fastboot"
    ∷ "vgaromimage: file=\"Z:/bochs/bochs-3.0-msvc-src/bochs-3.0/bios/VGABIOS-lgpl-latest.bin\""
    ∷ "display_library: nogui"
    ∷ "vga: extension=vbe, update_freq=5, realtime=1"
    ∷ "mouse: enabled=0"
    ∷ "pci: enabled=1, chipset=i440fx"
    ∷ "clock: sync=none, time0=local"
    ∷ ((if str_eq disk_image ""
          then "ata0: enabled=1, ioaddr1=0x1f0, ioaddr2=0x3f0, irq=14" ∷ []
          else str_append (str_append "floppya: 1_44=\"" disk_image) "\", status=inserted"
            ∷ "boot: floppy"
            ∷ [])
        ++ "log: -" ∷ "panic: action=report" ∷ [])

-- bx_cpu_count, a byte.
abbrev pub count_cpus : ℕ → ℕ
count_cpus n = if n % 256 == 0 then 1 else n % 256

module _ {C B : Type 0} where
  abbrev pub ready : Emulator C B → Emulator C B × Bool
  ready e = (record e { impl = record e.impl { initialized = true } }, true)

  unfoldable pub shutdown : Emulator C B → Emulator C B
  shutdown e = record e {
    impl = record e.impl {
      ntoskrnl = none;
      hal = none;
      ntdll = none;
      kernel32 = none;
      kernelbase = none;
      initialized = false;
    };
  }

  -- ~BochsExecutor
  unfoldable pub destroy : Emulator C B → Emulator C B
  unfolding shutdown
  destroy e = if e.impl.initialized then shutdown e else e

  unfoldable pub set_trace_producer : Option ℕ → Emulator C B → Emulator C B
  set_trace_producer producer e = record e {
    impl = record e.impl { trace_producer = producer };
    bridge_producer = producer;
  }

  -- ReWizard_SetBochsTraceProducer and ReWizard_SetBochsTraceActive
  unfoldable pub set_bochs_trace_producer : Option ℕ → Emulator C B → Emulator C B
  set_bochs_trace_producer producer e = record e { bridge_producer = producer }

  unfoldable pub set_bochs_trace_active : Bool → Emulator C B → Emulator C B
  set_bochs_trace_active active e = record e { trace_active = active }

  unfoldable pub set_disk_image : String → Emulator C B → Emulator C B
  set_disk_image path e = record e { impl = record e.impl { disk_image_path = path } }

-- The first part of Initialize: the five binaries.
unfoldable pub load_binaries : {B : Type 0} → (String → Parsed B) → Impl B → Option (Impl B)
unfolding try_load_binary
load_binaries files impl = do
  ntoskrnl ← try_load_binary (files "ntoskrnl.exe")
  hal ← try_load_binary (files "hal.dll")
  ntdll ← try_load_binary (files "ntdll.dll")
  kernel32 ← try_load_binary (files "kernel32.dll")
  kernelbase ← try_load_binary (files "kernelbase.dll")
  some (record impl {
    ntoskrnl = ntoskrnl;
    hal = hal;
    ntdll = ntdll;
    kernel32 = kernel32;
    kernelbase = kernelbase;
  })

module _ {C B : Type 0} (bochs : Bochs C) where
  -- The branch of Initialize for a process without Bochs; true is success.
  unfoldable pub initialize_core : Emulator C B → Emulator C B × Bool
  unfolding bochsrc
  initialize_core e =
      let (read, unread) =
        bochs.read_configuration (bochsrc e.impl.disk_image_path) (bochs.start_interface e.core) in
      let (shown, hidden) = bochs.load_display read in
      let count = count_cpus (bochs.processors read * bochs.cores read * bochs.threads read) in
      if unread
      then (record e { core = read; has_interface = true }, false)
      else if hidden
      then (record e { core = shown; has_interface = true; cpu_count = count }, false)
      else ready (record e {
        core = bochs.init_hardware shown;
        has_interface = true;
        cpu_count = count;
        core_initialized = true;
      })

  unfoldable pub start_core : Emulator C B → Emulator C B × Bool
  unfolding initialize_core
  start_core e =
      if e.core_initialized
      then ready e
      else if e.has_interface
      then ready (record e { core = bochs.reset e.core; core_initialized = true })
      else initialize_core e

  unfoldable pub initialize : (String → Parsed B) → Emulator C B → Option (Emulator C B × Bool)
  unfolding load_binaries start_core
  initialize files e = do
    impl ← load_binaries files e.impl
    some (start_core (record e { impl = impl }))
