-- ===== src/Tests/Machines.antt =====
-- The theorems on the emulator, at a machine that only keeps registers and memory.
use re_wizard.Prelude.{
  ℕ, String, refl, Bool, true, false, none, some, [], arith, ◌+◌, ◌≡◌, ◌∷◌, ◌==◌, if◌then◌else◌,
}
use re_wizard.Insn.{rax, Instruction, Mnemonic, Category, OperandKind}
use re_wizard.Emulator.{
  Bochs, Parsed, missing, Emulator, initialize, initialize_core, start_core, load_binaries,
  try_load_binary,
}
use re_wizard.Emulator.Memory.{load_binary}
use re_wizard.Emulator.Memory.Pages.{overwritten, load_binary-writes}
use re_wizard.Emulator.Session.{capture, execute, boot_from_disk}
use re_wizard.Emulator.Session.Records.{
  after_run, started, shown_target, execute-delivers, resolve_indirect_target-capture,
}
use re_wizard.Emulator.Session.States.{no_step, call, initializes, Steps-succeeds}
use re_wizard.Emulator.Session.Retry.{LeftEarly, initialize-retries}
use re_wizard.Passes.Hybrid.{resolve_indirect_target}
use re_wizard.Tests.{insn_of, operand_of}

record Toy : Type 0 where
  registers : ℕ → ℕ
  memory : ℕ → ℕ

-- One instruction is run, which moves on by 4; the configuration can be read, or not.
abbrev toy : Bool → Bochs Toy
toy unread = record {
  gen_reg = λ i c. c.registers i;
  set_gen_reg = λ i v c. record c { registers = λ j. if j == i then v else c.registers j };
  write_physical_page = λ address bytes c. record c { memory = overwritten bytes address c.memory };
  get_icount = λ c. 0;
  guard_icount = λ n c. c;
  cpu_loop_debugger = λ c.
      (c ∷ [], record c { registers = λ j. if j == 16 then c.registers 16 + 4 else c.registers j });
  reset = λ c. record c { registers = λ j. 0 };
  start_interface = λ c. c;
  read_configuration = λ lines c. (c, unread);
  processors = λ c. 1;
  cores = λ c. 1;
  threads = λ c. 1;
  load_display = λ c. (c, false);
  init_hardware = λ c. c;
}

abbrev down : Emulator Toy ℕ
down = record {
  core = record { registers = λ i. i; memory = λ a. 0 };
  has_interface = false;
  core_initialized = false;
  cpu_count = 0;
  bridge_producer = none;
  trace_active = false;
  delivered = [];
  impl = record {
    trace_producer = none;
    initialized = false;
    disk_image_path = "";
    ntoskrnl = none;
    hal = none;
    ntdll = none;
    kernel32 = none;
    kernelbase = none;
  };
}

abbrev up : Emulator Toy ℕ
up = record down {
  has_interface = true;
  core_initialized = true;
  cpu_count = 1;
  impl = record down.impl { initialized = true };
}

abbrev traced : Emulator Toy ℕ
traced = record up { bridge_producer = some 1; trace_active = true }

abbrev no_files : String → Parsed ℕ
no_files path = missing

initialize-up : initialize (toy false) no_files down ≡ some (up, true)
unfolding initialize load_binaries start_core initialize_core try_load_binary
initialize-up = refl

abbrev half : Emulator Toy ℕ
half = record down { has_interface = true }

load_binary-writes_example :
    (e' : Emulator Toy ℕ) × (load_binary (toy false) (some (7 ∷ 8 ∷ 9 ∷ [])) 8192 up
      ≡ some (e', true))
    × ((a : ℕ) → e'.core.memory a ≡ overwritten (7 ∷ 8 ∷ 9 ∷ []) 8192 up.core.memory a)
load_binary-writes_example =
    load_binary-writes (toy false) (λ c. c.memory) (λ a. true) (7 ∷ 8 ∷ 9 ∷ []) 8192 up
      (λ c address bytes fits ram a. refl) refl refl refl (omega arith) (λ a lo hi. refl)

execute-delivers_example :
    execute (toy false) 64 5 traced
    ≡ (after_run (toy false) 5 (started (toy false) 64 traced.core) traced, true)
execute-delivers_example = execute-delivers (toy false) 64 5 traced refl refl (omega arith)

abbrev jmp_rax : Instruction
jmp_rax =
    insn_of 16 Mnemonic.jmp Category.uncond_br (operand_of (OperandKind.register rax) false ∷ [])

resolve_indirect_target-capture_example :
    resolve_indirect_target jmp_rax (capture (toy false) traced.core)
    ≡ shown_target (toy false) jmp_rax traced.core
resolve_indirect_target-capture_example =
    resolve_indirect_target-capture (toy false) jmp_rax traced.core

Steps-succeeds_example :
    ((execute (toy false) 64 5 up).1 ≡ true) × ((boot_from_disk (toy false) 5 up).1 ≡ false)
Steps-succeeds_example =
    Steps-succeeds (toy false) {e = down} {e' = up} 64 5
      (record { initialized = refl; core_initialized = refl; inactive = refl })
      (call no_step (initializes no_files true initialize-up))

initialize-retries_example :
    LeftEarly (toy true) down half
    × (e'' : Emulator Toy ℕ) × (initialize (toy true) no_files half ≡ some (e'', true))
    × (e''.core ≡ (toy true).reset half.core)
    × (e''.impl.initialized ≡ true)
unfolding initialize load_binaries start_core initialize_core try_load_binary
initialize-retries_example = initialize-retries (toy true) no_files down half refl
