-- ===== src/Tests/Contexts.antt =====
-- The theorems on the loading of a file, on contexts and on the hybrid pass, at small samples.
use re_wizard.Prelude.{
  ℕ, String, refl, sym, inl, inr, Bool, true, false, Option, none, some, List, [], map, arith, ◌≡◌,
  ◌∷◌, nat_key, string_key,
}
use mathlib.Core.Path.{subst}
use re_wizard.Insn.{Register, Instruction, rax, Mnemonic, Category, OperandKind}
use re_wizard.Trace.{TraceRecord, load as load_trace}
use re_wizard.Trace.Parse.{register_named, load_json}
use re_wizard.Trace.Parse.RoundTrip.{record_json, load_json-record_json}
use re_wizard.Report.Values.{list}
use re_wizard.Units.BasicBlock.{Name, plain, hexed}
use re_wizard.Prelude.Map
use re_wizard.Prelude.Set.{Set}
use re_wizard.Units.Function.{Function}
use re_wizard.Units.Function.Lookup.{seek, next}
use re_wizard.Units.Function.Indirect.Found.{IsApart}
use re_wizard.Units.Module.{Module}
use re_wizard.Passes.Hybrid.Run.{run}
use re_wizard.Passes.Hybrid.Run.Verified.{MarkedApart, Ran, hybrid_run-total}
use re_wizard.Loading.Load
use re_wizard.Loading.Load.{
  Target, pe_format, bits_64, FileLoader, System, blank as no_file, load, load_target, create,
  construct, load_mapped, load_contents, get_size, get_header_size, destroy,
}
use re_wizard.Loading.Load.Outcomes.{Outcome, load-total}
use re_wizard.Loading.Load.Status.{IsBalanced}
use re_wizard.Context.{AnalysisContext, create_context, create_with, get_arch, release}
use re_wizard.Context.Released.{create_context-Released}
use re_wizard.Tests.{block_of, function_of, insn_of, operand_of}
use re_wizard.Tests.Descents.{loader, code, code-Decodes, binary, blank}
use re_wizard.Tests.Values.{IsDecoded-cons, none-IsDecoded}
use re_wizard.Tests.Images.{image, text_section, zeros}

abbrev target : Target
target = record {
  format = pe_format 2;
  virtual_size = 64;
  imagebase = 4096;
  modes = bits_64;
  sections = text_section ∷ [];
  image = image;
}

abbrev constructed : FileLoader
constructed = record no_file { raw = 77 ∷ 90 ∷ 0 ∷ []; target = some target }

abbrev system : System
system = record { memory = zeros; mappings = []; released = [] }

abbrev map_at : ℕ → ℕ → Option ℕ
map_at size base = some base

load-total_example :
    (l' : FileLoader) × (s' : System) × (ok : Bool) × (load map_at constructed system
      ≡ some ((l', s'), ok))
    × Outcome target constructed l' ok
unfolding get_size get_header_size
load-total_example =
    load-total map_at constructed target 64 2 system refl refl refl refl refl (omega arith)
      (omega arith)

-- A context is made, and its image stays mapped.
abbrev created : Option (System × Option AnalysisContext)
created =
    create_context (λ path. some (77 ∷ 90 ∷ 0 ∷ [])) (λ bytes. some target) map_at "a.exe" system

abbrev left : System × Option AnalysisContext
left = elim created [ none ↦ (system, none) | some r ↦ r ]

made : created ≡ some left
unfolding create_context create_with create construct load load_target load_mapped load_contents
    get_size get_header_size get_arch destroy Load.prefix
made = refl

create_context-Released_example : IsBalanced (release left.1 left.0)
create_context-Released_example =
    create_context-Released (λ path. some (77 ∷ 90 ∷ 0 ∷ [])) (λ bytes. some target) map_at "a.exe"
      system left.0 left.1 refl made

abbrev jmp_rax : Instruction
jmp_rax =
    record (insn_of 16 Mnemonic.jmp Category.uncond_br
      (operand_of (OperandKind.register rax) false ∷ [])) { is_indirect = true }

abbrev marked : Function
marked = record (function_of (block_of 16 32 (32 ∷ []) ∷ block_of 32 64 [] ∷ [])) {
  marked_for_hybrid_analysis = true;
}

abbrev sample : Module
sample = record blank { instructions = (16, jmp_rax) ∷ []; functions = marked ∷ [] }

marked-IsApart : IsApart marked
unfolding seek next
marked-IsApart e h = ground arith

sample-MarkedApart : MarkedApart sample.functions
sample-MarkedApart f (inl e) is_marked = subst IsApart (sym e) marked-IsApart
sample-MarkedApart f (inr m) is_marked = absurd m.0

-- At the jump rax holds 20, where code of the image lies.
abbrev jumped : TraceRecord
jumped = record { pc = 16; registers = (rax, 20) ∷ []; memory_accesses = [] }

abbrev read_trace : String → Option (List TraceRecord)
read_trace path = some (jumped ∷ [])

hybrid_run-total_example :
    (r : Module × Set ℕ) × (run read_trace loader code binary none "trace.json" sample [] ≡ some r)
    × Ran read_trace loader code binary none "trace.json" sample [] r
hybrid_run-total_example =
    hybrid_run-total read_trace loader code binary none "trace.json" sample []
      (IsDecoded-cons jmp_rax [] (omega arith) (omega arith) none-IsDecoded) sample-MarkedApart
      code-Decodes (omega arith, tt)

-- Numbers as a prefix with their digits, which std::stoull reads back.
abbrev read_hex : Name → Option ℕ
read_hex (plain t) = none
read_hex (hexed prefix n) = some n

abbrev rax_name : Register → String
rax_name r = "RAX"

load_json-record_json_example :
    load_json read_hex
      (some (list (map (record_json (hexed "0x") rax_name) (jumped ∷ []))))
      (load_trace [])
    ≡ (load_trace (jumped ∷ []), true)
unfolding register_named Map.find
load_json-record_json_example =
    load_json-record_json read_hex (hexed "0x") rax_name (jumped ∷ []) (load_trace [])
      (λ n word. refl) ((omega arith, (refl, omega arith, refl, tt), tt), tt)
