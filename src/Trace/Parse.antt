-- ===== src/Trace/Parse.antt =====
-- SimpleTraceReader::Load of ReWizardLib/source/Hybrid/SimpleTraceReader.cpp, on the JSON value of the
-- file. `parse` is std::stoull with base 16, which has no result where that throws.
pub mod RoundTrip
use re_wizard.Prelude.{
  ℕ, String, Bool, true, false, Option, none, some, List, [], ◌∷◌, nat_key, ◌>>=◌, string_key,
}
use re_wizard.Prelude.Map
use re_wizard.Prelude.Map.{Map}
use re_wizard.Insn.{Register, r64, r32, rip, eip, register_key}
use re_wizard.Units.BasicBlock.{Name}
use re_wizard.Report.Values.{
  Json, array, object, Members, no_member, member, Elements, listed, member_at, as_text, as_boolean,
  each,
}
use re_wizard.Trace.{MemoryAccess, TraceRecord, TraceReader, push_record}

-- The names of the registers, in the order of the tests.
abbrev register_names : Map String Register
register_names =
    ("RAX", r64 0)
    ∷ ("EAX", r32 0)
    ∷ ("RCX", r64 1)
    ∷ ("ECX", r32 1)
    ∷ ("RDX", r64 2)
    ∷ ("EDX", r32 2)
    ∷ ("RBX", r64 3)
    ∷ ("EBX", r32 3)
    ∷ ("RSP", r64 4)
    ∷ ("ESP", r32 4)
    ∷ ("RBP", r64 5)
    ∷ ("EBP", r32 5)
    ∷ ("RSI", r64 6)
    ∷ ("ESI", r32 6)
    ∷ ("RDI", r64 7)
    ∷ ("EDI", r32 7)
    ∷ ("R8", r64 8)
    ∷ ("R8D", r32 8)
    ∷ ("R9", r64 9)
    ∷ ("R9D", r32 9)
    ∷ ("R10", r64 10)
    ∷ ("R10D", r32 10)
    ∷ ("R11", r64 11)
    ∷ ("R11D", r32 11)
    ∷ ("R12", r64 12)
    ∷ ("R12D", r32 12)
    ∷ ("R13", r64 13)
    ∷ ("R13D", r32 13)
    ∷ ("R14", r64 14)
    ∷ ("R14D", r32 14)
    ∷ ("R15", r64 15)
    ∷ ("R15D", r32 15)
    ∷ ("RIP", rip)
    ∷ ("EIP", eip)
    ∷ []

-- `none` is ZYDIS_REGISTER_NONE.
unfoldable pub register_named : String → Option Register
register_named key = Map.find key register_names

module _ (parse : Name → Option ℕ) where
  -- A number written as a text, 0 where the member is missing.
  unfoldable pub hex_at : String → Json → Option ℕ
  unfolding member_at as_text
  hex_at key j = elim (member_at key j) [ none ↦ some 0 | some v ↦ do t ← as_text v; parse t ]

  -- The loop over the registers; a name that is not known is skipped, its value is read all the same.
  unfoldable pub read_registers : Members → Map Register ℕ → Option (Map Register ℕ)
  unfolding as_text
  read_registers no_member registers = some registers
  read_registers (member key v ms) registers =
      let rest = λ (value : ℕ). read_registers ms (elim (register_named key) [
        | none ↦ registers
        | some reg ↦ Map.insert reg value registers
      ]) in
      do t ← as_text v; value ← parse t; rest value

  unfoldable pub registers_of : Option Json → Option (Map Register ℕ)
  unfolding read_registers
  registers_of (some (object ms)) = read_registers ms []
  registers_of v = some []

  unfoldable pub read_access : Json → Option MemoryAccess
  unfolding hex_at member_at as_boolean
  read_access j = do
    address ← hex_at "addr" j
    value ← hex_at "val" j
    is_write ← elim (member_at "write" j) [ none ↦ some false | some v ↦ as_boolean v ]
    some (record { address = address; value = value; is_write = is_write })

  unfoldable pub accesses_of : Option Json → Option (List MemoryAccess)
  unfolding read_access listed each
  accesses_of (some (array js)) = each read_access (listed js)
  accesses_of v = some []

  -- One entry; `none` is an exception.
  unfoldable pub read_entry : Json → Option TraceRecord
  unfolding hex_at registers_of accesses_of member_at
  read_entry entry = do
    pc ← hex_at "pc" entry
    registers ← registers_of (member_at "registers" entry)
    accesses ← accesses_of (member_at "memory" entry)
    some (record { pc = pc; registers = registers; memory_accesses = accesses })

  -- The loop over the entries, which an exception ends with what was read so far.
  unfoldable pub read_entries : List Json → TraceReader → TraceReader × Bool
  unfolding read_entry push_record
  read_entries [] t = (t, true)
  read_entries (entry ∷ entries) t = elim (read_entry entry) [
    | none ↦ (t, false)
    | some rec ↦ read_entries entries (push_record rec t)
  ]

  -- Load, for the value of the file; `none` is a file that does not open or holds no JSON.
  unfoldable pub load_json : Option Json → TraceReader → TraceReader × Bool
  unfolding read_entries listed
  load_json (some (array entries)) t =
      read_entries (listed entries) (record { records = []; pc_index = [] })
  load_json j t = (t, false)
