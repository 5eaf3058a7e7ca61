-- ===== src/Units/Function.antt =====
-- ReWizardLib/include/ReWizard/Analysis/Units/Function.h: the state of a function and the methods
-- that the header defines. A block is owned by its function and is known by its place in `blocks`.
-- The cache of the printed disassembly is not modelled.
pub mod CallSites
pub mod Lookup
pub mod Normalize
pub mod Graph
pub mod Indirect
use text.Mathlib.Text.{◌==◌ as str_eq}
use re_wizard.Prelude.{ℕ, Bool, true, false, List, [], ◌∷◌, ◌++◌, if◌then◌else◌, nat_key, pair_key}
use re_wizard.Prelude.Map.{Map}
use re_wizard.Prelude.Set
use re_wizard.Prelude.Set.{Set}
use re_wizard.Units.BasicBlock.{Name, plain, hexed, BasicBlock}

-- The control-flow graph: how many vertices it has (the blocks, in order) and its edges, of which
-- there may be several between two vertices.
pub record Cfg : Type 0 where
  pub vertices : ℕ
  pub edges : List (ℕ × ℕ)

pub record Function : Type 0 where
  pub name : Name
  pub start : ℕ
  pub end : ℕ
  pub last_insn_addr : ℕ
  pub blocks : List BasicBlock
  pub graph : Cfg
  pub instructions : Set ℕ
  pub call_sites : Set (ℕ × ℕ)
  pub contains_indirect_calls : Bool
  pub contains_indirect_jumps : Bool
  pub marked_for_hybrid_analysis : Bool
  pub hybrid_verified : Bool
  pub has_opaque_predicates : Bool
  pub is_trampoline : Bool
  pub opaque_predicate_addresses : Set ℕ
  pub opaque_predicate_results : Map ℕ Bool

-- Function::Create
abbrev pub create : Name → Function
create name = record {
  name = name;
  start = 0;
  end = 0;
  last_insn_addr = 0;
  blocks = [];
  graph = record { vertices = 0; edges = [] };
  instructions = [];
  call_sites = [];
  contains_indirect_calls = false;
  contains_indirect_jumps = false;
  marked_for_hybrid_analysis = false;
  hybrid_verified = false;
  has_opaque_predicates = false;
  is_trampoline = false;
  opaque_predicate_addresses = [];
  opaque_predicate_results = [];
}

abbrev pub is_empty_name : Name → Bool
is_empty_name (plain t) = str_eq t ""
is_empty_name (hexed prefix address) = false

-- The first start given to a function without a name names it.
unfoldable pub set_start : ℕ → Function → Function
set_start start f =
    if is_empty_name f.name
    then record f { start = start; name = hexed "sub_" start }
    else record f { start = start }

-- SetEnd and SetLastInsnAddr, which the source calls together.
unfoldable pub set_end : ℕ → ℕ → Function → Function
set_end end last f = record f { end = end; last_insn_addr = last }

unfoldable pub set_name : Name → Function → Function
set_name name f = record f { name = name }

unfoldable pub add_basic_block : BasicBlock → Function → Function
add_basic_block b f = record f { blocks = f.blocks ++ b ∷ [] }

-- A placeholder for an unresolved target, (call_addr, 0), is replaced.
unfoldable pub add_call_site : ℕ → ℕ → Function → Function
add_call_site call_addr target_addr f = record f {
  call_sites =
      Set.insert (call_addr, target_addr)
        (if Set.contains (call_addr, 0) f.call_sites
          then Set.erase (call_addr, 0) f.call_sites
          else f.call_sites);
}

unfoldable pub mark_for_hybrid_analysis : Function → Function
mark_for_hybrid_analysis f = record f { marked_for_hybrid_analysis = true }

unfoldable pub add_instruction : ℕ → Function → Function
add_instruction insn f = record f { instructions = Set.insert insn f.instructions }
