-- ===== src/Tests/Edges.antt =====
-- The theorems on the passes that change the edges of blocks, at sample code.
use re_wizard.Prelude.{refl, true, false, some, [], arith, keep, ◌≡◌, ◌∷◌, nat_key, string_key}
use re_wizard.Prelude.Set.{contains}
use re_wizard.Units.BasicBlock.{BasicBlock}
use re_wizard.Units.Function.{Function}
use re_wizard.Units.Function.Lookup.{block_covering}
use re_wizard.Symbols.Table
use re_wizard.Xrefs
use re_wizard.Trace.{load}
use re_wizard.Passes.Opaque.{prune_one}
use re_wizard.Passes.Opaque.Edges.{prune_one-live}
use re_wizard.Passes.Hybrid.{process_opaque_predicates}
use re_wizard.Passes.Hybrid.Predicates.{process_opaque_predicates-left}
use re_wizard.Passes.Rebuilder.{Loader, Descent}
use re_wizard.Tests.{looping, block_of, jz_8}
use re_wizard.Tests.Tables.{ran_twice}

abbrev pruned : BasicBlock
pruned = block_of 16 32 (24 ∷ [])

prune_one-live_example : prune_one 20 true looping.blocks ≡ some (pruned ∷ [])
unfolding block_covering
prune_one-live_example =
    prune_one-live 20 true looping.blocks 0 (block_of 16 32 (24 ∷ 32 ∷ [])) 24 32 refl refl refl
      (omega arith)

abbrev suspected : Function
suspected = record looping {
  has_opaque_predicates = true;
  opaque_predicate_addresses = 16 ∷ 20 ∷ [];
}

process_opaque_predicates-left_example :
    contains 16 (process_opaque_predicates (load ran_twice) suspected).opaque_predicate_addresses
    ≡ false
unfolding contains keep
process_opaque_predicates-left_example =
    (process_opaque_predicates-left ran_twice suspected 16 refl).0

abbrev loader : Loader
loader = record { current_image_base = 16; mapped_size = 64; executable_sections = (16, 48) ∷ [] }

abbrev descent : Descent
descent = record {
  in_module = record {
    instructions = [];
    functions = [];
    function_by_start = [];
    symbol_table = Table.empty;
    xref_manager = Xrefs.empty;
  };
  function = record looping { blocks = [] };
  block = block_of 16 0 [];
  insn = jz_8;
  work = [];
  function_work = [];
}
