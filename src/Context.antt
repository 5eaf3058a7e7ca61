-- ===== src/Context.antt =====
-- AnalysisContext::Create and AnalysisManager::Create of
-- ReWizardLib/source/Analysis/AnalysisContext.cpp and AnalysisManager.cpp, with the file, the parser
-- and the mapper as parameters. The disassembler is only referred to.
pub mod Released
use re_wizard.Prelude.{
  ℕ, String, not, Option, none, some, List, [], if◌then◌else◌, nat_key, string_key,
}
use re_wizard.Prelude.Set.{Set}
use re_wizard.Symbols.Table.{empty as no_symbols}
use re_wizard.Xrefs.{empty as no_xrefs}
use re_wizard.Units.Module.{Module}
use re_wizard.Loading.Load.{
  Target, Format, unknown_format, FileLoader, System, Arch, create, load, destroy,
}

pub record AnalysisContext : Type 0 where
  pub loader : FileLoader
  pub in_module : Module
  pub target_name : String
  pub visited : Set ℕ
  pub trace_path : String

unfoldable pub set_trace_path : String → AnalysisContext → AnalysisContext
set_trace_path path c = record c { trace_path = path }

-- Module::Create
abbrev pub no_code : Module
no_code = record {
  instructions = [];
  functions = [];
  function_by_start = [];
  symbol_table = no_symbols;
  xref_manager = no_xrefs;
}

-- GetArch
unfoldable pub get_arch : FileLoader → Option Arch
get_arch l = elim l.target [
  | none ↦ none
  | some t ↦ elim t.format [ unknown_format ↦ none | _ ↦ some l.arch ]
]

abbrev new_context : String → FileLoader → AnalysisContext
new_context target l = record {
  loader = l;
  in_module = no_code;
  target_name = target;
  visited = [];
  trace_path = "";
}

-- The part of Create behind MakeLoader. A loader that is given up is destroyed.
unfoldable pub create_with :
    (ℕ → ℕ → Option ℕ) → String → FileLoader → System → Option (System × Option AnalysisContext)
unfolding load get_arch destroy
create_with map_memory target l s = elim (load map_memory l s) [
  | none ↦ none
  | some ((l', s'), loaded) ↦
      if not loaded then some (destroy l' s', none) else elim (get_arch l') [
        | none ↦ some (destroy l' s', none)
        | some arch ↦ some (s', some (new_context target l'))
      ]
]

-- AnalysisContext::Create: the system afterwards and the context, `none` for null. The outer `none` is
-- a copy of headers out of bounds. `read_file` yields the contents, where the file opens.
unfoldable pub create_context :
    (String → Option (List ℕ))
    → (List ℕ → Option Target)
    → (ℕ → ℕ → Option ℕ)
    → String
    → System
    → Option (System × Option AnalysisContext)
unfolding create
create_context read_file parse map_memory target s = elim (create (read_file target) parse) [
  | none ↦ some (s, none)
  | some l ↦ create_with map_memory target l s
]

-- AnalysisManager, which owns a context.
pub record AnalysisManager : Type 0 where
  pub context : AnalysisContext

unfoldable pub create_manager :
    (String → Option (List ℕ))
    → (List ℕ → Option Target)
    → (ℕ → ℕ → Option ℕ)
    → String
    → System
    → Option (System × Option AnalysisManager)
unfolding create_context
create_manager read_file parse map_memory target s =
    elim (create_context read_file parse map_memory target s) [
      | none ↦ none
      | some (s', none) ↦ some (s', none)
      | some (s', some c) ↦ some (s', some (record { context = c }))
    ]

-- The end of a context, where there is one.
unfoldable pub release : Option AnalysisContext → System → System
unfolding destroy
release none s = s
release (some c) s = destroy c.loader s
