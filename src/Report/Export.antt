-- ===== src/Report/Export.antt =====
-- AnalysisResult::ToDot of ReWizardLib/source/Analysis/AnalysisResult.cpp: the lines of the graph, in
-- order, with what each prints.
pub mod Lines
use Prim.Native.Char.{code}
use re_wizard.Prelude.{
  ℕ, zero, suc, String, Bool, Option, none, some, List, [], ltb, leb, ◌&&◌, ◌||◌, ◌∷◌, ◌++◌, ◌==◌,
  if◌then◌else◌, ◌>>=◌, string_key,
}
use Prim.Native.String.{◌∷◌ as push}
use re_wizard.Report.Values.{
  Json, member_at, items, items_at, as_number, as_text, number_at, each, concat,
}
use re_wizard.Report.Digits.{hex_digits, decimal_digits}
use re_wizard.Units.BasicBlock.{Name, plain, hexed}

-- The name of a node: that of its function, `_0x`, and digits, the last one first.
pub record Node : Type 0 where
  pub function : Name
  pub digits : List ℕ

pub data Line : Type 0 where
  open_graph rank_direction box_shape filled light_grey close_cluster close_graph : Line
  open_cluster : Name → Line
  label : Name → List ℕ → Line
  node : Node → (start end : List ℕ) → Line
  edge : Node → Node → Line
  -- To an address outside the function, in red.
  unresolved : Node → List ℕ → Line

-- std::isalnum in the default locale, or an underscore.
abbrev is_word : ℕ → Bool
is_word c =
    (leb b'0' c && leb c b'9')
    || ((leb b'A' c && leb c b'Z') || ((leb b'a' c && leb c b'z') || c == b'_'))

-- How many bytes UTF-8 takes for a code point.
abbrev utf8_length : ℕ → ℕ
utf8_length c = if ltb c 128 then 1 else if ltb c 2048 then 2 else if ltb c 65536 then 3 else 4

abbrev underscores : ℕ → String → String
underscores zero s = s
underscores (suc n) s = push "_" (underscores n s)

-- The loop goes over the bytes of the name: one underscore for each byte of another character.
unfoldable pub sanitize_text : String → String
sanitize_text String.[] = String.[]
sanitize_text (String.◌∷◌ c s) =
    let rest = sanitize_text s in
    if is_word (code c) then push c rest else underscores (utf8_length (code c)) rest

-- The digits of a number are alphanumeric.
unfoldable pub sanitize : Name → Name
unfolding sanitize_text
sanitize (plain t) = plain (sanitize_text t)
sanitize (hexed prefix address) = hexed (sanitize_text prefix) address

abbrev pub hex_node : Name → ℕ → Node
hex_node safe_name address = record { function = safe_name; digits = hex_digits address }

-- The start of the first block whose inclusive range holds the address.
unfoldable pub find_target : ℕ → List Json → Option (Option ℕ)
find_target succ [] = some none
find_target succ (bb ∷ bbs) =
    let rest = find_target succ bbs in
    do
      start ← number_at "start" bb
      end ← if leb start succ then number_at "end" bb else some 0
      if leb start succ && leb succ end then some (some start) else rest

abbrev pub edge_line : Name → ℕ → ℕ → Option ℕ → Line
edge_line safe_name start succ none = unresolved (hex_node safe_name start) (hex_digits succ)
edge_line safe_name start succ (some target) =
    edge (hex_node safe_name start)
      (record { function = safe_name; digits = decimal_digits target })

unfoldable pub block_edges : Name → List Json → Json → Option (List Line)
unfolding find_target
block_edges safe_name blocks bb = do
  start ← number_at "start" bb
  succs ← items_at "successors" bb
  each
      (λ j. do
        succ ← as_number j
        target ← find_target succ blocks
        some (edge_line safe_name start succ target))
      succs

unfoldable pub block_node : Name → Json → Option Line
block_node safe_name bb = do
  start ← number_at "start" bb
  end ← number_at "end" bb
  some (node (hex_node safe_name start) (hex_digits start) (hex_digits end))

unfoldable pub function_lines : Json → Option (List Line)
unfolding block_edges block_node sanitize
function_lines fn = do
  named ← member_at "name" fn
  fn_name ← as_text named
  start ← number_at "start" fn
  blocks ← items_at "basic_blocks" fn
  nodes ← each (block_node (sanitize fn_name)) blocks
  edges ← each (block_edges (sanitize fn_name) blocks) blocks
  some (
      open_cluster (sanitize fn_name)
      ∷ label fn_name (hex_digits start)
      ∷ filled
      ∷ light_grey
      ∷ (nodes ++ (concat edges ++ close_cluster ∷ [])))

-- `none` is an exception, or a read that the library does not define.
unfoldable pub to_dot : Json → Option (List Line)
unfolding function_lines
to_dot root = do
  fns ← items_at "functions" root
  clusters ← each function_lines fns
  some (open_graph ∷ rank_direction ∷ box_shape ∷ (concat clusters ++ close_graph ∷ []))
