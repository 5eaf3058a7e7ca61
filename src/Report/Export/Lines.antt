-- ===== src/Report/Export/Lines.antt =====
-- What ToDot draws of the functions of a module: ReWizardLib/source/Analysis/AnalysisResult.cpp.
use re_wizard.Prelude.{
  ℕ, String, refl, sym, ap, inl, inr, Option, none, some, List, [], map, arith, leb, Option-cases,
  ◌≤◌, ◌≡◌, ◌∙◌, ◌≢◌, ◌&&◌, ◌∷◌, ◌++◌, if◌then◌else◌, string_key,
}
use mathlib.Core.Option.{some-injective}
use re_wizard.Report.Values.{
  number, string, listed-elements, items_at, items, member_at, members, number_at, as_number,
  as_text, each-map, concat,
}
use re_wizard.Report.{
  Context, serialize_basic_block, serialize_function, functions_of, from_context, image_of, numbers,
}
use re_wizard.Report.Digits.{hex_digits, decimal_digits-ne-hex_digits}
use re_wizard.Report.Export.{
  Line, open_graph, rank_direction, box_shape, filled, light_grey, close_cluster, close_graph,
  open_cluster, label, node, edge, sanitize, hex_node, find_target, edge_line, block_edges,
  block_node, function_lines, to_dot,
}
use re_wizard.Units.BasicBlock.{Name, BasicBlock}
use re_wizard.Units.Function.{Function}

-- The start of the first block whose range, its end included, holds the address.
abbrev pub target_in : ℕ → List BasicBlock → Option ℕ
target_in succ [] = none
target_in succ (b ∷ bs) =
    if leb b.start succ && leb succ b.end then some b.start else target_in succ bs

abbrev pub drawn_edges : Name → List BasicBlock → BasicBlock → List Line
drawn_edges safe_name blocks b =
    map (λ succ. edge_line safe_name b.start succ (target_in succ blocks)) b.successors

abbrev pub drawn_node : Name → BasicBlock → Line
drawn_node safe_name b = node (hex_node safe_name b.start) (hex_digits b.start) (hex_digits b.end)

-- The cluster of a function: a node for each of its blocks, then for each block an edge for each of
-- its successors.
abbrev pub cluster : Function → List Line
cluster f =
    open_cluster (sanitize f.name)
    ∷ label f.name (hex_digits f.start)
    ∷ filled
    ∷ light_grey
    ∷ (map (drawn_node (sanitize f.name)) f.blocks
        ++ (concat (map (drawn_edges (sanitize f.name) f.blocks) f.blocks) ++ close_cluster ∷ []))

abbrev pub drawing : List Function → List Line
drawing fns =
    open_graph ∷ rank_direction ∷ box_shape ∷ (concat (map cluster fns) ++ close_graph ∷ [])

number_at-start : (b : BasicBlock) → number_at "start" (serialize_basic_block b) ≡ some b.start
unfolding number_at serialize_basic_block members
number_at-start b = refl

number_at-end : (b : BasicBlock) → number_at "end" (serialize_basic_block b) ≡ some b.end
unfolding number_at serialize_basic_block members
number_at-end b = refl

items-successors :
    (b : BasicBlock)
    → items_at "successors" (serialize_basic_block b) ≡ some (map number b.successors)
unfolding items_at items serialize_basic_block numbers members
items-successors b = ap some (listed-elements (map number b.successors))

pub find_target-target_in :
    (succ : ℕ) (bs : List BasicBlock)
    → find_target succ (map serialize_basic_block bs) ≡ some (target_in succ bs)
unfolding find_target
find_target-target_in succ [] = refl
find_target-target_in succ (b ∷ bs) =
    ground (arith, number_at-start b, number_at-end b, find_target-target_in succ bs)

block_edges-drawn_edges :
    (safe_name : Name) (bs : List BasicBlock) (b : BasicBlock)
    → block_edges safe_name (map serialize_basic_block bs) (serialize_basic_block b)
      ≡ some (drawn_edges safe_name bs b)
unfolding block_edges as_number
block_edges-drawn_edges safe_name bs b =
    rw (number_at-start b, items-successors b)
      (each-map _ number (λ succ. edge_line safe_name b.start succ (target_in succ bs)) b.successors
        (λ succ. rw (find_target-target_in succ bs) refl))

block_node-drawn_node :
    (safe_name : Name) (b : BasicBlock)
    → block_node safe_name (serialize_basic_block b) ≡ some (drawn_node safe_name b)
unfolding block_node
block_node-drawn_node safe_name b = rw (number_at-start b, number_at-end b) refl

items-blocks :
    (dis : Function → List String) (f : Function)
    → items_at "basic_blocks" (serialize_function dis f) ≡ some (map serialize_basic_block f.blocks)
unfolding items_at items serialize_function members
items-blocks dis f = ap some (listed-elements (map serialize_basic_block f.blocks))

name-serialized :
    (dis : Function → List String) (f : Function)
    → member_at "name" (serialize_function dis f) ≡ some (string f.name)
unfolding member_at serialize_function members
name-serialized dis f = refl

number_at-serialized :
    (dis : Function → List String) (f : Function)
    → number_at "start" (serialize_function dis f) ≡ some f.start
unfolding number_at serialize_function members
number_at-serialized dis f = refl

function_lines-cluster :
    (dis : Function → List String) (f : Function)
    → function_lines (serialize_function dis f) ≡ some (cluster f)
unfolding function_lines as_text
function_lines-cluster dis f =
    let safe_name = sanitize f.name in
    rw
      (
        name-serialized dis f,
        number_at-serialized dis f,
        items-blocks dis f,
        each-map (block_node safe_name) serialize_basic_block (drawn_node safe_name) f.blocks
            (block_node-drawn_node safe_name),
        each-map (block_edges safe_name (map serialize_basic_block f.blocks)) serialize_basic_block
            (drawn_edges safe_name f.blocks) f.blocks (block_edges-drawn_edges safe_name f.blocks),
      )
      refl

items-functions :
    (dis : Function → List String) (c : Context)
    → items_at "functions" (from_context dis (some c))
      ≡ some (map (serialize_function dis) (functions_of c))
unfolding items_at items from_context members
items-functions dis c = elim (Option-cases c.loader) [
  | inl unloaded ↦ rw (unloaded, image_of) (ap some (listed-elements _))
  | inr (image, loaded) ↦ rw (loaded, image_of) (ap some (listed-elements _))
]

-- ToDot of a result that was built from a context never fails, and draws a cluster for each function
-- of the module; one that was built without a context has no drawing.
pub to_dot-drawing :
    (dis : Function → List String) (c : Context)
    → (to_dot (from_context dis (some c)) ≡ some (drawing (functions_of c)))
      × (to_dot (from_context dis none) ≡ none)
unfolding to_dot from_context items_at
to_dot-drawing dis c = (
  rw
      (
        items-functions dis c,
        each-map function_lines (serialize_function dis) cluster (functions_of c)
            (function_lines-cluster dis),
      )
      refl,
  refl,
)

-- The digits of the second node of an edge.
target_digits : Line → List ℕ
target_digits (edge from to) = to.digits
target_digits line = []

-- The edge to a successor for which a block of the function is found names no node of that block, if
-- the block starts at ten or above: the node is named in hexadecimal, the target in decimal.
pub edge_line-misses :
    (safe_name : Name) (start succ target : ℕ) (bs : List BasicBlock)
    → find_target succ (map serialize_basic_block bs) ≡ some (some target)
    → 10 ≤ target
    → edge_line safe_name start succ (target_in succ bs)
      ≢ edge (hex_node safe_name start) (hex_node safe_name target)
unfolding target_digits
edge_line-misses safe_name start succ target bs found h e =
    let same : target_in succ bs ≡ some target =
      some-injective _ _ (sym (find_target-target_in succ bs) ∙ found) in
    let drawn = sym (ap (edge_line safe_name start succ) same) ∙ e in
    decimal_digits-ne-hex_digits target h (ap target_digits drawn)
