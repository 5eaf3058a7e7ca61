-- ===== src/Report/Values.antt =====
-- The JSON values of ReWizardLib/source/Analysis/AnalysisResult.cpp, as its library (nlohmann::json)
-- documents them, and what the exports read of one.
use re_wizard.Prelude.{
  ℕ, String, refl, ap, Bool, Option, none, some, List, [], map, ◌≡◌, ◌∷◌, ◌++◌, if◌then◌else◌,
  ◌>>=◌, string_key,
}
use text.Mathlib.Text.{◌==◌ as str_eq}
use re_wizard.Units.BasicBlock.{Name}

-- nlohmann::json. The members of an object are kept in the order in which they are set.
mutual
  pub data Json : Type 0 where
    null : Json
    boolean : Bool → Json
    number : ℕ → Json
    string : Name → Json
    array : Elements → Json
    object : Members → Json

  pub data Elements : Type 0 where
    no_element : Elements
    element : Json → Elements → Elements

  pub data Members : Type 0 where
    no_member : Members
    member : String → Json → Members → Members

unfoldable pub elements : List Json → Elements
elements [] = no_element
elements (j ∷ js) = element j (elements js)

unfoldable pub members : List (String × Json) → Members
members [] = no_member
members ((key, j) ∷ ms) = member key j (members ms)

abbrev pub list : List Json → Json
list js = array (elements js)

abbrev pub dict : List (String × Json) → Json
dict ms = object (members ms)

-- What the exports read of a JSON value; `none` is an exception of the library, or an access that it
-- does not define. A member of an object by its key, where it is there:
unfoldable pub find_member : String → Members → Option Json
find_member key no_member = none
find_member key (member k j ms) = if str_eq k key then some j else find_member key ms

unfoldable pub member_at : String → Json → Option Json
unfolding find_member
member_at key (object ms) = find_member key ms
member_at key j = none

unfoldable pub listed : Elements → List Json
listed no_element = []
listed (element j js) = j ∷ listed js

unfoldable pub values : Members → List Json
values no_member = []
values (member key j ms) = j ∷ values ms

-- What a loop over the value visits; size() is the length, but for a value that is not structured.
unfoldable pub items : Json → List Json
unfolding listed values
items null = []
items (array js) = listed js
items (object ms) = values ms
items j = j ∷ []

-- get<uintptr_t>, get<bool>, and the conversion to std::string.
unfoldable pub as_number : Json → Option ℕ
as_number (number n) = some n
as_number (boolean b) = some (if b then 1 else 0)
as_number j = none

unfoldable pub as_boolean : Json → Option Bool
as_boolean (boolean b) = some b
as_boolean j = none

unfoldable pub as_text : Json → Option Name
as_text (string t) = some t
as_text j = none

unfoldable pub number_at : String → Json → Option ℕ
unfolding member_at as_number
number_at key j = do v ← member_at key j; as_number v

unfoldable pub items_at : String → Json → Option (List Json)
unfolding member_at items
items_at key j = do v ← member_at key j; some (items v)

pub listed-elements : (js : List Json) → listed (elements js) ≡ js
unfolding listed elements
listed-elements [] = refl
listed-elements (j ∷ js) = ap (λ l. j ∷ l) (listed-elements js)

-- Every element in turn; the first that fails ends it.
unfoldable pub each : {A B : Type 0} → (A → Option B) → List A → Option (List B)
each f [] = some []
each f (x ∷ xs) = do y ← f x; ys ← each f xs; some (y ∷ ys)

pub each-map :
    {A B D : Type 0} (f : A → Option B) (g : D → A) (h : D → B) (xs : List D)
    → ((x : D) → f (g x) ≡ some (h x))
    → each f (map g xs) ≡ some (map h xs)
unfolding each
each-map f g h [] law = refl
each-map f g h (x ∷ xs) law = rw (law x, each-map f g h xs law) refl

unfoldable pub concat : {A : Type 0} → List (List A) → List A
concat [] = []
concat (xs ∷ xss) = xs ++ concat xss
