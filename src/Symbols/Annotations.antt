-- ===== src/Symbols/Annotations.antt =====
-- ReWizardLib/source/Analysis/Units/SymbolManager.cpp and include/ReWizard/Analysis/Units/SymbolManager.h.
use re_wizard.Prelude.{
  ℕ, String, Option, none, some, [], arith, length, ◌≡◌, ◌==◌, if◌then◌else◌, nat_key, string_key,
}
use re_wizard.Prelude.Map
use re_wizard.Prelude.Map.{Map, Distinct, find-insert, find-erase, Distinct-insert, Distinct-erase}

pub record Annotation : Type 0 where
  pub name : String
  pub comment : String
  pub type : String
  pub kind : String

-- An annotation as m_annotations[address] creates it.
abbrev pub blank : Annotation
blank = record { name = ""; comment = ""; type = ""; kind = "" }

abbrev pub SymbolManager : Type 0
SymbolManager = Map ℕ Annotation

-- m_annotations[address]
unfoldable pub entry : ℕ → SymbolManager → Annotation
entry address m = elim (Map.find address m) [ none ↦ blank | some a ↦ a ]

unfoldable pub set_name : ℕ → String → String → SymbolManager → SymbolManager
unfolding entry
set_name address name kind m =
    Map.insert address (record (entry address m) { name = name; kind = kind }) m

unfoldable pub set_comment : ℕ → String → SymbolManager → SymbolManager
unfolding entry
set_comment address text m = Map.insert address (record (entry address m) { comment = text }) m

unfoldable pub set_type : ℕ → String → SymbolManager → SymbolManager
unfolding entry
set_type address type m = Map.insert address (record (entry address m) { type = type }) m

unfoldable pub get_annotation : SymbolManager → ℕ → Option Annotation
get_annotation m address = Map.find address m

-- The four getters read one field of the entry, if there is an entry.
unfoldable pub field_of : (Annotation → String) → Option Annotation → Option String
field_of f none = none
field_of f (some a) = some (f a)

unfoldable pub get_name : SymbolManager → ℕ → Option String
unfolding field_of
get_name m address = field_of (λ a. a.name) (Map.find address m)

unfoldable pub get_comment : SymbolManager → ℕ → Option String
unfolding field_of
get_comment m address = field_of (λ a. a.comment) (Map.find address m)

unfoldable pub get_type : SymbolManager → ℕ → Option String
unfolding field_of
get_type m address = field_of (λ a. a.type) (Map.find address m)

unfoldable pub get_kind : SymbolManager → ℕ → Option String
unfolding field_of
get_kind m address = field_of (λ a. a.kind) (Map.find address m)

unfoldable pub remove : ℕ → SymbolManager → SymbolManager
remove address m = Map.erase address m

unfoldable pub clear : SymbolManager → SymbolManager
clear m = []

unfoldable pub count : SymbolManager → ℕ
count m = length m

-- What a getter answers after a setter, at every address.
pub record SettersSet (m : SymbolManager) (address : ℕ) (text kind : String) (a : ℕ) : Type 0 where
  pub name_name :
      get_name (set_name address text kind m) a ≡ (if address == a then some text else get_name m a)
  pub name_kind :
      get_kind (set_name address text kind m) a ≡ (if address == a then some kind else get_kind m a)
  pub comment_comment :
      get_comment (set_comment address text m) a
      ≡ (if address == a then some text else get_comment m a)
  pub type_type :
      get_type (set_type address text m) a ≡ (if address == a then some text else get_type m a)
  -- a new entry starts with empty texts, an old one keeps those that are not set
  pub name_comment :
      get_comment (set_name address text kind m) a
      ≡ (if address == a then some (entry address m).comment else get_comment m a)
  pub comment_name :
      get_name (set_comment address text m) a
      ≡ (if address == a then some (entry address m).name else get_name m a)
  pub type_name :
      get_name (set_type address text m) a
      ≡ (if address == a then some (entry address m).name else get_name m a)

-- A setter changes the set texts at its address, keeps the other texts there (empty, if the
-- address is new) and changes no other address.
pub setters_set :
    (m : SymbolManager) (address : ℕ) (text kind : String) (a : ℕ)
    → SettersSet m address text kind a
unfolding set_name set_comment set_type get_name get_comment get_type get_kind
setters_set m address text kind a =
    let named : Annotation = record (entry address m) { name = text; kind = kind } in
    let commented : Annotation = record (entry address m) { comment = text } in
    let typed : Annotation = record (entry address m) { type = text } in
    record {
      name_name = ground (arith, find-insert address a named m);
      name_kind = ground (arith, find-insert address a named m);
      comment_comment = ground (arith, find-insert address a commented m);
      type_type = ground (arith, find-insert address a typed m);
      name_comment = ground (arith, find-insert address a named m);
      comment_name = ground (arith, find-insert address a commented m);
      type_name = ground (arith, find-insert address a typed m);
    }

-- The operations keep one entry for an address.
pub operations-Distinct :
    (m : SymbolManager) (address : ℕ) (text kind : String)
    → Distinct m
    → Distinct (set_name address text kind m)
      × Distinct (set_comment address text m)
      × Distinct (set_type address text m)
      × Distinct (remove address m)
unfolding set_name set_comment set_type remove
operations-Distinct m address text kind d = (
  Distinct-insert address _ m d,
  Distinct-insert address _ m d,
  Distinct-insert address _ m d,
  Distinct-erase address m d,
)
