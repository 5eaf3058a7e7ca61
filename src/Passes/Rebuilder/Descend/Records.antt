-- ===== src/Passes/Rebuilder/Descend/Records.antt =====
-- The instructions that the module records, and the set of visited addresses.
use re_wizard.Prelude.{
  ℕ, refl, inl, inr, Bool, true, false, none, some, arith, ==_iff, Bool-cases, Option-cases, ◌≡◌,
  ◌⊎◌, ◌==◌, if◌then◌else◌, nat_key, pair_key,
}
use re_wizard.Prelude.Map
use re_wizard.Prelude.Map.{Map}
use re_wizard.Prelude.Set
use re_wizard.Prelude.Set.{Set, contains-insert}
use re_wizard.Insn.{Instruction}
use re_wizard.Units.Function.{set_end, add_basic_block}
use re_wizard.Units.Module.{Module}
use re_wizard.Passes.Rebuilder.{Descent}
use re_wizard.Passes.Rebuilder.Handlers.{Little}
use re_wizard.Passes.Rebuilder.Descend.{close_return, is_known, write_back}

abbrev pub has : ℕ → Map ℕ Instruction → Bool
has k m = elim (Map.find k m) [ none ↦ false | some insn ↦ true ]

found-insert :
    (k j : ℕ) (v : Instruction) (m : Map ℕ Instruction)
    → Map.find j (Map.insert k v m) ≡ (if k == j then some v else Map.find j m)
found-insert k j v m = Map.find-insert k j v m

pub has-insert : (k : ℕ) (v : Instruction) (m : Map ℕ Instruction) → has k (Map.insert k v m) ≡ true
has-insert k v m = rw (found-insert k k v m, has) (rw ((==_iff k k).1 refl) refl)

pub has-insert_keeps :
    (k j : ℕ) (v : Instruction) (m : Map ℕ Instruction)
    → has j m ≡ true
    → has j (Map.insert k v m) ≡ true
has-insert_keeps k j v m h =
    rw (found-insert k j v m, has)
      (elim (Bool-cases (k == j)) [ inl same ↦ rw same refl | inr other ↦ rw other h ])

pub has-emplace :
    (k : ℕ) (v : Instruction) (m : Map ℕ Instruction) → has k (Map.emplace k v m) ≡ true
unfolding Map.emplace
has-emplace k v m = elim (Option-cases (Map.find k m)) [
  | inl absent ↦ rw (absent, Map.emplace) (has-insert k v m)
  | inr (w, here) ↦ rw (here, Map.emplace) (rw (here, has) refl)
]

pub has-emplace_keeps :
    (k j : ℕ) (v : Instruction) (m : Map ℕ Instruction)
    → has j m ≡ true
    → has j (Map.emplace k v m) ≡ true
unfolding Map.emplace
has-emplace_keeps k j v m h = elim (Option-cases (Map.find k m)) [
  | inl absent ↦ rw (absent, Map.emplace) (has-insert_keeps k j v m h)
  | inr (w, here) ↦ rw (here, Map.emplace) h
]

pub known-write :
    (held : Bool) (a : ℕ) (insn : Instruction) (m : Module)
    → is_known a m ≡ true
    → is_known a (write_back held insn m) ≡ true
known-write false a insn m h = h
known-write true a insn m h = has-insert_keeps insn.address a insn m.instructions h

pub inserted :
    (x a : ℕ) (v : Set ℕ)
    → Set.contains a (Set.insert x v) ≡ true
    → (x ≡ a) ⊎ (Set.contains a v ≡ true)
inserted x a v h =
    let e : Set.contains a (Set.insert x v) ≡ (if x == a then true else Set.contains a v) =
      contains-insert x a v in
    ground (arith, e, h)

pub write_back-functions :
    (held : Bool) (insn : Instruction) (m : Module)
    → (write_back held insn m).functions ≡ m.functions
write_back-functions true insn m = refl
write_back-functions false insn m = refl

pub close_return-Little : (insn : Instruction) (d : Descent) → Little d (close_return insn d)
unfolding set_end add_basic_block
close_return-Little insn d = record {
  work = omega arith;
  function_work = omega arith;
  call_sites = omega arith;
  instructions = refl;
  start = refl;
  functions = refl;
}
