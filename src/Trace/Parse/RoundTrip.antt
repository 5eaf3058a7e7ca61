-- ===== src/Trace/Parse/RoundTrip.antt =====
-- What SimpleTraceReader::Load reads of a trace that was written as JSON:
-- ReWizardLib/source/Hybrid/SimpleTraceReader.cpp.
use re_wizard.Prelude.{
  ℕ, String, refl, sym, ap, true, Option, none, some, List, [], map, All, ◌<◌, ◌≡◌, ◌∙◌, ◌∷◌, ◌++◌,
  nat_key, string_key,
}
use re_wizard.Prelude.Map
use re_wizard.Prelude.Map.{Map}
use mathlib.Core.List.{append-nil, append_assoc}
use re_wizard.Prelude.Word.{word_mod}
use re_wizard.Insn.{Register, register_key}
use re_wizard.Units.BasicBlock.{Name}
use re_wizard.Report.Values.{
  Json, string, boolean, list, dict, members, listed-elements, member_at, find_member, as_text,
  as_boolean, each,
}
use re_wizard.Trace.{MemoryAccess, TraceRecord, TraceReader, push_record, push_records, load}
use re_wizard.Trace.Parse.{
  register_named, hex_at, read_registers, registers_of, read_access, accesses_of, read_entry,
  read_entries, load_json,
}

module _ (print : ℕ → Name) (name : Register → String) where
  abbrev pub access_json : MemoryAccess → Json
  access_json ma = dict (
      ("addr", string (print ma.address))
      ∷ ("val", string (print ma.value))
      ∷ ("write", boolean ma.is_write)
      ∷ [])

  abbrev pub register_json : Register × ℕ → String × Json
  register_json (r, value) = (name r, string (print value))

  -- A record as the entries of a trace file are written.
  abbrev pub record_json : TraceRecord → Json
  record_json rec = dict (
      ("pc", string (print rec.pc))
      ∷ ("registers", dict (map register_json rec.registers))
      ∷ ("memory", list (map access_json rec.memory_accesses))
      ∷ [])

-- The registers are words and stand in a map, after those of `seen`, and Load knows their names.
abbrev pub IsNamed : (Register → String) → Map Register ℕ → Map Register ℕ → Type 0
IsNamed name seen [] = Unit
IsNamed name seen ((r, value) ∷ m) =
    (register_named (name r) ≡ some r)
    × (value < word_mod)
    × (Map.find r seen ≡ none)
    × IsNamed name (seen ++ (r, value) ∷ []) m

-- A record as a trace holds it: numbers are words and registers are named.
abbrev pub IsWritten : (Register → String) → TraceRecord → Type 0
IsWritten name rec =
    (rec.pc < word_mod)
    × IsNamed name [] rec.registers
    × All (λ (ma : MemoryAccess). (ma.address < word_mod) × (ma.value < word_mod))
        rec.memory_accesses

-- What std::stoull documents of a number that is printed in hexadecimal.
abbrev pub Parses : (Name → Option ℕ) → (ℕ → Name) → Type 0
Parses parse print = (n : ℕ) → n < word_mod → parse (print n) ≡ some n

place-append :
    (r : Register) (value : ℕ) (m : Map Register ℕ) → Map.place r value m ≡ m ++ (r, value) ∷ []
unfolding Map.place
place-append r value [] = refl
place-append r value (entry ∷ m) = ap (λ l. entry ∷ l) (place-append r value m)

insert_new :
    (r : Register) (value : ℕ) (m : Map Register ℕ)
    → Map.find r m ≡ none
    → Map.insert r value m ≡ m ++ (r, value) ∷ []
unfolding Map.insert
insert_new r value m h = rw (h, Map.insert) (place-append r value m)

module _ (parse : Name → Option ℕ) (print : ℕ → Name) (name : Register → String) where
  read_access-access_json :
      (ma : MemoryAccess)
      → Parses parse print
      → ma.address < word_mod
      → ma.value < word_mod
      → read_access parse (access_json print name ma) ≡ some ma
  unfolding read_access hex_at member_at find_member members as_text as_boolean
  read_access-access_json ma law ha hv = rw (law ma.address ha, law ma.value hv) refl

  each-access_json :
      (mas : List MemoryAccess)
      → Parses parse print
      → All (λ (ma : MemoryAccess). (ma.address < word_mod) × (ma.value < word_mod)) mas
      → each (read_access parse) (map (access_json print name) mas) ≡ some mas
  unfolding each
  each-access_json [] law words = refl
  each-access_json (ma ∷ mas) law words =
      rw (read_access-access_json ma law words.0.0 words.0.1, each-access_json mas law words.1) refl

  read_registers-printed :
      (m old : Map Register ℕ)
      → Parses parse print
      → IsNamed name old m
      → read_registers parse (members (map (register_json print name) m)) old ≡ some (old ++ m)
  unfolding read_registers members as_text
  read_registers-printed [] old law named = ap some (sym (append-nil old))
  read_registers-printed ((r, value) ∷ m) old law (known, word, absent, rest) =
      let old' = old ++ (r, value) ∷ [] in
      let again = read_registers-printed m old' law rest in
      let insert_it = insert_new r value old absent in
      rw (law value word, known, insert_it) again ∙ ap some (append_assoc old ((r, value) ∷ []) m)

  read_entry-record_json :
      (rec : TraceRecord)
      → Parses parse print
      → IsWritten name rec
      → read_entry parse (record_json print name rec) ≡ some rec
  unfolding read_entry hex_at registers_of accesses_of member_at find_member members as_text
  read_entry-record_json rec law (word, named, words) =
      rw
        (
          law rec.pc word,
          read_registers-printed rec.registers [] law named,
          listed-elements (map (access_json print name) rec.memory_accesses),
          each-access_json rec.memory_accesses law words,
        )
        refl

  read_entries-push_records :
      (recs : List TraceRecord) (t : TraceReader)
      → Parses parse print
      → All (IsWritten name) recs
      → read_entries parse (map (record_json print name) recs) t ≡ (push_records recs t, true)
  unfolding read_entries push_records members Map.insert
  read_entries-push_records [] t law written = refl
  read_entries-push_records (rec ∷ recs) t law written =
      rw (read_entry-record_json rec law written.0)
        (read_entries-push_records recs (push_record rec t) law written.1)

  -- A trace whose records are written as JSON, their numbers printed as std::stoull reads them, is
  -- loaded as it was, whatever the reader held, if its numbers are words and its registers have names.
  pub load_json-record_json :
      (recs : List TraceRecord) (t : TraceReader)
      → Parses parse print
      → All (IsWritten name) recs
      → load_json parse (some (list (map (record_json print name) recs))) t ≡ (load recs, true)
  unfolding load_json load
  load_json-record_json recs t law written =
      rw (listed-elements (map (record_json print name) recs))
        (read_entries-push_records recs (record { records = []; pc_index = [] }) law written)
