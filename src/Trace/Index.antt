-- ===== src/Trace/Index.antt =====
-- The index by program counter against a search of the whole trace.
use re_wizard.Prelude.{
  get_elem?-append, get_elem?-last, ℕ, suc, refl, sym, ap, inl, inr, Bool, some, List, [], arith,
  Bool-cases, Option-cases, length, get_elem?, keep, length-append, keep-append, ◌<◌, ◌≡◌, ◌∙◌, ◌∷◌,
  ◌++◌, ◌==◌, if◌then◌else◌, nat_key,
}
use mathlib.Core.List.{append-nil, append_assoc}
use re_wizard.Prelude.Map
use re_wizard.Prelude.Map.{find-insert}
use re_wizard.Trace.{
  TraceRecord, TraceReader, indices, push_record, push_records, load, fetch, get_records_for_pc,
}

-- Every index is in range.
abbrev Valid : List ℕ → ℕ → Type 0
Valid [] n = Unit
Valid (i ∷ is) n = (i < n) × Valid is n

fetch-append :
    (recs : List TraceRecord) (rec : TraceRecord) (is : List ℕ)
    → Valid is (length recs)
    → fetch (recs ++ rec ∷ []) is ≡ fetch recs is
unfolding fetch
fetch-append recs rec [] v = refl
fetch-append recs rec (i ∷ is) v =
    let same = get_elem?-append recs rec i v.0 in
    elim (Option-cases (get_elem? recs i)) [
      | inl gap ↦ rw (same ∙ gap, gap, fetch) (fetch-append recs rec is v.1)
      | inr (r, here) ↦
          rw (same ∙ here, here, fetch) (ap (λ l. r ∷ l) (fetch-append recs rec is v.1))
    ]

fetch-last :
    (recs : List TraceRecord) (is : List ℕ) (n : ℕ) (rec : TraceRecord)
    → get_elem? recs n ≡ some rec
    → fetch recs (is ++ n ∷ []) ≡ fetch recs is ++ rec ∷ []
unfolding fetch
fetch-last recs [] n rec h = rw (h, fetch) refl
fetch-last recs (i ∷ is) n rec h = elim (Option-cases (get_elem? recs i)) [
  | inl gap ↦ rw (gap, fetch) (fetch-last recs is n rec h)
  | inr (r, here) ↦ rw (here, fetch) (ap (λ l. r ∷ l) (fetch-last recs is n rec h))
]

Valid-push : (is : List ℕ) (n : ℕ) → Valid is n → Valid (is ++ n ∷ []) (suc n)
Valid-push [] n v = (omega arith, tt)
Valid-push (i ∷ is) n v = (omega (arith, v.0), Valid-push is n v.1)

Valid-suc : (is : List ℕ) (n : ℕ) → Valid is n → Valid is (suc n)
Valid-suc [] n v = tt
Valid-suc (i ∷ is) n v = (omega (arith, v.0), Valid-suc is n v.1)

abbrev pub runs_at : ℕ → TraceRecord → Bool
runs_at pc rec = rec.pc == pc

-- The index of a program counter is right.
abbrev Indexed : TraceReader → ℕ → Type 0
Indexed t pc =
    Valid (indices t pc) (length t.records)
    × (fetch t.records (indices t pc) ≡ keep (runs_at pc) t.records)

indices-push_record :
    (rec : TraceRecord) (t : TraceReader) (pc : ℕ)
    → indices (push_record rec t) pc
      ≡ (if rec.pc == pc then indices t pc ++ length t.records ∷ [] else indices t pc)
unfolding push_record
indices-push_record rec t pc = elim (Bool-cases (rec.pc == pc)) [
  | inl same ↦
      ground (arith, find-insert rec.pc pc (indices t rec.pc ++ length t.records ∷ []) t.pc_index)
  | inr other ↦
      ground (arith, find-insert rec.pc pc (indices t rec.pc ++ length t.records ∷ []) t.pc_index)
]

push_record-Indexed :
    (rec : TraceRecord) (t : TraceReader) (pc : ℕ) → Indexed t pc → Indexed (push_record rec t) pc
unfolding push_record keep
push_record-Indexed rec t pc h =
    let grown : length (t.records ++ rec ∷ []) ≡ suc (length t.records) =
      omega (arith, length-append t.records (rec ∷ [])) in
    let kept = keep-append (runs_at pc) t.records (rec ∷ []) in
    let same_fetch = fetch-append t.records rec (indices t pc) h.0 in
    elim (Bool-cases (rec.pc == pc)) [
      | inl here ↦
          let at : indices (push_record rec t) pc ≡ indices t pc ++ length t.records ∷ [] =
            indices-push_record rec t pc ∙ rw here refl in
          (
            rw (at, grown) (Valid-push (indices t pc) (length t.records) h.0),
            ap (fetch (t.records ++ rec ∷ [])) at
                ∙ (fetch-last (t.records ++ rec ∷ []) (indices t pc) (length t.records) rec
                      (get_elem?-last t.records rec)
                    ∙ (ap (λ l. l ++ rec ∷ []) (same_fetch ∙ h.1) ∙ sym (kept ∙ rw here refl))),
          )
      | inr other ↦
          let at : indices (push_record rec t) pc ≡ indices t pc =
            indices-push_record rec t pc ∙ rw other refl in
          (
            rw (at, grown) (Valid-suc (indices t pc) (length t.records) h.0),
            ap (fetch (t.records ++ rec ∷ [])) at
                ∙ (same_fetch
                    ∙ (h.1 ∙ sym (kept ∙ rw other (append-nil (keep (runs_at pc) t.records))))),
          )
    ]

push_records-Indexed :
    (recs : List TraceRecord) (t : TraceReader) (pc : ℕ)
    → Indexed t pc
    → Indexed (push_records recs t) pc
unfolding push_records
push_records-Indexed [] t pc h = h
push_records-Indexed (rec ∷ recs) t pc h =
    push_records-Indexed recs (push_record rec t) pc (push_record-Indexed rec t pc h)

push_records-records :
    (recs : List TraceRecord) (t : TraceReader) → (push_records recs t).records ≡ t.records ++ recs
unfolding push_records push_record
push_records-records [] t = rw append-nil
push_records-records (rec ∷ recs) t =
    rw (push_records-records recs (push_record rec t), append_assoc) refl

-- Of a loaded trace, the records for a program counter are exactly those of the trace that ran
-- there, in the order of the trace.
pub get_records_for_pc-load :
    (recs : List TraceRecord) (pc : ℕ) → get_records_for_pc (load recs) pc ≡ keep (runs_at pc) recs
unfolding get_records_for_pc load fetch Map.find keep
get_records_for_pc-load recs pc =
    let start : TraceReader = record { records = []; pc_index = [] } in
    (push_records-Indexed recs start pc (tt, refl)).1
    ∙ ap (keep (runs_at pc)) (push_records-records recs start)
