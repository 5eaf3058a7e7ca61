-- ===== src/Passes/Hybrid/Predicates.antt =====
-- Which opaque predicates are left after a trace.
use re_wizard.Prelude.{
  ℕ, refl, sym, ap, inl, inr, Bool, true, false, not, List, [], arith, ltb, ==_iff, Bool-cases,
  length, is_empty, keep, ◌≡◌, ◌∙◌, ◌&&◌, ◌∷◌, ◌==◌, if◌then◌else◌, nat_key,
}
use mathlib.Core.Path.{subst}
use re_wizard.Prelude.Set
use re_wizard.Prelude.Set.{Set, contains, contains-erase}
use re_wizard.Trace.{TraceRecord, TraceReader, load, get_records_for_pc}
use re_wizard.Trace.Index.{get_records_for_pc-load, runs_at}
use re_wizard.Units.Function.{Function}
use re_wizard.Passes.Domain.Flags.{IsFlagged}
use re_wizard.Passes.Hybrid.{disproven, erase_all, settle, process_opaque_predicates}

contains-erase_all :
    (addrs : List ℕ) (s : Set ℕ) (a : ℕ)
    → contains a (erase_all addrs s) ≡ (contains a s && not (contains a addrs))
unfolding erase_all contains
contains-erase_all [] s a = ground arith
contains-erase_all (addr ∷ addrs) s a =
    let gone : contains a (Set.erase addr s) ≡ (if addr == a then false else contains a s) =
      contains-erase addr a s in
    ground (arith, contains-erase_all addrs (Set.erase addr s) a, gone)

abbrev again : TraceReader → ℕ → Bool
again reader a = ltb 1 (length (get_records_for_pc reader a))

contains-disproven :
    (reader : TraceReader) (s : Set ℕ) (a : ℕ)
    → contains a (disproven reader s) ≡ (contains a s && again reader a)
unfolding disproven contains
contains-disproven reader [] a = refl
contains-disproven reader (addr ∷ addrs) a =
    let rest = contains-disproven reader addrs a in
    elim (Bool-cases (addr == a)) [
      | inl same ↦
          let e : again reader addr ≡ again reader a = ap (again reader) ((==_iff addr a).0 same) in
          ground (arith, rest, e)
      | inr other ↦ ground (arith, rest)
    ]

settle-addresses :
    (f : Function) (s : Set ℕ)
    → ((settle f s).opaque_predicate_addresses ≡ s)
      × (f.has_opaque_predicates ≡ true → (settle f s).has_opaque_predicates ≡ not (is_empty s))
settle-addresses f [] = (refl, λ h. refl)
settle-addresses f (addr ∷ addrs) = (refl, λ h. h)

-- After a loaded trace, a suspected opaque predicate of a flagged function is still suspected
-- exactly when the trace has at most one record at its address, and the function is still flagged
-- exactly when a suspect is left.
pub process_opaque_predicates-left :
    (recs : List TraceRecord) (f : Function) (a : ℕ)
    → f.has_opaque_predicates ≡ true
    → (contains a (process_opaque_predicates (load recs) f).opaque_predicate_addresses
        ≡ (contains a f.opaque_predicate_addresses && not (ltb 1 (length (keep (runs_at a) recs)))))
      × ((process_opaque_predicates (load recs) f).has_opaque_predicates
          ≡ not (is_empty (process_opaque_predicates (load recs) f).opaque_predicate_addresses))
process_opaque_predicates-left recs f a h =
    let addrs = f.opaque_predicate_addresses in
    let left = erase_all (disproven (load recs) addrs) addrs in
    let (stays, flag) = settle-addresses f left in
    let opened : process_opaque_predicates (load recs) f ≡ settle f left =
      unfold process_opaque_predicates in ap (λ b. if b then settle f left else f) h in
    let same : again (load recs) a ≡ ltb 1 (length (keep (runs_at a) recs)) =
      ap (λ l. ltb 1 (length l)) (get_records_for_pc-load recs a) in
    let counted : contains a left
        ≡ (contains a addrs && not (ltb 1 (length (keep (runs_at a) recs)))) =
      ground (
        arith,
        contains-erase_all (disproven (load recs) addrs) addrs a,
        contains-disproven (load recs) addrs a,
        same,
      ) in
    rw opened (ap (contains a) stays ∙ counted, flag h ∙ ap (λ s. not (is_empty s)) (sym stays))

settle-IsFlagged :
    (f : Function) (s : Set ℕ)
    → f.has_opaque_predicates ≡ true
    → ((a : ℕ) → (contains a s && not (contains a f.opaque_predicate_addresses)) ≡ false)
    → IsFlagged f
    → IsFlagged (settle f s)
unfolding contains
settle-IsFlagged f [] flagged fewer h = record { agree = λ a. refl; raised = λ a. refl }
settle-IsFlagged f (x ∷ s) flagged fewer h = record {
  agree = λ a. ground (arith, fewer a, h.agree a);
  raised = λ a. ground (arith, flagged);
}

-- What the interval analysis establishes of the recorded addresses, a trace that refutes some of them
-- keeps: only addresses are taken away, and the flag only where none is left.
pub process_opaque_predicates-IsFlagged :
    (reader : TraceReader) (f : Function)
    → IsFlagged f
    → IsFlagged (process_opaque_predicates reader f)
unfolding process_opaque_predicates
process_opaque_predicates-IsFlagged reader f h = elim (Bool-cases f.has_opaque_predicates) [
  | inl flagged ↦
      let addrs = f.opaque_predicate_addresses in
      let gone = disproven reader addrs in
      let left = erase_all gone addrs in
      let opened : process_opaque_predicates reader f ≡ settle f left =
        ap (λ b. if b then settle f left else f) flagged in
      subst IsFlagged (sym opened)
        (settle-IsFlagged f left flagged (λ a. ground (arith, contains-erase_all gone addrs a)) h)
  | inr clear ↦
      let left =
        erase_all (disproven reader f.opaque_predicate_addresses) f.opaque_predicate_addresses in
      let opened : process_opaque_predicates reader f ≡ f =
        ap (λ b. if b then settle f left else f) clear in
      subst IsFlagged (sym opened) h
]
