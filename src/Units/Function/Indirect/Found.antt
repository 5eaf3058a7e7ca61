-- ===== src/Units/Function/Indirect/Found.antt =====
-- What Function::GetIndirectInstructions returns: ReWizardLib/source/Analysis/Units/Function.cpp.
use mathlib.Core.Path.{subst}
use mathlib.Core.Option.{some-injective}
use re_wizard.Prelude.{
  ℕ, zero, suc, refl, sym, ap, inl, inr, Bool, true, false, Option, none, some, List, [], arith,
  Bool-cases, Option-cases, length, get_elem?, In, length-append, In-append, ◌+◌, ◌≤◌, ◌<◌, ◌≡◌,
  ◌∙◌, ◌⊎◌, ◌∷◌, nat_key,
}
use re_wizard.Prelude.Map.{Map}
use re_wizard.Prelude.Map
use re_wizard.Prelude.Set
use re_wizard.Prelude.Set.{Set, contains-insert}
use re_wizard.Insn.{Instruction}
use re_wizard.Insn.Walk.{IsDecoded, walk_block-total, walk_block-inv_in}
use re_wizard.Units.BasicBlock.{BasicBlock}
use re_wizard.Units.Function.{Function}
use re_wizard.Units.Function.Lookup.{
  Seek, absent, exact, inside, seek, get_basic_block_for_address, after_seek,
}
use re_wizard.Units.Function.Normalize.Entries.{Succeeds}
use re_wizard.Units.Function.Indirect.{
  Search, note_indirect, splits_block, enqueue_block, follow_successors, visit_block, collect, room,
  collect_rounds, get_indirect_instructions,
}

abbrev is_inside : Seek → Bool
is_inside (inside k b) = true
is_inside s = false

-- No lookup of the start or of a successor splits a block.
abbrev pub IsApart : Function → Type 0
IsApart f = (e : ℕ) → (e ≡ f.start) ⊎ Succeeds f.blocks e → is_inside (seek f.blocks e) ≡ false

after_apart :
    (f : Function) (e i : ℕ) (s : Seek)
    → is_inside s ≡ false
    → ((after_seek f e s).function ≡ f) × (splits_block i s ≡ false)
after_apart f e i absent h = (refl, refl)
after_apart f e i (exact k) h = (refl, refl)
after_apart f e i (inside k b) h = absurd (cc)

enqueue_block-adds :
    (j : Option ℕ) (f : Function) (s : Search)
    → ((enqueue_block j f s).function ≡ f)
      × ((enqueue_block j f s).visited ≡ s.visited)
      × ((enqueue_block j f s).found ≡ s.found)
      × (length (enqueue_block j f s).pending ≤ suc (length s.pending))
enqueue_block-adds none f s = (refl, refl, refl, omega arith)
enqueue_block-adds (some j) f s =
    (refl, refl, refl, ground (arith, length-append s.pending (j ∷ [])))

follow_successors-keeps :
    (i : ℕ) (succs : List ℕ) (s : Search)
    → IsApart s.function
    → ((e : ℕ) → In e succs → Succeeds s.function.blocks e)
    → (t : Search) × (follow_successors i succs s ≡ some t)
      × (t.function ≡ s.function)
      × (t.visited ≡ s.visited)
      × (t.found ≡ s.found)
      × (length t.pending ≤ length s.pending + length succs)
unfolding follow_successors get_basic_block_for_address
follow_successors-keeps i [] s apart sub = (s, refl, refl, refl, refl, omega arith)
follow_successors-keeps i (succ ∷ succs) s apart sub =
    let (same, safe) =
      after_apart s.function succ i (seek s.function.blocks succ)
        (apart succ (inr (sub succ (inl refl)))) in
    let r = get_basic_block_for_address s.function succ in
    let s1 = enqueue_block r.block r.function s in
    let (is_f, is_v, is_found, grew) = enqueue_block-adds r.block r.function s in
    let kept : s1.function ≡ s.function = is_f ∙ same in
    let (t, ran, f, v, found, more) =
      follow_successors-keeps i succs s1 (subst IsApart (sym kept) apart)
        (λ e m. subst (λ (g : Function). Succeeds g.blocks e) (sym kept) (sub e (inr m))) in
    (t, rw safe ran, f ∙ kept, v ∙ is_v, found ∙ is_found, omega (arith, more, grew))

Succeeds-of_get :
    (bs : List BasicBlock) (i : ℕ) (b : BasicBlock) (e : ℕ)
    → get_elem? bs i ≡ some b
    → In e b.successors
    → Succeeds bs e
Succeeds-of_get [] i b e h m = absurd (cc)
Succeeds-of_get (c ∷ bs) zero b e h m =
    inl (subst (λ (x : BasicBlock). In e x.successors) (sym (some-injective c b h)) m)
Succeeds-of_get (c ∷ bs) (suc i) b e h m = inr (Succeeds-of_get bs i b e h m)

room_mono :
    (bs : List BasicBlock) (start : ℕ) (visited : Set ℕ)
    → room bs (Set.insert start visited) ≤ room bs visited
room_mono [] start visited = omega arith
room_mono (b ∷ bs) start visited =
    ground (arith, contains-insert start b.start visited, room_mono bs start visited)

room-insert :
    (bs : List BasicBlock) (i : ℕ) (b : BasicBlock) (visited : Set ℕ)
    → get_elem? bs i ≡ some b
    → Set.contains b.start visited ≡ false
    → room bs (Set.insert b.start visited) + suc (length b.successors) ≤ room bs visited
room-insert [] i b visited h fresh = absurd (cc)
room-insert (c ∷ bs) zero b visited h fresh =
    subst
      (λ (x : BasicBlock).
        Set.contains x.start visited ≡ false
        → room (c ∷ bs) (Set.insert x.start visited) + suc (length x.successors)
          ≤ room (c ∷ bs) visited)
      (some-injective c b h)
      (λ new. ground (arith, contains-insert c.start c.start visited, room_mono bs c.start visited))
      fresh
room-insert (c ∷ bs) (suc i) b visited h fresh =
    ground (arith, contains-insert b.start c.start visited, room-insert bs i b visited h fresh)

module _ (insns : Map ℕ Instruction) where
  -- What holds of every instruction found.
  abbrev Noted : List Instruction → Type 0
  Noted found =
      (i : Instruction)
      → In i found
      → (i.is_indirect ≡ true) × (a : ℕ) × (Map.find a insns ≡ some i)

  In-note_indirect :
      (insn i : Instruction) (found : List Instruction) (b : Bool)
      → insn.is_indirect ≡ b
      → In i (note_indirect insn found)
      → In i found ⊎ ((i ≡ insn) × (insn.is_indirect ≡ true))
  unfolding note_indirect
  In-note_indirect insn i found b e m = ground (arith, In-append i found (insn ∷ []))

  note_indirect-Noted :
      (a : ℕ) (insn : Instruction) (found : List Instruction)
      → Map.find a insns ≡ some insn
      → Noted found
      → Noted (note_indirect insn found)
  note_indirect-Noted a insn found here noted i m =
      elim (In-note_indirect insn i found insn.is_indirect refl m) [
        | inl old ↦ noted i old
        | inr (new, indirect) ↦
            (ap (λ (x : Instruction). x.is_indirect) new ∙ indirect, a, here ∙ ap some (sym new))
      ]

  visit_block-keeps :
      (i : ℕ) (b : BasicBlock) (rest : List ℕ) (s : Search)
      → IsDecoded insns
      → IsApart s.function
      → Noted s.found
      → get_elem? s.function.blocks i ≡ some b
      → Set.contains b.start s.visited ≡ false
      → (s2 : Search) × (visit_block insns i b (record s { pending = rest }) ≡ some s2)
        × (s2.function ≡ s.function)
        × Noted s2.found
        × (length s2.pending + room s2.function.blocks s2.visited
            < suc (length rest) + room s.function.blocks s.visited)
  unfolding visit_block
  visit_block-keeps i b rest s d apart noted here fresh =
      let (found, walked) = walk_block-total insns note_indirect b.start b.end s.found d in
      let noted' : Noted found =
        walk_block-inv_in insns note_indirect Noted b.start b.end s.found found note_indirect-Noted
          noted walked in
      let s1 : Search = record s {
        pending = rest;
        visited = Set.insert b.start s.visited;
        found = found;
      } in
      let (s2, followed, f2, v2, found2, grew) =
        follow_successors-keeps i b.successors s1 apart
          (λ e m. Succeeds-of_get s.function.blocks i b e here m) in
      let less = room-insert s.function.blocks i b s.visited here fresh in
      let same_room : room s2.function.blocks s2.visited
          ≡ room s.function.blocks (Set.insert b.start s.visited) =
        ap (λ (f : Function). room f.blocks s2.visited) f2 ∙ ap (room s.function.blocks) v2 in
      (
        s2,
        rw walked followed,
        f2,
        subst Noted (sym found2) noted',
        omega (arith, grew, less, same_room),
      )

  -- The search with the queue `work`.
  abbrev Ends : ℕ → List ℕ → Search → Type 0
  Ends fuel work s =
      (t : Search) × (collect fuel insns (record s { pending = work }) ≡ some t)
      × (t.function ≡ s.function)
      × Noted t.found

  collect-total :
      (fuel : ℕ) (work : List ℕ) (s : Search)
      → IsDecoded insns
      → IsApart s.function
      → Noted s.found
      → length work + room s.function.blocks s.visited < fuel
      → Ends fuel work s
  unfolding collect
  collect-total zero work s d apart noted enough = absurd (omega arith)
  collect-total (suc fuel) [] s d apart noted enough =
      (record s { pending = [] }, refl, refl, noted)
  collect-total (suc fuel) (i ∷ rest) s d apart noted enough =
      elim (Option-cases (get_elem? s.function.blocks i)) [
        | inl gone ↦
            let (t, ran, f, n) = collect-total fuel rest s d apart noted (omega arith) in
            (t, rw (gone, collect) ran, f, n)
        | inr (b, here) ↦ elim (Bool-cases (Set.contains b.start s.visited)) [
          | inl seen ↦
              let (t, ran, f, n) = collect-total fuel rest s d apart noted (omega arith) in
              (t, rw (here, seen, collect) ran, f, n)
          | inr fresh ↦
              let (s2, visited, f2, n2, smaller) =
                visit_block-keeps i b rest s d apart noted here fresh in
              let (t, ran, f, n) =
                collect-total fuel s2.pending s2 d (subst IsApart (sym f2) apart) n2
                  (omega (arith, smaller)) in
              (t, rw (here, fresh, visited, collect) ran, f ∙ f2, n)
        ]
      ]

lookup_start : (f : Function) → IsApart f → (get_basic_block_for_address f f.start).function ≡ f
unfolding get_basic_block_for_address
lookup_start f apart =
    (after_apart f f.start 0 (seek f.blocks f.start) (apart f.start (inl refl))).0

-- On decoded instructions, for a function whose start and successors no lookup needs to split a block
-- for, GetIndirectInstructions ends, with the function unchanged, and every instruction that it
-- returns is an indirect one of the module.
pub get_indirect_instructions-total :
    (insns : Map ℕ Instruction) (f : Function)
    → IsDecoded insns
    → IsApart f
    → (found : List Instruction) × (get_indirect_instructions insns f ≡ some (f, found))
      × Noted insns found
unfolding get_indirect_instructions
get_indirect_instructions-total insns f d apart =
    let r = get_basic_block_for_address f f.start in
    let same : r.function ≡ f = lookup_start f apart in
    elim (Option-cases r.block) [
      | inl no_entry ↦ (
        [],
        rw (no_entry, get_indirect_instructions) (ap (λ (g : Function). some (g, [])) same),
        λ i m. absurd m.0,
      )
      | inr (i, entry) ↦
          let s : Search = record {
            function = r.function;
            visited = [];
            pending = i ∷ [];
            found = [];
          } in
          let (t, ran, f', n) =
            collect-total insns (collect_rounds r.function.blocks) (i ∷ []) s d
              (subst IsApart (sym same) apart) (λ j m. absurd m.0) (omega arith) in
          (
            t.found,
            rw (entry, ran, get_indirect_instructions)
                (ap (λ (g : Function). some (g, t.found)) (f' ∙ same)),
            n,
          )
    ]
