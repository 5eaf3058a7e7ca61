-- ===== src/Units/Function/Graph/Ends.antt =====
-- The queue of BuildCFG runs empty within the fuel: a round that visits a block leaves fewer to
-- visit, and a round that pops a visited one shortens the run of visited blocks at the head.
use re_wizard.Prelude.{
  ℕ, zero, suc, refl, sym, ap, inl, inr, Bool, true, false, Option, some, List, [], arith, ltb, leb,
  Bool-cases, Option-cases, length, keep, In, length-append, ◌+◌, ◌*◌, ◌≤◌, ◌<◌, ◌≡◌, ◌&&◌, ◌∷◌,
  ◌++◌, if◌then◌else◌, nat_key,
}
use native.Mathlib.Nat.{suc-mul}
use mathlib.Core.Path.{subst}
use re_wizard.Prelude.Count.{unseen, unseen-insert, unseen-none}
use re_wizard.Prelude.Set
use re_wizard.Prelude.Set.{Set, contains, contains-insert}
use re_wizard.Units.BasicBlock.{BasicBlock}
use re_wizard.Units.Function.Lookup.{block_covering}
use re_wizard.Units.Function.Graph.{Walk, successors_at, walk, width, bound}
use re_wizard.Units.Function.Graph.Steps.{targets, Reach, start, step, fresh, expand-eq}
use re_wizard.Units.Function.Graph.Invariant.{Inv, start-Inv, after-Inv}

-- The run of visited blocks at the head of the queue.
lead : Set ℕ → List ℕ → ℕ
lead v [] = 0
lead v (x ∷ xs) = if contains x v then suc (lead v xs) else 0

insert-visited : (x : ℕ) (v : Set ℕ) → contains x v ≡ true → Set.insert x v ≡ v
unfolding Set.insert
insert-visited x v h = rw h refl

lead-length : (v : Set ℕ) (q : List ℕ) → lead v q ≤ length q
unfolding lead
lead-length v [] = omega arith
lead-length v (x ∷ q) = ground (arith, lead-length v q)

-- What is appended behind a block to visit does not lengthen the run.
lead-append :
    (v : Set ℕ) (q added : List ℕ)
    → (((i : ℕ) → In i q → contains i v ≡ true) → added ≡ [])
    → lead v (q ++ added) ≡ lead v q
unfolding lead
lead-append v [] added h = ap (lead v) (h (λ i m. absurd m.0))
lead-append v (x ∷ q) added h = elim (Bool-cases (contains x v)) [
  | inl seen ↦ rw seen (
      ap suc (
        lead-append v q added (λ all.
          h (λ i. elim [
            | inl e ↦ subst (λ k. contains k v ≡ true) (sym e) seen
            | inr m ↦ all i m
          ]))))
  | inr new ↦ rw new refl
]

keep-none : (p : ℕ → Bool) (xs : List ℕ) → ((x : ℕ) → In x xs → p x ≡ false) → keep p xs ≡ []
unfolding keep
keep-none p [] h = refl
keep-none p (x ∷ xs) h = rw (h x (inl refl)) (keep-none p xs (λ y m. h y (inr m)))

length-keep : (p : ℕ → Bool) (xs : List ℕ) → length (keep p xs) ≤ length xs
unfolding keep
length-keep p [] = omega arith
length-keep p (x ∷ xs) = ground (arith, length-keep p xs)

length-targets : (bs : List BasicBlock) (ss : List ℕ) → length (targets bs ss) ≤ length ss
unfolding targets
length-targets bs [] = omega arith
length-targets bs (s ∷ ss) = elim (Option-cases (block_covering bs s)) [
  | inl gap ↦ rw (gap, targets) (omega (arith, length-targets bs ss))
  | inr (t, here) ↦ rw (here, targets) (omega (arith, length-targets bs ss))
]

successors-width : (bs : List BasicBlock) (i : ℕ) → length (successors_at bs i) ≤ width bs
successors-width [] i = omega arith
successors-width (b ∷ bs) zero = omega arith
successors-width (b ∷ bs) (suc i) = omega (arith, successors-width bs i)

pub block_covering-bound :
    (bs : List BasicBlock) (a i : ℕ) → block_covering bs a ≡ some i → i < length bs
unfolding block_covering
block_covering-bound [] a i h = absurd (cc)
block_covering-bound (b ∷ bs) a i h = elim (Bool-cases (leb b.start a && ltb a b.end)) [
  | inl covers ↦ ground (arith, covers)
  | inr past ↦ elim (Option-cases (block_covering bs a)) [
    | inl gap ↦ ground (arith, past, gap)
    | inr (j, there) ↦ ground (arith, past, there, block_covering-bound bs a j there)
  ]
]

targets-bound : (bs : List BasicBlock) (ss : List ℕ) (t : ℕ) → In t (targets bs ss) → t < length bs
unfolding targets
targets-bound bs [] t m = absurd m.0
targets-bound bs (s ∷ ss) t m = elim (Option-cases (block_covering bs s)) [
  | inl gap ↦ targets-bound bs ss t (rw (gap, targets) at m)
  | inr (to, here) ↦ elim (rw (here, targets) at m) [
    | inl e ↦ block_covering-bound bs s t (rw e here)
    | inr m' ↦ targets-bound bs ss t m'
  ]
]

Reach-bound :
    (bs : List BasicBlock) (entry i : ℕ) → entry < length bs → Reach bs entry i → i < length bs
Reach-bound bs entry i h start = h
Reach-bound bs entry i h (step {i = j} r edge) = targets-bound bs (successors_at bs j) i edge

abbrev pub Done : List BasicBlock → ℕ → Option Walk → Type 0
Done bs entry r = (w : Walk) × (r ≡ some w) × Inv bs entry w × (w.pending ≡ [])

abbrev added : List BasicBlock → ℕ → Set ℕ → List ℕ
added bs x v = keep (fresh v) (targets bs (successors_at bs x))

length-added : (bs : List BasicBlock) (x : ℕ) (v : Set ℕ) → length (added bs x v) ≤ width bs
length-added bs x v = omega (
  arith,
  length-keep (fresh v) (targets bs (successors_at bs x)),
  length-targets bs (successors_at bs x),
  successors-width bs x,
)

-- A visited block with nothing but visited ones behind it adds nothing.
added-none :
    (bs : List BasicBlock) (entry x : ℕ) (es : List (ℕ × ℕ)) (q : List ℕ) (v : Set ℕ)
    → Inv bs entry (record { edges = es; pending = x ∷ q; visited = v })
    → contains x v ≡ true
    → ((i : ℕ) → In i q → contains i v ≡ true)
    → added bs x v ≡ []
added-none bs entry x es q v inv seen all =
    keep-none (fresh v) (targets bs (successors_at bs x)) (λ t edge.
      elim (inv.closed x t seen edge) [
        | inl old ↦ rw old refl
        | inr (inl e) ↦ rw (e, seen) refl
        | inr (inr m) ↦ rw (all t m) refl
      ])

mul-bound : (l m d : ℕ) → l ≤ m → l * d ≤ m * d
mul-bound zero m d h = omega arith
mul-bound (suc l) zero d h = absurd (omega (arith, h))
mul-bound (suc l) (suc m) d h =
    omega (arith, suc-mul l d, suc-mul m d, mul-bound l m d (omega (arith, h)))

module _ (bs : List BasicBlock) (entry : ℕ) (entry-bound : entry < length bs) where
  -- `room` bounds the entries once the visited ones at the head of the queue are popped.
  walk-Ends :
      (fuel room : ℕ) (es : List (ℕ × ℕ)) (q : List ℕ) (v : Set ℕ)
      → Inv bs entry (record { edges = es; pending = q; visited = v })
      → length q + lead v q * width bs ≤ room
      → suc (lead v q) + bound (width bs) (unseen 0 (length bs) v) room ≤ fuel
      → Done bs entry (walk fuel bs (record { edges = es; pending = q; visited = v }))
  unfolding walk lead bound
  walk-Ends zero room es q v inv hq hf = absurd (omega (arith, hf))
  walk-Ends (suc fuel) room es [] v inv hq hf =
      (record { edges = es; pending = []; visited = v }, refl, inv, refl)
  walk-Ends (suc fuel) room es (x ∷ q) v inv hq hf =
      let inv' = after-Inv bs entry x q es v inv in
      rw (expand-eq bs x (record { edges = es; pending = q; visited = v }))
        (elim (Bool-cases (contains x v)) [
          | inl seen ↦
              let same = lead-append v q (added bs x v) (added-none bs entry x es q v inv seen) in
              let run : lead v (x ∷ q) ≡ suc (lead v q) = rw seen refl in
              let len = length-append q (added bs x v) in
              rw (insert-visited x v seen) (
                walk-Ends fuel room _ (q ++ added bs x v) v (rw (insert-visited x v seen) at inv')
                  (rw same (
                    omega (
                      arith,
                      rw run at hq,
                      len,
                      length-added bs x v,
                      suc-mul (lead v q) (width bs),
                    )))
                  (rw same (omega (arith, hf, run))))
          | inr new ↦
              let here = inv.reached x (inr (inl refl)) in
              let fewer =
                unseen-insert 0 (length bs) x v new (omega arith)
                  (omega (arith, Reach-bound bs entry x entry-bound here)) in
              let q' = q ++ added bs x v in
              let v' = Set.insert x v in
              let none_seen : lead v (x ∷ q) ≡ 0 = rw new refl in
              let len = length-append q (added bs x v) in
              let fits : length q' ≤ room + width bs =
                omega (arith, hq, len, length-added bs x v) in
              let run : lead v' q' ≤ room + width bs = omega (arith, lead-length v' q', fits) in
              let fuel_left = rw (none_seen, sym fewer) at hf in
              walk-Ends fuel (room + width bs + (room + width bs) * width bs) _ q' v' inv'
                (omega (arith, fits, mul-bound (lead v' q') (room + width bs) (width bs) run))
                (omega (arith, run, fuel_left))
        ])

abbrev pub first : ℕ → Walk
first entry = record { edges = []; pending = entry ∷ []; visited = [] }

pub walk-first :
    (bs : List BasicBlock) (entry : ℕ)
    → entry < length bs
    → Done bs entry (walk (suc (bound (width bs) (length bs) 1)) bs (first entry))
unfolding contains lead
walk-first bs entry h =
    walk-Ends bs entry h (suc (bound (width bs) (length bs) 1)) 1 [] (entry ∷ []) []
      (start-Inv bs entry) (omega arith) (rw (unseen-none 0 (length bs)) (omega arith))
