-- ===== src/Units/Function/Graph/Invariant.antt =====
-- What a round of BuildCFG keeps.
use re_wizard.Prelude.{
  ℕ, refl, sym, ap, inl, inr, true, List, [], map, arith, Bool-cases, keep, In, In-append, In-keep,
  ◌≡◌, ◌↔◌, ◌⊎◌, ◌∷◌, ◌++◌, ◌==◌, if◌then◌else◌, nat_key,
}
use mathlib.Core.Path.{subst, ap₂}
use re_wizard.Prelude.Set
use re_wizard.Prelude.Set.{Set, contains, contains-insert}
use re_wizard.Units.BasicBlock.{BasicBlock}
use re_wizard.Units.Function.Graph.{Walk, successors_at}
use re_wizard.Units.Function.Graph.Steps.{targets, Edge, Reach, start, step, fresh}

abbrev pub Seen : Walk → ℕ → Type 0
Seen w i = (contains i w.visited ≡ true) ⊎ In i w.pending

-- Only blocks on paths from the entry are queued or visited; no edge out of a visited block is
-- forgotten; the recorded edges are those out of the visited blocks.
pub record Inv (blocks : List BasicBlock) (entry : ℕ) (w : Walk) : Type 0 where
  pub reached : (i : ℕ) → Seen w i → Reach blocks entry i
  pub started : Seen w entry
  pub closed : (i t : ℕ) → contains i w.visited ≡ true → Edge blocks i t → Seen w t
  pub sound : (i t : ℕ) → In (i, t) w.edges → (contains i w.visited ≡ true) × Edge blocks i t
  pub complete : (i t : ℕ) → contains i w.visited ≡ true → Edge blocks i t → In (i, t) w.edges

In-map-pair :
    (from i t : ℕ) (ts : List ℕ)
    → In {A = ℕ × ℕ} (i, t) (map (λ (u : ℕ). (from, u)) ts) ↔ ((i ≡ from) × In t ts)
In-map-pair from i t [] = (λ h. absurd h.0, λ h. absurd h.1.0)
In-map-pair from i t (u ∷ ts) =
    let rest = In-map-pair from i t ts in
    (
      elim [
        | inl e ↦ (ap (λ p. p.0) e, inl (ap (λ p. p.1) e))
        | inr h ↦ ((rest.0 h).0, inr (rest.0 h).1)
      ],
      λ h. elim h.1 [ inl e ↦ inl (ap₂ (λ a b. (a, b)) h.0 e) | inr m ↦ inr (rest.1 (h.0, m)) ],
    )

module _ (blocks : List BasicBlock) (entry : ℕ) where
  pub start-Inv : Inv blocks entry (record { edges = []; pending = entry ∷ []; visited = [] })
  unfolding contains
  start-Inv = record {
    reached = λ i. elim [
      | inl h ↦ absurd (cc)
      | inr (inl e) ↦ subst (Reach blocks entry) (sym e) start
      | inr (inr h) ↦ absurd h.0
    ];
    started = inr (inl refl);
    closed = λ i t h. absurd (cc);
    sound = λ i t h. absurd h.0;
    complete = λ i t h. absurd (cc);
  }

  module _ (x : ℕ) (rest : List ℕ) (es : List (ℕ × ℕ)) (v : Set ℕ) where
    abbrev before : Walk
    before = record { edges = es; pending = x ∷ rest; visited = v }

    abbrev out : List ℕ
    out = targets blocks (successors_at blocks x)

    abbrev after : Walk
    after = record {
      edges = es ++ map (λ t. (x, t)) out;
      pending = rest ++ keep (fresh v) out;
      visited = Set.insert x v;
    }

    visited_iff : (i : ℕ) → (contains i (Set.insert x v) ≡ true) ↔ ((i ≡ x) ⊎ (contains i v ≡ true))
    visited_iff i =
        let e : contains i (Set.insert x v) ≡ (if x == i then true else contains i v) =
          contains-insert x i v in
        ground (arith, e)

    pending_iff :
        (i : ℕ) → In i (rest ++ keep (fresh v) out) ↔ (In i rest ⊎ (In i out × (fresh v i ≡ true)))
    pending_iff i = ground (arith, In-append i rest (keep (fresh v) out), In-keep (fresh v) i out)

    edges_iff :
        (i t : ℕ)
        → In {A = ℕ × ℕ} (i, t) (es ++ map (λ (u : ℕ). (x, u)) out)
          ↔ (In {A = ℕ × ℕ} (i, t) es ⊎ ((i ≡ x) × In t out))
    edges_iff i t =
        ground (arith, In-append (i, t) es (map (λ (u : ℕ). (x, u)) out), In-map-pair x i t out)

    keeps-Seen : (i : ℕ) → Seen before i → Seen after i
    keeps-Seen i h = ground (arith, visited_iff i, pending_iff i)

    -- The round that pops `x` keeps the invariant.
    pub after-Inv : Inv blocks entry before → Inv blocks entry after
    after-Inv h = record {
      reached = λ i. elim [
        | inl m ↦ elim ((visited_iff i).0 m) [
          | inl e ↦ subst (Reach blocks entry) (sym e) (h.reached x (inr (inl refl)))
          | inr old ↦ h.reached i (inl old)
        ]
        | inr m ↦ elim ((pending_iff i).0 m) [
          | inl old ↦ h.reached i (inr (inr old))
          | inr (edge, _) ↦ step (h.reached x (inr (inl refl))) edge
        ]
      ];
      started = keeps-Seen entry h.started;
      closed = λ i t seen edge. elim ((visited_iff i).0 seen) [
        | inl e ↦ elim (Bool-cases (contains t v)) [
          | inl old ↦ inl ((visited_iff t).1 (inr old))
          | inr new ↦
              inr ((pending_iff t).1 (inr (subst (λ j. Edge blocks j t) e edge, rw new refl)))
        ]
        | inr old ↦ keeps-Seen t (h.closed i t old edge)
      ];
      sound = λ i t m. elim ((edges_iff i t).0 m) [
        | inl old ↦ ((visited_iff i).1 (inr (h.sound i t old).0), (h.sound i t old).1)
        | inr (e, edge) ↦ ((visited_iff i).1 (inl e), subst (λ j. Edge blocks j t) (sym e) edge)
      ];
      complete = λ i t seen edge. elim ((visited_iff i).0 seen) [
        | inl e ↦ (edges_iff i t).1 (inr (e, subst (λ j. Edge blocks j t) e edge))
        | inr old ↦ (edges_iff i t).1 (inl (h.complete i t old edge))
      ];
    }
