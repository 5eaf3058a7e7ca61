-- ===== src/Xrefs/Entries.antt =====
-- How often a reference stands in a multimap of Xrefs.antt, and what insertion and erasure do to it.
use re_wizard.Prelude.{
  ℕ, suc, ◌+◌, ◌-◌, ◌≤◌, ◌≡◌, ◌↔◌, Bool, true, List, [], ◌∷◌, ◌++◌, if◌then◌else◌, All, In, keep,
  arith,
}
use re_wizard.Xrefs.{Xref, xref_beq, xref_beq_iff, Entry, erase_one, range}

abbrev pub occurrences : Xref → List Entry → ℕ
occurrences x [] = 0
occurrences x (e ∷ es) = if xref_beq e.1 x then suc (occurrences x es) else occurrences x es

pub occurrences-append :
    (x : Xref) (es fs : List Entry) → occurrences x (es ++ fs) ≡ occurrences x es + occurrences x fs
occurrences-append x [] fs = omega arith
occurrences-append x (e ∷ es) fs = ground (arith, occurrences-append x es fs)

-- Where the test accepts exactly the entries of `x`, one entry of `x` goes and nothing else.
pub occurrences-erase_one :
    (p : Entry → Bool) (x y : Xref) (es : List Entry)
    → All (λ e. (p e ≡ true) ↔ (e.1 ≡ x)) es
    → occurrences y (erase_one p es)
      ≡ (if xref_beq x y then occurrences y es - 1 else occurrences y es)
unfolding erase_one
occurrences-erase_one p x y [] h = ground arith
occurrences-erase_one p x y (e ∷ es) h =
    ground (arith, xref_beq_iff e.1 y, xref_beq_iff x y, h.0, occurrences-erase_one p x y es h.1)

pub All-erase_one :
    (P : Entry → Type 0) (p : Entry → Bool) (es : List Entry) → All P es → All P (erase_one p es)
unfolding erase_one
All-erase_one P p [] h = tt
All-erase_one P p (e ∷ es) h = ground (arith, All-erase_one P p es h.1)

pub All-append : (P : Entry → Type 0) (es fs : List Entry) → All P es → All P fs → All P (es ++ fs)
All-append P [] fs h k = k
All-append P (e ∷ es) fs h k = (h.0, All-append P es fs h.1 k)

-- A reference is found under its key exactly where it occurs.
pub In-range :
    (key : Xref → ℕ) (x : Xref) (a : ℕ) (es : List Entry)
    → All (λ e. e.0 ≡ key e.1) es
    → In x (range a es) ↔ ((1 ≤ occurrences x es) × (key x ≡ a))
unfolding range keep
In-range key x a [] h = (λ m. absurd m.0, λ m. absurd (omega arith))
In-range key x a (e ∷ es) h = ground (arith, xref_beq_iff e.1 x, In-range key x a es h.1)
