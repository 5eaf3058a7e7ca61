-- ===== src/Passes/Interval/Sound.antt =====
-- What the operations on intervals promise of the values that their arguments contain.
use mathlib.Core.Option.{some-injective}
use re_wizard.Prelude.Int.{
  ℤ, pos, ◌+ℤ◌, ◌-ℤ◌, ◌≤ℤ◌, leb_ℤ, min_ℤ, max_ℤ, min_ℤ-le, le-max_ℤ, le-min_ℤ, max_ℤ-le, +ℤ_parts,
  -ℤ_parts,
}
use re_wizard.Prelude.{
  ℕ, refl, sym, inl, inr, true, false, Option, none, some, arith, Bool-cases, ◌<◌, ◌≡◌, ◌↔◌, ◌⊎◌,
  ◌&&◌, nat_key, string_key,
}
use re_wizard.Passes.Interval.{
  Interval, int64_min, int64_max, checked, range, top, constant, contains, join, range_of, add, sub,
}

-- Membership as an order of integers.
pub contains_iff :
    (i : Interval) (v : ℤ)
    → (contains i v ≡ true) ↔ ((i.is_bottom ≡ false) × (i.lo ≤ℤ v) × (v ≤ℤ i.hi))
unfolding contains
contains_iff i v = ground arith

join-bounds :
    (a b : Interval)
    → a.is_bottom ≡ false
    → b.is_bottom ≡ false
    → join a b ≡ range (min_ℤ a.lo b.lo) (max_ℤ a.hi b.hi)
unfolding join
join-bounds a b h k = rw (h, k) refl

join-left : (a b : Interval) → a.is_bottom ≡ true → join a b ≡ b
unfolding join
join-left a b h = ground arith

join-right : (a b : Interval) → a.is_bottom ≡ false → b.is_bottom ≡ true → join a b ≡ a
unfolding join
join-right a b h k = ground arith

-- The join of two intervals contains what either contains.
pub join-upper :
    (a b : Interval) (v : ℤ)
    → (contains a v ≡ true) ⊎ (contains b v ≡ true)
    → contains (join a b) v ≡ true
join-upper a b v h = elim (Bool-cases a.is_bottom) [
  | inl none_a ↦ rw (join-left a b none_a) (ground (arith, contains_iff a v))
  | inr some_a ↦ elim (Bool-cases b.is_bottom) [
    | inl none_b ↦ rw (join-right a b some_a none_b) (ground (arith, contains_iff b v))
    | inr some_b ↦ rw (join-bounds a b some_a some_b) (
        (contains_iff _ v).1 (elim h [
          | inl in_a ↦
              let (_, l, u) = (contains_iff a v).0 in_a in
              (refl, omega (arith, min_ℤ-le a.lo b.lo), omega (arith, le-max_ℤ a.hi b.hi))
          | inr in_b ↦
              let (_, l, u) = (contains_iff b v).0 in_b in
              (refl, omega (arith, min_ℤ-le a.lo b.lo), omega (arith, le-max_ℤ a.hi b.hi))
        ]))
  ]
]

-- An interval that contains both ends of two others contains what lies between.
join-within :
    (a b c : Interval) (v : ℤ)
    → c.is_bottom ≡ false
    → (c.lo ≤ℤ a.lo) × (a.hi ≤ℤ c.hi)
    → (c.lo ≤ℤ b.lo) × (b.hi ≤ℤ c.hi)
    → contains (join a b) v ≡ true
    → contains c v ≡ true
join-within a b c v full in_a in_b m = elim (Bool-cases a.is_bottom) [
  | inl none_a ↦
      let (_, l, u) = (contains_iff b v).0 (rw (join-left a b none_a) at m) in
      (contains_iff c v).1 (full, omega arith, omega arith)
  | inr some_a ↦ elim (Bool-cases b.is_bottom) [
    | inl none_b ↦
        let (_, l, u) = (contains_iff a v).0 (rw (join-right a b some_a none_b) at m) in
        (contains_iff c v).1 (full, omega arith, omega arith)
    | inr some_b ↦
        let (_, l, u) =
          (contains_iff (range (min_ℤ a.lo b.lo) (max_ℤ a.hi b.hi)) v).0
            (rw (join-bounds a b some_a some_b) at m) in
        let low = le-min_ℤ a.lo b.lo c.lo in_a.0 in_b.0 in
        let high = max_ℤ-le a.hi b.hi c.hi in_a.1 in_b.1 in
        (contains_iff c v).1 (full, omega arith, omega arith)
  ]
]

-- The join is the least interval above two that are not empty: where an interval contains every
-- value of both, it contains every value of their join.
pub join_least :
    (a b c : Interval) (v : ℤ)
    → contains a a.lo ≡ true
    → contains b b.lo ≡ true
    → ((w : ℤ) → (contains a w ≡ true) ⊎ (contains b w ≡ true) → contains c w ≡ true)
    → contains (join a b) v ≡ true
    → contains c v ≡ true
join_least a b c v full_a full_b h m =
    let (bot_a, _, ord_a) = (contains_iff a a.lo).0 full_a in
    let (bot_b, _, ord_b) = (contains_iff b b.lo).0 full_b in
    let (bot_c, lo_a, _) = (contains_iff c a.lo).0 (h a.lo (inl full_a)) in
    let (_, lo_b, _) = (contains_iff c b.lo).0 (h b.lo (inr full_b)) in
    let (_, _, hi_a) =
      (contains_iff c a.hi).0
        (h a.hi (inl ((contains_iff a a.hi).1 (bot_a, ord_a, omega arith)))) in
    let (_, _, hi_b) =
      (contains_iff c b.hi).0
        (h b.hi (inr ((contains_iff b b.hi).1 (bot_b, ord_b, omega arith)))) in
    join-within a b c v bot_c (lo_a, hi_a) (lo_b, hi_b) m

checked-some : (z w : ℤ) → checked z ≡ some w → (w ≡ z) × (int64_min ≤ℤ z) × (z ≤ℤ int64_max)
unfolding checked
checked-some z w h = elim (Bool-cases (leb_ℤ int64_min z && leb_ℤ z int64_max)) [
  | inl fits ↦ (sym (some-injective z w (rw (fits, checked) at h)), ground arith, ground arith)
  | inr out ↦ absurd (cc (rw (out, checked) at h))
]

range_of-some :
    (l h : Option ℤ) (c : Interval)
    → range_of l h ≡ some c
    → (x : ℤ) × (y : ℤ) × (l ≡ some x) × (h ≡ some y) × (c ≡ range x y)
range_of-some none h c e = absurd (cc)
range_of-some (some l) none c e = absurd (cc)
range_of-some (some l) (some h) c e = (l, h, refl, refl, sym (some-injective (range l h) c e))

-- Where the sum of two intervals is defined it contains every sum of their values, and every such
-- sum is an int64_t.
pub add_sound :
    (a b c : Interval) (x y : ℤ)
    → add a b ≡ some c
    → contains a x ≡ true
    → contains b y ≡ true
    → (contains c (x +ℤ y) ≡ true) × (int64_min ≤ℤ (x +ℤ y)) × ((x +ℤ y) ≤ℤ int64_max)
unfolding add
add_sound a b c x y h ha hb =
    let (bot_a, lo_a, hi_a) = (contains_iff a x).0 ha in
    let (bot_b, lo_b, hi_b) = (contains_iff b y).0 hb in
    let (l, u, e_l, e_u, e_c) =
      range_of-some (checked (a.lo +ℤ b.lo)) (checked (a.hi +ℤ b.hi)) c (rw (bot_a, bot_b) at h) in
    let (p, p_min, _) = checked-some (a.lo +ℤ b.lo) l e_l in
    let (q, _, q_max) = checked-some (a.hi +ℤ b.hi) u e_u in
    let low : (a.lo +ℤ b.lo) ≤ℤ (x +ℤ y) =
      omega (arith, +ℤ_parts x y, +ℤ_parts a.lo b.lo, +ℤ_parts a.hi b.hi) in
    let high : (x +ℤ y) ≤ℤ (a.hi +ℤ b.hi) =
      omega (arith, +ℤ_parts x y, +ℤ_parts a.lo b.lo, +ℤ_parts a.hi b.hi) in
    (
      rw e_c ((contains_iff (range l u) (x +ℤ y)).1 (refl, rw p low, rw q high)),
      omega arith,
      omega arith,
    )

-- Where the difference of two intervals is defined it contains every difference of their values,
-- and every such difference is an int64_t.
pub sub_sound :
    (a b c : Interval) (x y : ℤ)
    → sub a b ≡ some c
    → contains a x ≡ true
    → contains b y ≡ true
    → (contains c (x -ℤ y) ≡ true) × (int64_min ≤ℤ (x -ℤ y)) × ((x -ℤ y) ≤ℤ int64_max)
unfolding sub
sub_sound a b c x y h ha hb =
    let (bot_a, lo_a, hi_a) = (contains_iff a x).0 ha in
    let (bot_b, lo_b, hi_b) = (contains_iff b y).0 hb in
    let (l, u, e_l, e_u, e_c) =
      range_of-some (checked (a.lo -ℤ b.hi)) (checked (a.hi -ℤ b.lo)) c (rw (bot_a, bot_b) at h) in
    let (p, p_min, _) = checked-some (a.lo -ℤ b.hi) l e_l in
    let (q, _, q_max) = checked-some (a.hi -ℤ b.lo) u e_u in
    let low : (a.lo -ℤ b.hi) ≤ℤ (x -ℤ y) =
      omega (arith, -ℤ_parts x y, -ℤ_parts a.lo b.hi, -ℤ_parts a.hi b.lo) in
    let high : (x -ℤ y) ≤ℤ (a.hi -ℤ b.lo) =
      omega (arith, -ℤ_parts x y, -ℤ_parts a.lo b.hi, -ℤ_parts a.hi b.lo) in
    (
      rw e_c ((contains_iff (range l u) (x -ℤ y)).1 (refl, rw p low, rw q high)),
      omega arith,
      omega arith,
    )

-- A register of which nothing is known has the interval of all int64_t; adding any positive
-- constant to it, or subtracting one, is a signed overflow in the code.
pub add-top :
    (n : ℕ) → 0 < n → (add top (constant (pos n)) ≡ none) × (sub top (constant (pos n)) ≡ none)
unfolding add sub checked ◌+ℤ◌ ◌-ℤ◌
add-top n h = (ground arith, ground arith)
