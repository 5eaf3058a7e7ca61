-- ===== src/Passes/Interval.antt =====
-- struct Interval of ReWizardLib/include/ReWizard/Analysis/Passes/AbstractInterpretationPass.h. An
-- int64_t is an integer of its range. `none` is undefined behaviour: a signed sum or difference out
-- of range, or a shift by a count that is not in 0 … 63.
pub mod Sound
use mathlib.Core.Option
use Prim.Native.Nat.{bit_and, bit_xor}
use re_wizard.Prelude.Int.{ℤ, pos, negsuc, ◌+ℤ◌, ◌-ℤ◌, leb_ℤ, eqb_ℤ, min_ℤ, max_ℤ}
use re_wizard.Prelude.Word.{word_mod}
use re_wizard.Prelude.{
  ℕ, Bool, true, false, not, Option, none, some, ltb, ◌-◌, ◌*◌, ◌/◌, ◌%◌, ◌^◌, ◌&&◌, ◌||◌,
  if◌then◌else◌, nat_key,
}

abbrev pub int64_min : ℤ
int64_min = negsuc (2 ^ 63 - 1)

abbrev pub int64_max : ℤ
int64_max = pos (2 ^ 63 - 1)

-- A result of signed arithmetic.
unfoldable pub checked : ℤ → Option ℤ
checked z = if leb_ℤ int64_min z && leb_ℤ z int64_max then some z else none

-- The 64-bit pattern of an int64_t, and the int64_t of a pattern.
unfoldable pub to_pattern : ℤ → ℕ
to_pattern (pos n) = n
to_pattern (negsuc n) = word_mod - 1 - n

unfoldable pub to_signed : ℕ → ℤ
to_signed p = if ltb p (2 ^ 63) then pos p else negsuc (word_mod - 1 - p)

unfoldable pub and_int : ℤ → ℤ → ℤ
unfolding to_pattern to_signed
and_int a b = to_signed (bit_and (to_pattern a) (to_pattern b))

unfoldable pub xor_int : ℤ → ℤ → ℤ
unfolding to_pattern to_signed
xor_int a b = to_signed (bit_xor (to_pattern a) (to_pattern b))

-- v << c and v >> c. The left shift drops what leaves the word; the right shift keeps the sign.
unfoldable pub shl_int : ℤ → ℤ → Option ℤ
unfolding to_pattern to_signed
shl_int v (pos c) = if ltb c 64 then some (to_signed (to_pattern v * 2 ^ c % word_mod)) else none
shl_int v (negsuc c) = none

unfoldable pub shift_right : ℤ → ℕ → ℤ
shift_right (pos n) c = pos (n / 2 ^ c)
shift_right (negsuc n) c = negsuc (n / 2 ^ c)

unfoldable pub shr_int : ℤ → ℤ → Option ℤ
unfolding shift_right
shr_int v (pos c) = if ltb c 64 then some (shift_right v c) else none
shr_int v (negsuc c) = none

pub record Interval : Type 0 where
  pub lo : ℤ
  pub hi : ℤ
  pub is_bottom : Bool

-- Interval()
abbrev pub bottom : Interval
bottom = record { lo = pos 0; hi = pos 0; is_bottom = true }

abbrev pub range : ℤ → ℤ → Interval
range l h = record { lo = l; hi = h; is_bottom = false }

abbrev pub top : Interval
top = range int64_min int64_max

abbrev pub constant : ℤ → Interval
constant v = range v v

unfoldable pub is_constant : Interval → Bool
is_constant i = not i.is_bottom && eqb_ℤ i.lo i.hi

unfoldable pub contains : Interval → ℤ → Bool
contains i v = not i.is_bottom && (leb_ℤ i.lo v && leb_ℤ v i.hi)

unfoldable pub join : Interval → Interval → Interval
join a b =
    if a.is_bottom then b else if b.is_bottom then a else range (min_ℤ a.lo b.lo) (max_ℤ a.hi b.hi)

-- Range(l, h) of two results, where both are defined.
abbrev pub range_of : Option ℤ → Option ℤ → Option Interval
range_of none h = none
range_of (some l) none = none
range_of (some l) (some h) = some (range l h)

unfoldable pub add : Interval → Interval → Option Interval
unfolding checked
add a b =
    if a.is_bottom || b.is_bottom
    then some bottom
    else range_of (checked (a.lo +ℤ b.lo)) (checked (a.hi +ℤ b.hi))

unfoldable pub sub : Interval → Interval → Option Interval
unfolding checked
sub a b =
    if a.is_bottom || b.is_bottom
    then some bottom
    else range_of (checked (a.lo -ℤ b.hi)) (checked (a.hi -ℤ b.lo))

-- Both branches behind the constants build the same range.
unfoldable pub and : Interval → Interval → Interval
unfolding is_constant contains and_int
and a b =
    if a.is_bottom || b.is_bottom
    then bottom
    else if is_constant a && is_constant b
    then constant (and_int a.lo b.lo)
    else if contains a (pos 0) || contains b (pos 0)
    then range (pos 0) (max_ℤ a.hi b.hi)
    else range (pos 0) (max_ℤ a.hi b.hi)

unfoldable pub xor : Interval → Interval → Interval
unfolding is_constant contains xor_int
xor a b =
    if a.is_bottom || b.is_bottom
    then bottom
    else if is_constant a && is_constant b
    then constant (xor_int a.lo b.lo)
    else if contains a (pos 0) && contains b (pos 0)
    then range (pos 0) (max_ℤ a.hi b.hi)
    else top

unfoldable pub shl : Interval → Interval → Option Interval
unfolding is_constant shl_int
shl a b =
    if a.is_bottom || b.is_bottom
    then some bottom
    else if is_constant a && is_constant b
    then Option.map constant (shl_int a.lo b.lo)
    else Option.map (range (pos 0)) (shl_int a.hi b.hi)

unfoldable pub shr : Interval → Interval → Option Interval
unfolding is_constant shr_int
shr a b =
    if a.is_bottom || b.is_bottom
    then some bottom
    else if is_constant a && is_constant b
    then Option.map constant (shr_int a.lo b.lo)
    else some (range (pos 0) a.hi)
