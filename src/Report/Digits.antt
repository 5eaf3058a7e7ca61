-- ===== src/Report/Digits.antt =====
-- The digits of a number, as std::hex and std::to_string print them.
use re_wizard.Prelude.{
  ℕ, zero, suc, refl, sym, ap, List, [], arith, ltb, ◌+◌, ◌*◌, ◌/◌, ◌%◌, ◌≤◌, ◌<◌, ◌≡◌, ◌∙◌, ◌≢◌,
  ◌∷◌, if◌then◌else◌, string_key,
}

-- The digits of n in a base above one, the last one first; 0 has one digit. A digit above nine stands
-- for its letter. The fuel is enough at n: a division by the base makes a positive number smaller.
unfoldable pub digits : ℕ → ℕ → ℕ → List ℕ
digits zero base n = n % base ∷ []
digits (suc fuel) base n =
    let rest = digits fuel base (n / base) in if ltb n base then n ∷ [] else n % base ∷ rest

abbrev pub hex_digits : ℕ → List ℕ
hex_digits n = digits n 16 n

abbrev pub decimal_digits : ℕ → List ℕ
decimal_digits n = digits n 10 n

value : ℕ → List ℕ → ℕ
value base [] = 0
value base (d ∷ ds) = d + base * value base ds

value-hex_digits : (fuel n : ℕ) → n ≤ fuel → value 16 (digits fuel 16 n) ≡ n
unfolding digits value
value-hex_digits zero n h = ground arith
value-hex_digits (suc fuel) n h = ground (arith, value-hex_digits fuel (n / 16))

value-decimal_digits : (fuel n : ℕ) → n ≤ fuel → value 10 (digits fuel 10 n) ≡ n
unfolding digits value
value-decimal_digits zero n h = ground arith
value-decimal_digits (suc fuel) n h = ground (arith, value-decimal_digits fuel (n / 10))

value-le : (ds : List ℕ) → value 10 ds ≤ value 16 ds
unfolding value
value-le [] = omega arith
value-le (d ∷ ds) = omega (arith, value-le ds)

abbrev last : List ℕ → ℕ
last [] = 0
last (d ∷ ds) = d

last-lt : (fuel n : ℕ) → last (digits fuel 10 n) < 10
unfolding digits
last-lt zero n = ground arith
last-lt (suc fuel) n = ground arith

-- Digits that say the same number in both bases say a single digit.
value-agrees : (ds : List ℕ) → value 16 ds ≡ value 10 ds → value 10 ds ≡ last ds
unfolding value
value-agrees [] h = refl
value-agrees (d ∷ ds) h = omega (arith, value-le ds)

-- From ten on a number is not printed alike in the two bases.
pub decimal_digits-ne-hex_digits : (n : ℕ) → 10 ≤ n → decimal_digits n ≢ hex_digits n
decimal_digits-ne-hex_digits n h e =
    let ten = value-decimal_digits n n (omega arith) in
    let sixteen : value 16 (decimal_digits n) ≡ n =
      ap (value 16) e ∙ value-hex_digits n n (omega arith) in
    omega (arith, value-agrees (decimal_digits n) (sixteen ∙ sym ten), ten, last-lt n n)
