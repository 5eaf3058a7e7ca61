-- ===== src/Prelude/Word.antt =====
-- uintptr_t and uint64_t: numbers below 2 ^ 64, with the wrap-around written out.
use Prim.Native.Nat.{ℕ, ◌+◌, ◌-◌, ◌%◌, ◌^◌}

abbrev pub word_mod : ℕ
word_mod = 2 ^ 64

-- a + b on uintptr_t.
abbrev pub add_word : ℕ → ℕ → ℕ
add_word a b = (a + b) % word_mod

-- a - b on uintptr_t.
abbrev pub sub_word : ℕ → ℕ → ℕ
sub_word a b = (a + word_mod - b) % word_mod
