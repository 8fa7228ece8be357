-- ===== src/Prelude/Words.antt =====
-- Machine words: the wrap-around of `size_t` and `uintptr_t`, and the alignment macros of
-- src/tachyon.h, which all uses apply at a power of two.
use Prim.Native.Nat.{ℕ, ◌+◌, ◌-◌, ◌%◌}

abbrev pub word_mod : ℕ
word_mod = 18446744073709551616

abbrev pub add64 : ℕ → ℕ → ℕ
add64 a b = (a + b) % word_mod

abbrev pub sub64 : ℕ → ℕ → ℕ
sub64 a b = (a + word_mod - b) % word_mod

-- `(x) & ((a) - 1)` and `(x) & ~((a) - 1)` at a power of two `a`.
abbrev pub align_rst : ℕ → ℕ → ℕ
align_rst x a = x % a

abbrev pub align_dn : ℕ → ℕ → ℕ
align_dn x a = x - x % a

abbrev pub align_up : ℕ → ℕ → ℕ
align_up x a = align_dn (add64 x (a - 1)) a
