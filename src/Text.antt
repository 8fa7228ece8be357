-- ===== src/Text.antt =====
-- src/string.c and src/char.c. A C string is the list of its bytes before the terminating 0, and
-- a pointer into a string is the suffix that it points at. Reads past the terminator do not occur.
pub mod Compare
pub mod Search
pub mod Trim
mod Tests
use tachyon.Prelude.{
  ℕ, zero, suc, ◌+◌, ◌-◌, ◌%◌, ◌≢◌, Bool, true, false, ◌&&◌, ◌||◌, Option, none, some, List, [],
  ◌∷◌, ltb, ◌==◌, if◌then◌else◌, drop, All,
}

abbrev pub Text : Type 0
Text = List ℕ

-- What the list stands for holds no terminator.
abbrev pub IsText : Text → Type 0
IsText = All λ c. c ≢ 0

-- `*p`, and `p + 1` while `*p` is not the terminator.
abbrev pub peek : Text → ℕ
peek [] = 0
peek (c ∷ p) = c

abbrev pub next : Text → Text
next [] = []
next (c ∷ p) = p

-- `p < q` on `char`, which is signed on this architecture.
abbrev pub char_lt : ℕ → ℕ → Bool
char_lt a b = ltb ((a + 128) % 256) ((b + 128) % 256)

-- The results -1, 0 and 1 of a comparison.
pub data Sign : Type 0 where
  minus equal plus : Sign

-- The body of the loops of `strncmp` and `strcmp`; `rest` is what the later rounds return.
abbrev pub compare_char : ℕ → ℕ → Sign → Sign
compare_char a b rest =
    if a == b
    then if a == 0 then equal else rest
    else if a == 0
    then minus
    else if b == 0
    then plus
    else if char_lt a b
    then minus
    else plus

unfoldable pub strncmp : Text → Text → ℕ → Sign
strncmp p q zero = equal
strncmp p q (suc n) = compare_char (peek p) (peek q) (strncmp (next p) (next q) n)

-- At the end of `p` the loop returns, so no later round counts.
unfoldable pub strcmp : Text → Text → Sign
strcmp [] q = compare_char 0 (peek q) equal
strcmp (c ∷ p) q = compare_char c (peek q) (strcmp p (next q))

-- The `n` bytes that `strncpy` writes: those of `t` up to `n`, then zeros.
unfoldable pub strncpy : Text → ℕ → List ℕ
strncpy t zero = []
strncpy [] (suc n) = 0 ∷ strncpy [] n
strncpy (c ∷ t) (suc n) = c ∷ strncpy t n

unfoldable pub strlen : Text → ℕ
strlen [] = 0
strlen (c ∷ s) = suc (strlen s)

unfoldable pub is_equal : Sign → Bool
is_equal equal = true
is_equal _ = false

strstr_loop : Text → Text → ℕ → Option Text
unfolding is_equal
strstr_loop [] p plen = none
strstr_loop (c ∷ s) p plen =
    if (c == peek p) && is_equal (strncmp (c ∷ s) p plen)
    then some (c ∷ s)
    else strstr_loop s p plen

unfoldable pub strstr : Text → Text → Option Text
unfolding strstr_loop strlen strncmp
strstr s p = strstr_loop s p (strlen p)

-- The loop starts at `i = 0` and runs while `i > 1`; the value of `strlen(s) - 1` is overwritten.
strrstr_loop : ℕ → ℕ → Text → Text → Option Text
unfolding is_equal
strrstr_loop zero i s p = none
strrstr_loop (suc fuel) i s p =
    let rest = strrstr_loop fuel (i - 1) s p in
    if ltb 1 i
    then (if (peek (drop i s) == peek p) && is_equal (strncmp (drop i s) p (strlen p))
        then some (drop i s)
        else rest)
    else none

-- The index falls in each round, so `strlen(s) + 1` rounds are enough.
pub strrstr : Text → Text → Option Text
unfolding strrstr_loop
strrstr s p = strrstr_loop (suc (strlen s)) 0 s p

-- The switch of `isspace`: blank, `\n`, `\t`, `\v`, `\f` and `\r`.
unfoldable pub isspace : ℕ → Bool
isspace c = (c == 32) || (c == 10) || (c == 9) || (c == 11) || (c == 12) || (c == 13)
