-- ===== src/Text/Trim.antt =====
-- src/trim.c: `ltrim`, `rtrim` and `trim`, on the text that the buffer holds. `memmove(s, cur,
-- len + 1)` leaves the `len` bytes at `cur` and their terminator at `s`; writing a 0 at an index
-- cuts the text there.
pub mod Edges
use tachyon.Prelude.{ℕ, zero, suc, ◌+◌, ◌-◌, [], ◌∷◌, ◌==◌, if◌then◌else◌, length, get_or, take}
use tachyon.Text.{Text, strlen, isspace}

-- `while(*cur && isspace(*cur)) { ++cur, --len; }`
skip_spaces : Text → ℕ → Text × ℕ
skip_spaces [] len = ([], len)
skip_spaces (c ∷ cur) len = if isspace c then skip_spaces cur (len - 1) else (c ∷ cur, len)

-- The two pointers differ exactly where the loop has shortened the rest.
pub ltrim : Text → Text
unfolding skip_spaces strlen isspace
ltrim [] = []
ltrim (c ∷ s) =
    let (cur, len) = skip_spaces (c ∷ s) (strlen (c ∷ s)) in
    if length cur == length (c ∷ s) then c ∷ s else take len cur

-- `while(cur != s && isspace(*cur)) { --cur, --len; }` on the index `cur - s`.
last_index : Text → ℕ → ℕ
last_index s zero = zero
last_index s (suc i) = if isspace (get_or s (suc i) 0) then last_index s i else suc i

pub rtrim : Text → Text
unfolding last_index strlen isspace
rtrim [] = []
rtrim (c ∷ s) =
    let cur = last_index (c ∷ s) (strlen (c ∷ s) - 1) in
    take (if isspace (get_or (c ∷ s) cur 0) then cur else cur + 1) (c ∷ s)

pub trim : Text → Text
unfolding ltrim rtrim
trim s = rtrim (ltrim s)
