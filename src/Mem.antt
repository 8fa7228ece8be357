-- ===== src/Mem.antt =====
-- src/mem.c: the byte loops over memory. Memory is a function from addresses to bytes, and a
-- buffer does not wrap round the address space (C gives such a buffer no meaning).
pub mod Moves
mod Tests
use tachyon.Prelude.{ℕ, zero, suc, ◌+◌, ◌%◌, ltb, ◌==◌, if◌then◌else◌}

abbrev pub Memory : Type 0
Memory = ℕ → ℕ

abbrev pub poke : Memory → ℕ → ℕ → Memory
poke m p v a = if a == p then v else m a

-- `while(n--) { *p++ = c; }`; the parameter `c` is a `uint8_t`.
pub memset : Memory → ℕ → ℕ → ℕ → Memory
memset m p c zero = m
memset m p c (suc n) = memset (poke m p (c % 256)) (p + 1) c n

-- `for(i = 0; i < n; i++)` with `n` rounds left at the pointers `v1 + i` and `v2 + i`.
pub memcmp : Memory → ℕ → ℕ → ℕ → ℕ
memcmp m v1 v2 zero = 0
memcmp m v1 v2 (suc n) = let rest = memcmp m (v1 + 1) (v2 + 1) n in if m v1 == m v2 then rest else 1

-- The ascending loop, with the destination, the source and the rounds left.
copy_up : Memory → ℕ → ℕ → ℕ → Memory
copy_up m d s zero = m
copy_up m d s (suc n) = copy_up (poke m d (m s)) (d + 1) (s + 1) n

-- The descending loop writes `d[n - i - 1]`, so the rounds left are the index plus one.
copy_down : Memory → ℕ → ℕ → ℕ → Memory
copy_down m d s zero = m
copy_down m d s (suc k) = copy_down (poke m (d + k) (m (s + k))) d s k

pub memcpy : Memory → ℕ → ℕ → ℕ → Memory
unfolding copy_up
memcpy m dst src n = copy_up m dst src n

pub memmove : Memory → ℕ → ℕ → ℕ → Memory
unfolding copy_up copy_down
memmove m dst src n =
    if src == dst
    then m
    else if ltb dst src
    then copy_up m dst src n
    else if ltb src dst
    then copy_down m dst src n
    else m
