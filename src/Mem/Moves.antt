-- ===== src/Mem/Moves.antt =====
-- What the loops of src/mem.c do to each byte of memory.
use tachyon.Prelude.{
  ℕ, zero, suc, ◌+◌, ◌-◌, ◌%◌, ◌≤◌, ◌<◌, ◌≡◌, refl, sym, ◌∙◌, ◌↔◌, ◌⊎◌, ◌&&◌, arith, ltb, leb,
  if◌then◌else◌,
}
use tachyon.Mem.{Memory, poke, memset, memcmp, copy_up, copy_down, memcpy, memmove}

-- Memory with `n` bytes at `d` replaced by those that `m` has at `s`.
abbrev pub moved : Memory → ℕ → ℕ → ℕ → Memory
moved m d s n a = if leb d a && ltb a (d + n) then m (s + (a - d)) else m a

copy_up-moved :
    (m : Memory) (d s n a : ℕ) → (d ≤ s) ⊎ (s + n ≤ d) → copy_up m d s n a ≡ moved m d s n a
unfolding copy_up
copy_up-moved m d s zero a h = ground arith
copy_up-moved m d s (suc n) a h =
    copy_up-moved (poke m d (m s)) (d + 1) (s + 1) n a (omega arith) ∙ ground arith

copy_down-moved : (m : Memory) (d s n a : ℕ) → s < d → copy_down m d s n a ≡ moved m d s n a
unfolding copy_down
copy_down-moved m d s zero a h = ground arith
copy_down-moved m d s (suc k) a h =
    copy_down-moved (poke m (d + k) (m (s + k))) d s k a h ∙ ground arith

-- `memmove` sets each byte of the destination to the byte that the source held before the call,
-- also where the two overlap, and no other byte changes.
pub memmove-moved : (m : Memory) (d s n a : ℕ) → memmove m d s n a ≡ moved m d s n a
unfolding memmove
memmove-moved m d s n a = ground (arith, copy_up-moved m d s n a, copy_down-moved m d s n a)

-- `memcpy` does what `memmove` does to each byte, where the destination starts at or before the source,
-- or at or behind its end.
pub memcpy-memmove :
    (m : Memory) (d s n a : ℕ) → (d ≤ s) ⊎ (s + n ≤ d) → memcpy m d s n a ≡ memmove m d s n a
unfolding memcpy
memcpy-memmove m d s n a h = copy_up-moved m d s n a h ∙ sym (memmove-moved m d s n a)

-- `memset` writes the low byte of `c` to the `n` bytes at `p`, and to no other byte.
pub memset_lem :
    (m : Memory) (p c n a : ℕ)
    → memset m p c n a ≡ (if leb p a && ltb a (p + n) then c % 256 else m a)
unfolding memset
memset_lem m p c zero a = ground arith
memset_lem m p c (suc n) a = memset_lem (poke m p (c % 256)) (p + 1) c n a ∙ ground arith

memcmp_sound :
    (m : Memory) (p q n : ℕ) → memcmp m p q n ≡ 0 → (i : ℕ) → i < n → m (p + i) ≡ m (q + i)
unfolding memcmp
memcmp_sound m p q zero e i h = absurd (omega arith)
memcmp_sound m p q (suc n) e zero h = ground arith
memcmp_sound m p q (suc n) e (suc i) h =
    ground
      (arith, memcmp_sound m (p + 1) (q + 1) n, memcmp_sound m (p + 1) (q + 1) n (ground arith) i)

memcmp_complete :
    (m : Memory) (p q n : ℕ) → ((i : ℕ) → i < n → m (p + i) ≡ m (q + i)) → memcmp m p q n ≡ 0
unfolding memcmp
memcmp_complete m p q zero h = refl
memcmp_complete m p q (suc n) h =
    ground (arith, h 0, memcmp_complete m (p + 1) (q + 1) n λ (i : ℕ) l. ground (arith, h (suc i)))

-- `memcmp` returns 0 exactly when the two buffers hold the same bytes.
pub memcmp_iff :
    (m : Memory) (p q n : ℕ) → (memcmp m p q n ≡ 0) ↔ ((i : ℕ) → i < n → m (p + i) ≡ m (q + i))
memcmp_iff m p q n = (memcmp_sound m p q n, memcmp_complete m p q n)
