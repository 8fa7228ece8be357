-- ===== src/Boot/Regions.antt =====
-- The memory map that `mboot_pmem_init` of src/mboot.c goes through.
use tachyon.Prelude.{
  ℕ, zero, suc, ◌+◌, ◌≤◌, ◌≡◌, refl, ap, ap₂, ◌∙◌, List, [], ◌∷◌, arith, ◌==◌, if◌then◌else◌,
  lt→ltb, ge→ltb,
}
use tachyon.Boot.{Mmap, mm_available, mmap_loop, mboot_pmem_init}

-- The entries stand one behind the other from `off` on; the size of an entry does not count itself.
abbrev pub Laid : (ℕ → Mmap) → ℕ → List Mmap → Type 0
Laid entry off [] = Unit
Laid entry off (e ∷ es) = (entry off ≡ e) × Laid entry (off + e.size + 4) es

abbrev pub table_len : List Mmap → ℕ
table_len [] = 0
table_len (e ∷ es) = e.size + 4 + table_len es

-- Start and length of the entries of available memory
abbrev pub available : List Mmap → List (ℕ × ℕ)
available [] = []
available (e ∷ es) = if e.type == mm_available then (e.addr, e.len) ∷ available es else available es

mmap_loop-available :
    (fuel : ℕ) (entry : ℕ → Mmap) (off : ℕ) (es : List Mmap)
    → Laid entry off es
    → table_len es ≤ fuel
    → mmap_loop fuel entry (off + table_len es) off ≡ available es
unfolding mmap_loop
mmap_loop-available zero entry off [] laid enough = refl
mmap_loop-available (suc fuel) entry off [] laid enough =
    rw (mmap_loop, ge→ltb off (off + 0) (omega arith)) refl
mmap_loop-available zero entry off (e ∷ es) laid enough = absurd (omega arith)
mmap_loop-available (suc fuel) entry off (e ∷ es) (at, laid) enough =
    let rest = mmap_loop-available fuel entry (off + e.size + 4) es laid (omega arith) in
    let len : off + table_len (e ∷ es) ≡ off + e.size + 4 + table_len es = omega arith in
    rw (mmap_loop, lt→ltb off (off + table_len (e ∷ es)) (omega arith), at)
      (ap₂ (λ (n : ℕ) (l : List (ℕ × ℕ)). if e.type == mm_available then (e.addr, e.len) ∷ l else l)
        len (ap (λ (n : ℕ). mmap_loop fuel entry n (off + e.size + 4)) len ∙ rest))

-- For a table of entries that stand one behind the other and fill it, `mboot_pmem_init` adds the
-- memory of each entry that is available, in the order of the table, and nothing else; a round for
-- each byte of the table is enough.
pub mboot_pmem_init-available :
    (entry : ℕ → Mmap) (es : List Mmap)
    → Laid entry 0 es
    → mboot_pmem_init entry (table_len es) ≡ available es
unfolding mboot_pmem_init
mboot_pmem_init-available entry es laid =
    ap (λ (n : ℕ). mmap_loop (table_len es) entry n 0) (omega arith)
    ∙ mmap_loop-available (table_len es) entry 0 es laid (omega arith)
