-- ===== src/Boot.antt =====
-- src/mboot.c: what the boot loader hands over. The structures are mapped one page at a time into a
-- region of the kernel; what they hold is a parameter.
pub mod Temporary
pub mod Regions
pub mod RamDisk
mod Tests
use tachyon.Prelude.{
  ℕ, zero, suc, ◌+◌, ◌-◌, ◌/◌, ◌%◌, Bool, not, ◌&&◌, Option, none, some, List, [], ◌∷◌, ltb, leb,
  ◌==◌, if◌then◌else◌,
}
use tachyon.Prelude.Words.{align_rst, align_dn}

-- MBOOT_VTEMP_REG_START, MBOOT_VTEMP_REG_END and PAGE_SIZE_4K
abbrev pub vtemp_reg_start : ℕ
vtemp_reg_start = 2684354560

abbrev pub vtemp_reg_end : ℕ
vtemp_reg_end = 2685337600

abbrev pub page_size : ℕ
page_size = 4096

-- `mboot_pg_temp`, and what `vmem_resolve` returns for each page
pub record Temp : Type 0 where
  pub pg_temp : ℕ
  pub resolved : ℕ → ℕ

-- `while(…)`: from `at` on, the first page for which `vmem_resolve` returns 0, or the end of the region
pub temp_loop : ℕ → (ℕ → ℕ) → ℕ → Option ℕ
temp_loop zero resolved at = none
temp_loop (suc fuel) resolved at =
    let rest = temp_loop fuel resolved (at + page_size) in
    if not (resolved at == 0) && ltb at vtemp_reg_end then rest else some at

-- The page, or `none` for NULL; behind the end of the region `mboot_pg_temp` stays.
pub mboot_find_free_page : ℕ → Temp → Option ℕ × Temp
unfolding temp_loop
mboot_find_free_page fuel t = elim (temp_loop fuel t.resolved t.pg_temp) [
  | none ↦ (none, t)
  | some at ↦
      if leb vtemp_reg_end at
      then (none, record t { pg_temp = at })
      else (some at, record t { pg_temp = at })
]

abbrev pub set_resolved : (ℕ → ℕ) → ℕ → ℕ → ℕ → ℕ
set_resolved resolved page phys p = if p == page then phys else resolved p

-- `maps` is what `vmem_map` returns for a physical and a virtual page.
pub mboot_map : ℕ → (ℕ → ℕ → Bool) → ℕ → Temp → Option ℕ × Temp
unfolding mboot_find_free_page
mboot_map fuel maps mbi_struct t =
    let (vaddr, t') = mboot_find_free_page fuel t in
    elim vaddr [
      | none ↦ (none, t')
      | some v ↦
          if maps (align_dn mbi_struct page_size) v
          then (
            some (v + align_rst mbi_struct page_size),
            record t' { resolved = set_resolved t'.resolved v (align_dn mbi_struct page_size) },
          )
          else (none, t')
    ]

-- `vmem_unmap` takes the page that the address lies in.
pub mboot_unmap : ℕ → Temp → Temp
mboot_unmap addr t = record t { resolved = set_resolved t.resolved (align_dn addr page_size) 0 }

-- `mboot_mmap_t`
pub record Mmap : Type 0 where
  pub size : ℕ
  pub addr : ℕ
  pub len : ℕ
  pub type : ℕ

-- MBOOT_MM_AVAILABLE
abbrev pub mm_available : ℕ
mm_available = 1

-- `for(mmap = mm; …)` at `off` bytes into the table, of which `entry` gives what stands there: the
-- calls of `pmem_add`
pub mmap_loop : ℕ → (ℕ → Mmap) → ℕ → ℕ → List (ℕ × ℕ)
mmap_loop zero entry mmap_len off = []
mmap_loop (suc fuel) entry mmap_len off =
    let mmap = entry off in
    let rest = mmap_loop fuel entry mmap_len (off + mmap.size + 4) in
    if ltb off mmap_len
    then if mmap.type == mm_available then (mmap.addr, mmap.len) ∷ rest else rest
    else []

-- Each round goes on by 4 bytes at least.
pub mboot_pmem_init : (ℕ → Mmap) → ℕ → List (ℕ × ℕ)
unfolding mmap_loop
mboot_pmem_init entry mmap_len = mmap_loop mmap_len entry mmap_len 0

-- `mboot_mod_t`
pub record Module : Type 0 where
  pub start : ℕ
  pub end : ℕ

-- RD_VIRTUAL and RD_VSZ
abbrev pub rd_virtual : ℕ
rd_virtual = 18446744071580037120

abbrev pub rd_vsz : ℕ
rd_vsz = 134217728

-- A difference and ALIGN_UP of `uint32_t`
abbrev pub sub32 : ℕ → ℕ → ℕ
sub32 a b = (a + 4294967296 - b) % 4294967296

abbrev pub align_up32 : ℕ → ℕ
align_up32 x = align_dn ((x + (page_size - 1)) % 4294967296) page_size

-- `while(first_phys < last_phys)` with the pages left: the physical and the virtual pages that are
-- mapped, or `none` where a page cannot be, which is fatal
pub rd_loop : ℕ → (ℕ → ℕ → Bool) → ℕ → ℕ → ℕ → Option (List (ℕ × ℕ))
rd_loop zero maps first last virt = some []
rd_loop (suc k) maps first last virt =
    let rest = rd_loop k maps (first + page_size) last (virt + page_size) in
    if ltb first last
    then if maps first virt
      then elim rest [ none ↦ none | some ps ↦ some ((first, virt) ∷ ps) ]
      else none
    else some []

-- How `mboot_find_rd` ends: no module is a disk; a disk at an address, with the pages mapped for it;
-- the fatal error; or a read at NULL.
pub data RdOutcome : Type 0 where
  no_disk : Temp → RdOutcome
  disk : ℕ → List (ℕ × ℕ) → RdOutcome
  fatal null_read : RdOutcome

-- A module with the magic number
pub rd_map : (ℕ → ℕ → Bool) → Module → RdOutcome
unfolding rd_loop
rd_map maps part =
    let first = align_dn part.start page_size in
    let last = align_up32 part.end in
    if ltb (rd_vsz - page_size) (sub32 part.end part.start)
    then fatal
    else elim (rd_loop ((last - first) / page_size + 1) maps first last rd_virtual) [
      | none ↦ fatal
      | some ps ↦ disk (rd_virtual + align_rst part.start page_size) ps
    ]

-- `for(i = 0; i < mbi->mods_cnt; ++i, ++mod)`; `is_rd` is whether the magic number stands there.
pub mods_loop : ℕ → (ℕ → ℕ → Bool) → (ℕ → Bool) → List Module → Temp → RdOutcome
unfolding rd_map mboot_map mboot_unmap
mods_loop fuel maps is_rd [] t = no_disk t
mods_loop fuel maps is_rd (part ∷ mods) t =
    let (at, t') = mboot_map fuel maps part.start t in
    elim at [
      | none ↦ null_read
      | some a ↦
          let rest = mods_loop fuel maps is_rd mods (mboot_unmap a t') in
          if is_rd part.start then rd_map maps part else rest
    ]
