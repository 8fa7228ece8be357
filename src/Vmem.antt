-- ===== src/Vmem.antt =====
-- src/vmem.c and the walk of src/vmem_mgmt.c: the page tables of an address space. The tables of each level
-- lie at physical addresses of their own, as pmem_alloc hands out a page only once.
mod Tests
pub mod Slots
pub mod Lookup
pub mod RoundTrip
pub mod Clobber
pub mod Global
use tachyon.Prelude.{
  ℕ, ◌-◌, ◌/◌, ◌%◌, Bool, true, false, not, ◌&&◌, ◌||◌, Option, none, some, List, [], ◌∷◌, ◌==◌,
  if◌then◌else◌,
}

-- The flags of an entry, PG_PRESENT and so on
pub record Flags : Type 0 where
  pub present : Bool
  pub writable : Bool
  pub user : Bool
  pub writethrough : Bool
  pub noncachable : Bool
  pub large : Bool
  pub global : Bool

abbrev pub or_flags : Flags → Flags → Flags
or_flags a b = record {
  present = a.present || b.present;
  writable = a.writable || b.writable;
  user = a.user || b.user;
  writethrough = a.writethrough || b.writethrough;
  noncachable = a.noncachable || b.noncachable;
  large = a.large || b.large;
  global = a.global || b.global;
}

abbrev pub no_flags : Flags
no_flags = record {
  present = false;
  writable = false;
  user = false;
  writethrough = false;
  noncachable = false;
  large = false;
  global = false;
}

-- An entry of a table: what VM_ENTRY_FLAG_MASK leaves of it, an address, and the other bits, the flags
pub record Entry : Type 0 where
  pub addr : ℕ
  pub flags : Flags

abbrev pub no_entry : Entry
no_entry = record { addr = 0; flags = no_flags }

-- The tables of a level, by address and index.
abbrev pub Level : Type 0
Level = ℕ → ℕ → Entry

abbrev pub put : Level → ℕ → ℕ → Entry → Level
put l t i e t' i' = if (t' == t) && (i' == i) then e else l t' i'

abbrev pub cleared : Level → ℕ → Level
cleared l t t' i = if t' == t then no_entry else l t' i

-- `fresh` are the pages that pmem_alloc will return.
pub record Tables : Type 0 where
  pub pml4 : Level
  pub pdpt : Level
  pub pd : Level
  pub pt : Level
  pub fresh : List ℕ

abbrev pub idx_pml4 : ℕ → ℕ
idx_pml4 virt = virt / 549755813888 % 512

abbrev pub idx_pdpt : ℕ → ℕ
idx_pdpt virt = virt / 1073741824 % 512

abbrev pub idx_pd : ℕ → ℕ
idx_pd virt = virt / 2097152 % 512

abbrev pub idx_pt : ℕ → ℕ
idx_pt virt = virt / 4096 % 512

-- How VM_CHECK_ENTRY leaves a level and the next one, with the pages left: it goes on, or to `not_found`, or
-- the allocation of a table is fatal.
pub data Checked : Type 0 where
  entered : Level → Level → List ℕ → Checked
  not_found out_of_memory : Checked

-- vmem_mgmt_alloc, and the entry for the new table
pub add_table : Flags → Level → Level → ℕ → ℕ → List ℕ → Checked
add_table u this next t i [] = out_of_memory
add_table u this next t i (phys ∷ rest) =
    if phys == 0
    then out_of_memory
    else entered
        (put this t i (record {
          addr = phys;
          flags = or_flags (record no_flags { present = true; writable = true }) u;
        }))
        (cleared next phys) rest

-- VM_CHECK_ENTRY
pub check_entry : Bool → Flags → Level → Level → ℕ → ℕ → List ℕ → Checked
check_entry alloc u this next t i fresh =
    let e = this t i in
    if e.flags.present
    then entered (if alloc then put this t i (record e { flags = or_flags e.flags u }) else this)
        next fresh
    else if alloc
    then add_table u this next t i fresh
    else not_found

pub data SplitCode : Type 0 where
  table_not_mapped small_expected large_expected : SplitCode

-- `SplitSuccess` with `*pd` and `*pt`, another result, or a fatal error
pub data Split : Type 0 where
  success : ℕ → Option ℕ → Tables → Split
  failed : SplitCode → Tables → Split
  halted : Split

pub split_pt : Tables → ℕ → ℕ → Bool → Flags → Split
split_pt s pd virt alloc u = elim (check_entry alloc u s.pd s.pt pd (idx_pd virt) s.fresh) [
  | entered l n f ↦
      success pd (some ((l pd (idx_pd virt)).addr)) (record s { pd = l; pt = n; fresh = f })
  | not_found ↦ failed table_not_mapped s
  | out_of_memory ↦ halted
]

pub split_pd : Tables → ℕ → ℕ → Bool → Bool → Flags → Split
split_pd s pd virt large alloc u =
    let here = (s.pd pd (idx_pd virt)).flags in
    if large
    then if here.present && not here.large then failed large_expected s else success pd none s
    else if here.present && here.large
    then failed small_expected s
    else split_pt s pd virt alloc u

pub split_pdpt : Tables → ℕ → ℕ → Bool → Bool → Flags → Split
split_pdpt s pdpt virt large alloc u =
    elim (check_entry alloc u s.pdpt s.pd pdpt (idx_pdpt virt) s.fresh) [
      | entered l n f ↦
          split_pd (record s { pdpt = l; pd = n; fresh = f }) ((l pdpt (idx_pdpt virt)).addr) virt
            large alloc u
      | not_found ↦ failed table_not_mapped s
      | out_of_memory ↦ halted
    ]

pub vmem_mgmt_split : Tables → ℕ → ℕ → Bool → Bool → Flags → Split
vmem_mgmt_split s space virt large alloc u =
    elim (check_entry alloc u s.pml4 s.pdpt space (idx_pml4 virt) s.fresh) [
      | entered l n f ↦
          split_pdpt (record s { pml4 = l; pdpt = n; fresh = f }) ((l space (idx_pml4 virt)).addr)
            virt large alloc u
      | not_found ↦ failed table_not_mapped s
      | out_of_memory ↦ halted
    ]

-- `phys & VM_ENTRY_FLAG_MASK`, and the flags that the other bits of `phys` are
abbrev pub page_of : ℕ → ℕ
page_of phys = phys - phys % 4096

abbrev pub low_flags : ℕ → Flags
low_flags phys = record {
  present = phys % 2 == 1;
  writable = phys / 2 % 2 == 1;
  user = phys / 4 % 2 == 1;
  writethrough = phys / 8 % 2 == 1;
  noncachable = phys / 16 % 2 == 1;
  large = phys / 128 % 2 == 1;
  global = phys / 256 % 2 == 1;
}

-- VM_SET_IFN_PRESENT: `phys | PG_PRESENT | flags`
abbrev pub set_ifn_present : Level → ℕ → ℕ → ℕ → Flags → Bool × Level
set_ifn_present l t i phys flags = if (l t i).flags.present then (false, l) else (
  true,
  put l t i (record {
    addr = page_of phys;
    flags = or_flags (record flags { present = true }) (low_flags phys);
  }),
)

-- At the tables found. Without large page and page table, an error.
abbrev pub map_at : ℕ → Option ℕ → Tables → ℕ → ℕ → Flags → Bool × Tables
map_at pd pt s phys virt flags =
    if flags.large
    then (let r = set_ifn_present s.pd pd (idx_pd virt) phys flags in (r.0, record s { pd = r.1 }))
    else elim pt [
      | some t ↦
          (let r = set_ifn_present s.pt t (idx_pt virt) phys flags in (r.0, record s { pt = r.1 }))
      | none ↦ (false, s)
    ]

-- `none` is a fatal error. TableNotMapped cannot occur with VM_SPLIT_ALLOC.
pub vmem_map : Tables → ℕ → ℕ → ℕ → Flags → Option (Bool × Tables)
vmem_map s space phys virt flags = elim (vmem_mgmt_split s space virt flags.large true flags) [
  | success pd pt s' ↦ some (map_at pd pt s' phys virt flags)
  | failed code s' ↦ some (false, s')
  | halted ↦ none
]

-- VM_RES_UNMAP, for a large page or a small one
abbrev pub find_at : Bool → ℕ → Option ℕ → Tables → ℕ → ℕ × Tables
find_at unmap pd pt s virt =
    let e = s.pd pd (idx_pd virt) in
    if e.flags.large
    then (page_of e.addr, if unmap then record s { pd = put s.pd pd (idx_pd virt) no_entry } else s)
    else elim pt [
      | some t ↦ (
        page_of ((s.pt t (idx_pt virt)).addr),
        if unmap then record s { pt = put s.pt t (idx_pt virt) no_entry } else s,
      )
      | none ↦ (0, s)
    ]

-- The second chance, for a large page
abbrev pub find_large : Bool → Tables → ℕ → ℕ → Option (ℕ × Tables)
find_large unmap s space virt = elim (vmem_mgmt_split s space virt true false no_flags) [
  | success pd pt s' ↦ some (find_at unmap pd pt s' virt)
  | failed code s' ↦ none
  | halted ↦ none
]

pub vmem_find_unmap : Bool → Tables → ℕ → ℕ → Option (ℕ × Tables)
vmem_find_unmap unmap s space virt = elim (vmem_mgmt_split s space virt false false no_flags) [
  | success pd pt s' ↦ some (find_at unmap pd pt s' virt)
  | failed table_not_mapped s' ↦ some (0, s')
  | failed small_expected s' ↦ find_large unmap s' space virt
  | failed large_expected s' ↦ none
  | halted ↦ none
]

abbrev pub vmem_unmap : Tables → ℕ → ℕ → Option (ℕ × Tables)
vmem_unmap = vmem_find_unmap true

abbrev pub vmem_resolve : Tables → ℕ → ℕ → Option (ℕ × Tables)
vmem_resolve = vmem_find_unmap false
