-- ===== src/Vmem/Global.antt =====
-- vmem_mgmt_make_glob_spc of src/vmem_mgmt.c: a new address space with the kernel's mappings.
use tachyon.Prelude.{
  ℕ, ◌≡◌, refl, ◌⊎◌, inl, inr, Bool, true, false, not, ◌&&◌, ◌||◌, Option, none, some, List, [],
  ◌∷◌, ◌++◌, map, ◌==◌, if◌then◌else◌,
}
use tachyon.Vmem.Lookup.{Reaches, Reaches-split}
use tachyon.Vmem.{
  Flags, no_flags, Entry, put, cleared, Tables, idx_pd, idx_pt, table_not_mapped, small_expected,
  large_expected, success, failed, halted, split_pd, vmem_mgmt_split, vmem_map,
}

-- `vmem_glob_mapping_t`
pub record Mapping : Type 0 where
  pub from : ℕ
  pub to : ℕ
  pub flags : Flags

-- vmem_mgmt_add_global_mapping, at the end of the list
pub vmem_mgmt_add_global_mapping : List Mapping → ℕ → ℕ → Flags → List Mapping
vmem_mgmt_add_global_mapping maps phys virt flags =
    maps ++ (record { from = phys; to = virt; flags = flags } ∷ [])

-- How the work on a mapping ends: it goes on, or with `fatal()`, or at variables that were not set.
pub data Glob : Type 0 where
  going : Tables → Glob
  fatal not_set : Glob

-- PG_KFLAGS without PG_GLOBAL
abbrev pub ng_flags : Flags
ng_flags = record no_flags { present = true; writable = true }

-- VM_FLAGS: the flags that have to agree
abbrev pub same_flags : Flags → Flags → Bool
same_flags a b =
    agree a.writable b.writable
    && agree a.user b.user
    && agree a.writethrough b.writethrough
    && agree a.noncachable b.noncachable
    && agree a.global b.global
  where
    agree : Bool → Bool → Bool
    agree true b = b
    agree false b = not b

-- vmem_map of the mapping; a failure is fatal.
abbrev pub inserted : Tables → ℕ → Mapping → Glob
inserted s space map = elim (vmem_map s space map.from map.to map.flags) [
  | some (true, s') ↦ going s'
  | some (false, s') ↦ fatal
  | none ↦ fatal
]

-- An entry that is there already
abbrev pub checked_flags : Entry → Tables → ℕ → Mapping → Glob
checked_flags e s space map =
    if e.flags.present
    then if same_flags e.flags map.flags then going s else fatal
    else inserted s space map

-- After `SplitSuccess`; for a large page whose entry is not present, `pt` was never set.
abbrev pub glob_found : ℕ → Option ℕ → Tables → ℕ → Mapping → Glob
glob_found pd pt s space map =
    let e = s.pd pd (idx_pd map.to) in
    if e.flags.large
    then checked_flags e s space map
    else elim pt [ some t ↦ checked_flags (s.pt t (idx_pt map.to)) s space map | none ↦ not_set ]

-- One round over the list. With `SmallExpected`, `ipd` was not set and the table is not mapped any more.
pub glob_map : Tables → ℕ → Mapping → Glob
glob_map s space map = elim (vmem_mgmt_split s space map.to map.flags.large false no_flags) [
  | success pd pt s' ↦ glob_found pd pt s' space map
  | failed table_not_mapped s' ↦ inserted s' space map
  | failed small_expected s' ↦ not_set
  | failed large_expected s' ↦ fatal
  | halted ↦ fatal
]

pub glob_loop : List Mapping → ℕ → Tables → Glob
glob_loop [] space s = going s
glob_loop (map ∷ maps) space s = elim (glob_map s space map) [
  | going s' ↦ glob_loop maps space s'
  | fatal ↦ fatal
  | not_set ↦ not_set
]

-- The tables for the low addresses, in two pages of pmem_alloc. `kernel_pdpt` and `pt_low` are the addresses of the
-- kernel's own tables.
abbrev pub low_tables : Tables → ℕ → ℕ → ℕ → ℕ → ℕ → List ℕ → Tables
low_tables s space kernel_pdpt pt_low pdpt pd rest = record s {
  pml4 =
      put (put (cleared s.pml4 space) space 511 (record { addr = kernel_pdpt; flags = ng_flags }))
        space 0 (record { addr = pdpt; flags = ng_flags });
  pdpt = put (cleared s.pdpt pdpt) pdpt 0 (record { addr = pd; flags = ng_flags });
  pd =
      put (put (cleared s.pd pd) pd 0 (record { addr = pt_low; flags = ng_flags })) pd 1
        (record { addr = 2097152; flags = record ng_flags { large = true; global = true } });
  fresh = rest;
}

-- `unset` is for variables that were not set. A page at 0 ends the work with false, after the entry for it is made; without a page, pmem_alloc is fatal.
pub data Made : Type 0 where
  made : Tables → Made
  refused stopped unset : Made

pub vmem_mgmt_make_glob_spc : Tables → List Mapping → ℕ → ℕ → ℕ → Made
vmem_mgmt_make_glob_spc s maps kernel_pdpt pt_low space = elim s.fresh [
  | [] ↦ stopped
  | pdpt ∷ more ↦ elim more [
    | [] ↦ if pdpt == 0 then refused else stopped
    | pd ∷ rest ↦
        if (pdpt == 0) || (pd == 0)
        then refused
        else elim (glob_loop maps space (low_tables s space kernel_pdpt pt_low pdpt pd rest)) [
          | going s' ↦ made s'
          | fatal ↦ stopped
          | not_set ↦ unset
        ]
  ]
]

-- A global mapping of a large page whose directory has no entry for it, and one of a small page where a large page
-- is mapped, both come to variables that were never set: `pt` in the first case, `ipd` in the second.
pub glob_map-not_set :
    (s : Tables) (space pd : ℕ) (map : Mapping)
    → Reaches s space map.to pd
    → ((map.flags.large ≡ true)
        × ((s.pd pd (idx_pd map.to)).flags.present ≡ false)
        × ((s.pd pd (idx_pd map.to)).flags.large ≡ false))
      ⊎ ((map.flags.large ≡ false)
          × ((s.pd pd (idx_pd map.to)).flags.present ≡ true)
          × ((s.pd pd (idx_pd map.to)).flags.large ≡ true))
    → glob_map s space map ≡ not_set
unfolding glob_map split_pd
glob_map-not_set s space pd map reach (inl (large, p, l)) =
    rw (glob_map, large, Reaches-split s space map.to pd true no_flags reach, split_pd, p)
      (rw (glob_found, l) refl)
glob_map-not_set s space pd map reach (inr (small, p, l)) =
    rw (glob_map, small, Reaches-split s space map.to pd false no_flags reach, split_pd, p, l) refl
