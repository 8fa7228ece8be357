-- ===== src/Pmem.antt =====
-- src/pmem.c: physical memory as a list of regions, each with the bitmap of its pages. A lock is taken
-- around each search and left out.
mod Tests
pub mod Blocks
pub mod Release
pub mod Reserve
use mathlib.Core.Option
use tachyon.Prelude.{
  ℕ, zero, suc, ◌*◌, ◌/◌, ◌%◌, Bool, true, false, ◌&&◌, ◌||◌, Option, none, some, List, [], ◌∷◌,
  ◌++◌, map, ltb, leb, ◌==◌, if◌then◌else◌, length,
}
use tachyon.Prelude.Words.{word_mod, add64, sub64, align_dn, align_up}
use tachyon.Bmap.{Bitmap, bmap_fill, SearchResult, found, absent, fatal, bmap_search, bmap_fdeg}

-- PMEM_PAGESIZE
abbrev pub page_size : ℕ
page_size = 4096

-- PMEM_PAGES
abbrev pub pages : ℕ → ℕ
pages len = align_up len page_size / page_size

-- `pmem_region_t`; `next` is the list.
pub record Region : Type 0 where
  pub bmap : Bitmap
  pub start : ℕ
  pub length : ℕ

-- PMEM_TO_REGBIT
abbrev pub to_regbit : Region → ℕ → ℕ
to_regbit r a = sub64 (align_dn a page_size) r.start / page_size

-- PMEM_FROM_REGBIT
abbrev pub from_regbit : Region → ℕ → ℕ
from_regbit r a = add64 r.start (a * page_size % word_mod)

abbrev pub pmem_reg_contains : Region → ℕ → Bool
pmem_reg_contains r addr = leb r.start addr && ltb addr (add64 r.start r.length)

-- What a call comes to: a result, `fatal()`, or a shift that C does not define.
pub data Outcome (A : Type 0) : Type 0 where
  done : A → Outcome A
  stopped undefined : Outcome A

-- The two tests of `pmem_add` against one region, with the `start` and `length` of the new one.
pub data Overlap : Type 0 where
  covered apart : Overlap
  shortened : ℕ → ℕ → Overlap

pub overlap : Region → ℕ → ℕ → Overlap
overlap r start length =
    let end = add64 r.start r.length in
    if leb r.start start && ltb start end
    then if leb (add64 start length) end
      then covered
      else shortened end (sub64 length (sub64 end start))
    else if ltb r.start (add64 start length) && ltb (add64 start length) end
    then if leb r.start start then covered else shortened start (sub64 r.start start)
    else apart

-- `while(reg)` up to the first region that the new one meets
pub overlap_loop : List Region → ℕ → ℕ → Overlap
overlap_loop [] start length = apart
overlap_loop (r ∷ rest) start length = elim (overlap r start length) [
  | apart ↦ overlap_loop rest start length
  | covered ↦ covered
  | shortened s l ↦ shortened s l
]

-- The rounds of `goto recheck`, on fuel; `none` is out of it, `apart` is never left over.
pub recheck : ℕ → List Region → ℕ → ℕ → Option (Option (ℕ × ℕ))
recheck zero rs start length = none
recheck (suc fuel) rs start length = elim (overlap_loop rs start length) [
  | apart ↦ some (some (start, length))
  | covered ↦ some none
  | shortened s l ↦ recheck fuel rs s l
]

-- `node` says whether kheap_alloc returned the descriptor, `new_map` is what bmap_new returned.
pub pmem_add : ℕ → List Region → ℕ → ℕ → Bool → (ℕ → Option Bitmap) → Option (List Region)
pmem_add fuel rs start length node new_map = elim (recheck fuel rs start length) [
  | none ↦ none
  | some none ↦ some rs
  | some (some (s, l)) ↦ elim (new_map (pages l)) [
    | none ↦ some rs
    | some b ↦
        if node then some (rs ++ (record { bmap = b; start = s; length = l } ∷ [])) else some rs
  ]
]

-- The search and the filling in one region.
abbrev pub filled : Region → ℕ → Option (Bool × Bitmap) → Outcome (Option ℕ × Region)
filled r idx none = undefined
filled r idx (some (true, b')) = done (some (from_regbit r idx), record r { bmap = b' })
filled r idx (some (false, b')) = done (none, record r { bmap = b' })

abbrev pub fill_found : Region → ℕ → ℕ → Bitmap → Outcome (Option ℕ × Region)
fill_found r length idx b = filled r idx (bmap_fill b true idx (add64 idx (pages length)))

abbrev pub after_search : Region → ℕ → SearchResult → Bitmap → Outcome (Option ℕ × Region)
after_search r length absent b = done (none, record r { bmap = b })
after_search r length fatal b = stopped
after_search r length (found idx) b = fill_found r length idx b

pub alloc_in : Region → ℕ → ℕ → Outcome (Option ℕ × Region)
alloc_in r length align =
    let (answer, b) = bmap_search r.bmap false (pages length) (align / page_size) true in
    after_search r length answer b

-- Whether enough of the region is free, by the filling degree.
pub is_tried : Region → ℕ → Bool → Bool
is_tried r length use_fdeg =
    let fdeg = if use_fdeg then bmap_fdeg r.bmap else 0 in
    (fdeg == 0) || ltb ((length * 100) % word_mod) ((r.length * sub64 100 fdeg) % word_mod)

-- The result of a region, with the walk through the regions behind it.
abbrev pub or_next :
    List Region
    → Outcome (Option ℕ × Region)
    → Outcome (Option ℕ × List Region)
    → Outcome (Option ℕ × List Region)
or_next rest (done (some a, r)) later = done (some a, r ∷ rest)
or_next rest (done (none, r)) (done (a, rs)) = done (a, r ∷ rs)
or_next rest (done (none, r)) stopped = stopped
or_next rest (done (none, r)) undefined = undefined
or_next rest stopped later = stopped
or_next rest undefined later = undefined

pub pmem_alloc_helper : List Region → ℕ → ℕ → Bool → Outcome (Option ℕ × List Region)
pmem_alloc_helper [] length align use_fdeg = done (none, [])
pmem_alloc_helper (r ∷ rest) length align use_fdeg =
    or_next rest (if is_tried r length use_fdeg then alloc_in r length align else done (none, r))
      (pmem_alloc_helper rest length align use_fdeg)

-- The regions are all searched when the filled ones were left out without success; without any success it is fatal.
pub pmem_alloc : List Region → ℕ → ℕ → Outcome (ℕ × List Region)
pmem_alloc rs length align = elim (pmem_alloc_helper rs length align true) [
  | done (some a, rs') ↦ done (a, rs')
  | done (none, rs') ↦ elim (pmem_alloc_helper rs' length align false) [
    | done (some a, rs'') ↦ done (a, rs'')
    | done (none, rs'') ↦ stopped
    | stopped ↦ stopped
    | undefined ↦ undefined
  ]
  | stopped ↦ stopped
  | undefined ↦ undefined
]

-- What a region is after the call of bmap_fill.
abbrev pub free_in : Region → ℕ → ℕ → Option Region
free_in r addr length =
    let bit = to_regbit r addr in
    Option.map (λ f. record r { bmap = f.1 })
      (bmap_fill r.bmap false bit (add64 bit (pages length)))

-- In the first region that contains the address; without one, nothing changes but the log.
pub pmem_free : List Region → ℕ → ℕ → Option (List Region)
pmem_free [] addr length = some []
pmem_free (r ∷ rest) addr length =
    let later = pmem_free rest addr length in
    if pmem_reg_contains r addr
    then Option.map (λ r'. r' ∷ rest) (free_in r addr length)
    else Option.map (λ rs. r ∷ rs) later

-- `pmem_info_t`: the allocated and the free pages
pub pmem_info : List Region → ℕ × ℕ
pmem_info rs = go rs 0 0
  where
    go : List Region → ℕ → ℕ → ℕ × ℕ
    go [] alloc_pages free_pages = (alloc_pages, free_pages)
    go (r ∷ rest) alloc_pages free_pages =
        go rest (add64 alloc_pages r.bmap.set_cnt)
          (add64 free_pages (sub64 r.bmap.bits r.bmap.set_cnt))
