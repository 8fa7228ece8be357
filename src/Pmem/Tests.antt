-- ===== src/Pmem/Tests.antt =====
-- Runs of src/pmem.c at concrete inputs.
use tachyon.Prelude.{◌≡◌, refl, subst, true, false, none, some, List, [], ◌∷◌, arith}
use tachyon.Bmap.{
  bmap_get, bmap_set, fill_loop, bmap_fill, search_loop, search_from, bmap_search, bmap_fdeg,
}
use tachyon.Pmem.{
  Region, done, stopped, undefined, alloc_in, is_tried, pmem_alloc_helper, pmem_free,
}
use tachyon.Pmem.Blocks.{IsSmall, SameAll, HelperEnd, pmem_alloc_helper-HelperEnd}
use tachyon.Pmem.Release.{IsSound, pmem_free-AllocatedIn}
use tachyon.Pmem.Reserve.{pmem_reserve}
use tachyon.Pmem.Reserve.Passes.{ReserveEnd, pmem_reserve-ReserveEnd}

abbrev first_region : Region
first_region = record {
  bmap = record { storage = λ i o. false; bits = 32; hint = 0; allocated = false; set_cnt = 0 };
  start = 65536;
  length = 131072;
}

abbrev two_pages-IsSmall : IsSmall first_region 8192 4096
two_pages-IsSmall = record {
  some_pages = omega arith;
  one_page = omega arith;
  no_wrap = omega arith;
}

abbrev first_region-IsSound : IsSound first_region
first_region-IsSound = record {
  aligned = omega arith;
  covered = omega arith;
  below = omega arith;
  short = omega arith;
}

-- The regions with the first two pages allocated.
abbrev allocated_regions : List Region
allocated_regions = elim (pmem_alloc_helper (first_region ∷ []) 8192 4096 true) [
  | done (some a, rs) ↦ rs
  | done (none, rs) ↦ rs
  | stopped ↦ []
  | undefined ↦ []
]

allocated :
    pmem_alloc_helper (first_region ∷ []) 8192 4096 true ≡ done (some 65536, allocated_regions)
unfolding pmem_alloc_helper alloc_in is_tried bmap_search bmap_fill bmap_set bmap_get fill_loop
    search_loop search_from bmap_fdeg
allocated = refl

pmem_free-AllocatedIn_example :
    (rs : List Region) × (pmem_free allocated_regions 65536 8192 ≡ some rs)
    × SameAll (first_region ∷ []) rs
pmem_free-AllocatedIn_example =
    pmem_free-AllocatedIn (first_region ∷ []) 8192 65536 allocated_regions
      (first_region-IsSound, omega arith, omega arith)
      (subst (HelperEnd (first_region ∷ []) 8192) allocated (
        pmem_alloc_helper-HelperEnd (first_region ∷ []) 8192 4096 true
          (two_pages-IsSmall, omega arith)))

pmem_reserve-ReserveEnd_example :
    ReserveEnd first_region [] 2 4 (pmem_reserve 2 (first_region ∷ []) 73728 8192)
pmem_reserve-ReserveEnd_example =
    pmem_reserve-ReserveEnd first_region [] 2 8192 1
      (record { aligned = omega arith; whole = omega arith; below = omega arith }) (omega arith)
      (omega arith) (omega arith)
