-- ===== src/Bmap/Tests.antt =====
-- Runs of src/bmap.c at concrete inputs.
use tachyon.Prelude.{true, false, arith, ◌==◌}
use tachyon.Bmap.{Bitmap, bmap_fill, bmap_search}
use tachyon.Bmap.Bits.{FillEnd, bmap_fill-FillEnd}
use tachyon.Bmap.Search.{Answer, bmap_search-Answer}

abbrev pages_map : Bitmap
pages_map = record { storage = λ i o. o == 3; bits = 32; hint = 0; allocated = false; set_cnt = 1 }

bmap_fill-FillEnd_example : FillEnd pages_map true 4 9 (bmap_fill pages_map true 4 9)
bmap_fill-FillEnd_example = bmap_fill-FillEnd pages_map true 4 9 (omega arith)

bmap_search-Answer_example : Answer pages_map false 6 ((bmap_search pages_map false 6 1 true).0)
bmap_search-Answer_example =
    bmap_search-Answer pages_map false 6 1 true (omega arith) (omega arith) (omega arith)
