-- ===== src/Heap/Realloc.antt =====
-- `heap_realloc` and `heap_delete` of src/heap.c.
pub mod Replace
pub mod InPlace
pub mod Resized
use tachyon.Prelude.{ℕ, ◌+◌, ◌-◌, Bool, true, false, not, ◌&&◌, ◌||◌, ltb, leb, ◌==◌, if◌then◌else◌}
use tachyon.Prelude.Words.{add64, sub64}
use tachyon.Heap.{
  Words, Heap, is_present, b2datasz, datasz2sz, next, has_next, set_block, Run, returned, no_fuel,
  GlobalMapping, heap_alloc, heap_validate, heap_free,
}

-- `x <= 0` for a `ssize_t`, given as a word
abbrev pub not_positive : ℕ → Bool
not_positive x = x == 0 || leb 9223372036854775808 x

-- `memmove` of whole words; source and target are blocks, which begin and end at words.
abbrev pub move_words : Words → ℕ → ℕ → ℕ → Words
move_words m new mem n a = if leb new a && ltb a (new + n) then m (mem + (a - new)) else m a

-- The next block is free, and both together are large enough.
pub fits_next : Words → Heap → ℕ → ℕ → Bool
fits_next m heap block bytes =
    has_next m heap block
    && (not (is_present (m (next m block)))
        && leb bytes (add64 (datasz2sz (b2datasz (m (next m block)))) (b2datasz (m block))))

-- The block takes the next one whole, or what it needs of it.
pub take_next : Words → Heap → ℕ → ℕ → Words × Heap
take_next m heap block bytes =
    let orig_sz = b2datasz (m block) in
    let next_sz = b2datasz (m (next m block)) in
    let missing = sub64 next_sz (sub64 bytes orig_sz) in
    let whole = add64 orig_sz (datasz2sz next_sz) in
    let m1 = set_block m block bytes true in
    if not_positive missing
    then (
      set_block m block whole true,
      record heap { used_bytes = add64 heap.used_bytes (sub64 whole orig_sz) },
    )
    else (
      set_block m1 (next m1 block) missing false,
      record heap { used_bytes = add64 heap.used_bytes (sub64 bytes orig_sz) },
    )

-- `new` is allocated, the content is moved there, and the old block is given back. A `new` that is
-- NULL is written to as well.
pub move_to : ℕ → Run → Run
move_to mem no_fuel = no_fuel
move_to mem (returned m heap new) =
    let m' = move_words m new mem (b2datasz (m (sub64 mem 8))) in
    let (m'', heap') = heap_free m' heap mem in returned m'' heap' new

pub heap_realloc : (ℕ → Bool) → GlobalMapping → ℕ → Words → Heap → ℕ → ℕ → Run
unfolding take_next move_to fits_next
heap_realloc maps global fuel m heap mem bytes =
    let block = sub64 mem 8 in
    let (m', heap') = take_next m heap block bytes in
    if mem == 0
    then heap_alloc maps global fuel m heap bytes
    else if not (heap_validate m heap mem)
    then returned m heap 0
    else if leb bytes (b2datasz (m block))
    then returned m heap mem
    else if fits_next m heap block bytes
    then returned m' heap' mem
    else move_to mem (heap_alloc maps global fuel m heap bytes)

-- NULL is returned, and nothing is given back.
pub heap_delete : Heap → Heap
heap_delete heap = record heap { valid = false }
