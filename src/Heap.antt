-- ===== src/Heap.antt =====
-- src/heap.c and src/heap.h: the heap with boundary tags. Memory is read and written by words of
-- `uintptr_t`; sizes wrap at 2 ^ 64, and a block lies inside the address space, so the address of
-- its end does not. The bit operations on a tag are written as arithmetic that agrees with them at
-- every word.
pub mod Tiles
pub mod Order
pub mod Alloc
pub mod Init
pub mod Free
pub mod Realloc
mod Tests
use tachyon.Prelude.{
  ℕ, zero, suc, ◌+◌, ◌-◌, ◌*◌, ◌/◌, ◌%◌, Bool, true, false, not, ◌&&◌, ◌||◌, Option, none, some,
  ltb, leb, ◌==◌, if◌then◌else◌,
}
use tachyon.Prelude.Words.{add64, sub64, align_up}

abbrev pub Words : Type 0
Words = ℕ → ℕ

abbrev pub write : Words → ℕ → ℕ → Words
write m p v a = if a == p then v else m a

-- `heap_t` with the fields of its `heap_state_t`. The space is an argument of
-- `heap_init`; `HEAP_CHECK` holds.
pub record Heap : Type 0 where
  pub start : ℕ
  pub end : ℕ
  pub vmem_mark : ℕ
  pub used_bytes : ℕ
  pub block_count : ℕ
  pub valid : Bool

-- PAGE_SIZE_4K
abbrev pub page_size : ℕ
page_size = 4096

-- `b & HEAP_PRESENT` and `b & HEAP_FOOTER`
abbrev pub is_present : ℕ → Bool
is_present b = b % 2 == 1

abbrev pub is_footer : ℕ → Bool
is_footer b = (b / 2) % 2 == 1

-- `s | HEAP_PRESENT` and `s | HEAP_FOOTER`
abbrev pub or_present : ℕ → ℕ
or_present s = s - s % 2 + 1

abbrev pub or_footer : ℕ → ℕ
or_footer s = if is_footer s then s else s + 2

-- HEAP_BL_B2DATASZ: `b & ~HEAP_FLMASK`
abbrev pub b2datasz : ℕ → ℕ
b2datasz b = b - b % 4

-- HEAP_BL_SZ2DATASZ and HEAP_BL_DATASZ2SZ
abbrev pub sz2datasz : ℕ → ℕ
sz2datasz b = sub64 b 16

abbrev pub datasz2sz : ℕ → ℕ
datasz2sz b = add64 b 16

-- HEAP_BL_H2F, HEAP_BL_F2H, HEAP_BL_NEXT and HEAP_BL_PREV
abbrev pub h2f : Words → ℕ → ℕ
h2f m h = h + 8 + b2datasz (m h)

abbrev pub f2h : Words → ℕ → ℕ
f2h m f = f - 8 - b2datasz (m f)

abbrev pub next : Words → ℕ → ℕ
next m h = h2f m h + 8

abbrev pub prev : Words → ℕ → ℕ
prev m h = f2h m (h - 8)

abbrev pub has_next : Words → Heap → ℕ → Bool
has_next m heap h = not (leb heap.vmem_mark (next m h))

abbrev pub has_prev : Heap → ℕ → Bool
has_prev heap h = ltb heap.start h

-- HEAP_BL_SET: the footer is found by the size that the header has just got.
unfoldable pub set_block : Words → ℕ → ℕ → Bool → Words
set_block m h s present =
    let tag = if present then or_present s else s in
    let m' = write m h tag in write m' (h2f m' h) (or_footer tag)

-- `maps p` is what `vmem_map` returns for the page at `p`.
pub data Run : Type 0 where
  returned : Words → Heap → ℕ → Run
  no_fuel : Run

pub data Growth : Type 0 where
  grown failed : Words → Heap → Growth

-- The block is cut in two: the allocated one, and the free rest behind it.
pub split_block : Words → Heap → ℕ → ℕ → Run
split_block m heap bytes block =
    let freesz = sub64 (b2datasz (m block)) (datasz2sz bytes) in
    let m1 = set_block m block bytes true in
    let m2 = set_block m1 (next m1 block) freesz false in
    returned m2
      (record heap {
        used_bytes = add64 heap.used_bytes bytes;
        block_count = add64 heap.block_count 1;
      })
      (block + 8)

-- What `vmem_mgmt_add_global_mapping` for the page at an address does to the memory and to the heap,
-- where `pg_fl` has PG_GLOBAL; `none` where it has not. The call allocates in the kernel heap, which may
-- be the same heap.
abbrev pub GlobalMapping : Type 0
GlobalMapping = Option (ℕ → Words → Heap → Words × Heap)

abbrev pub add_global : GlobalMapping → ℕ → Words → Heap → Words × Heap
add_global none target m heap = (m, heap)
add_global (some effect) target m heap = effect target m heap

module _ (maps : ℕ → Bool) (global : GlobalMapping) where
  -- `for(i = 0; i < pcnt; ++i)` with the rounds left and `i`
  pub grow : ℕ → ℕ → Words → Heap → ℕ → ℕ → Growth
  grow zero i m heap block sz = grown m heap
  grow (suc k) i m heap block sz =
      let after =
        add_global global heap.vmem_mark (set_block m block (add64 sz (page_size * (i + 1))) false)
          (record heap { vmem_mark = add64 heap.vmem_mark page_size }) in
      let more = grow k (i + 1) after.0 after.1 block sz in
      if maps heap.vmem_mark then more else failed m heap

  pub alloc_loop : ℕ → Words → Heap → ℕ → ℕ → Run
  alloc_loop zero m heap bytes block = no_fuel
  alloc_loop (suc fuel) m heap bytes block =
      let again : Run =
        elim (grow (align_up bytes page_size / page_size) 0 m heap block (b2datasz (m block))) [
          | grown m' heap' ↦ alloc_loop fuel m' heap' bytes block
          | failed m' heap' ↦ returned m' heap' 0
        ] in
      let later = alloc_loop fuel m heap bytes (next m block) in
      if leb heap.start block && ltb block heap.vmem_mark
      then if not (is_present (m block)) && leb (datasz2sz bytes) (b2datasz (m block))
        then split_block m heap bytes block
        else if not (has_next m heap block)
        then again
        else later
      else returned m heap 0

  -- The result 0 is NULL.
  pub heap_alloc : ℕ → Words → Heap → ℕ → Run
  unfolding alloc_loop
  heap_alloc fuel m heap bytes = alloc_loop fuel m heap (align_up bytes 8) heap.start

-- `space` is the field of `heap_t`, where 0 is no space, and `phys` is what `pmem_alloc` returns for the
-- first page. The pointer to the heap is not NULL.
pub heap_init : GlobalMapping → ℕ → Bool → ℕ → Words → Heap → Bool × Words × Heap
heap_init global space mapped phys m heap =
    if heap.start == 0 || heap.end == 0 || space == 0
    then (false, m, heap)
    else (let heap' = record heap {
      vmem_mark = heap.start + page_size;
      used_bytes = 0;
      block_count = 0;
    } in
        let ready =
          add_global global heap.start (set_block m heap.start (sz2datasz page_size) false)
            (record heap' { valid = true }) in
        if phys == 0
        then (false, m, heap')
        else if not mapped
        then (false, m, heap')
        else (true, ready.0, ready.1))

-- The header stands 8 bytes before the block (HEAP_BL_M2H).
pub heap_validate : Words → Heap → ℕ → Bool
heap_validate m heap mem =
    let hdr = sub64 mem 8 in
    let ftr = h2f m hdr in
    if not (mem % 8 == 0)
    then false
    else if not (leb heap.start hdr && ltb hdr heap.end) || is_footer (m hdr)
    then false
    else if not (ltb heap.start ftr && leb ftr heap.end) || not (is_footer (m ftr))
    then false
    else b2datasz (m hdr) == b2datasz (m ftr)

-- The size with which `heap_free` ends, and the block that gets it: the next block is merged, then
-- the previous one.
pub merge_next : Words → Heap → ℕ → ℕ → ℕ
merge_next m heap block sz =
    if has_next m heap block && not (is_present (m (next m block)))
    then add64 sz (datasz2sz (b2datasz (m (next m block))))
    else sz

pub merge_prev : Words → Heap → ℕ → ℕ → ℕ × ℕ
merge_prev m heap block sz =
    if has_prev heap block && not (is_present (m (prev m block)))
    then (prev m block, add64 sz (datasz2sz (b2datasz (m (prev m block)))))
    else (block, sz)

-- A block that fails the validation is reported and left alone.
pub heap_free : Words → Heap → ℕ → Words × Heap
heap_free m heap mem =
    if not (heap_validate m heap mem)
    then (m, heap)
    else (let block = sub64 mem 8 in
        let actual_sz = b2datasz (m block) in
        let (block', sz') = merge_prev m heap block (merge_next m heap block actual_sz) in
        (
          set_block m block' sz' false,
          record heap {
            used_bytes = sub64 heap.used_bytes actual_sz;
            block_count = sub64 heap.block_count 1;
          },
        ))
