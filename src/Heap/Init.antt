-- ===== src/Heap/Init.antt =====
-- `heap_init` of src/heap.c makes a heap of one free block.
use tachyon.Prelude.{
  ℕ, ◌+◌, ◌%◌, ◌≤◌, ◌<◌, ◌≡◌, refl, ◌⊎◌, inl, inr, Bool, true, false, not, ◌||◌, none, [], ◌∷◌,
  arith, ◌==◌, if◌then◌else◌, eq→eqb, ne→eqb, lt-or-ge,
}
use tachyon.Heap.{Words, Heap, page_size, sz2datasz, set_block, heap_init}
use tachyon.Heap.Tiles.{tile, top, IsHeap, set_block-tagged, tagged-Tiles}

abbrev first_heap : Heap → Heap
first_heap heap = record heap {
  vmem_mark = heap.start + page_size;
  used_bytes = 0;
  block_count = 0;
  valid = true;
}

first_heap-IsHeap :
    (m : Words) (heap : Heap)
    → 0 < heap.start
    → heap.start % 8 ≡ 0
    → heap.start + page_size ≤ top
    → IsHeap (set_block m heap.start 4080 false) (first_heap heap) (tile 4080 false ∷ [])
first_heap-IsHeap m heap pos aligned room = record {
  tiles =
      rw (set_block-tagged m heap.start 4080 false refl)
        (tagged-Tiles m heap.start 4080 false refl);
  mark = omega arith;
  last = refl;
  apart = tt;
  bytes = refl;
  blocks = refl;
  start_pos = pos;
  start_aligned = aligned;
  below_end = room;
}

-- Of a result of `heap_init`: the heap is set up, or nothing was written.
abbrev pub Initialised : ℕ → Bool → ℕ → Words → Heap → Bool × Words × Heap → Type 0
Initialised space mapped phys m heap (true, m', heap') =
    (0 < space)
    × (mapped ≡ true)
    × (0 < phys)
    × IsHeap m' heap' (tile 4080 false ∷ [])
    × (heap'.valid ≡ true)
    × (heap'.start ≡ heap.start)
    × (heap'.end ≡ heap.end)
Initialised space mapped phys m heap (false, m', heap') =
    ((space ≡ 0) ⊎ (mapped ≡ false) ⊎ (phys ≡ 0)) × (m' ≡ m) × (heap'.valid ≡ heap.valid)

-- On a heap without PG_GLOBAL that starts at a multiple of 8 other than 0, at least a page below `top`,
-- and that has an end, when no call of `pmem_alloc` or `vmem_map` is fatal: if `heap_init` returns
-- true, the heap has a space, the page was there and could
-- be mapped, and it leaves a valid, well-formed heap of one free block with 4080 bytes, between the
-- same start and end; if it returns false, there was no space, or no page, or it could not be mapped,
-- and neither the memory nor the validity of the heap changed.
pub heap_init-Initialised :
    (space : ℕ) (mapped : Bool) (phys : ℕ) (m : Words) (heap : Heap)
    → 0 < heap.start
    → heap.start % 8 ≡ 0
    → 0 < heap.end
    → heap.start + page_size ≤ top
    → Initialised space mapped phys m heap (heap_init none space mapped phys m heap)
unfolding heap_init
heap_init-Initialised space mapped phys m heap pos aligned stop room = elim (lt-or-ge 0 space) [
  | inr no_space ↦
      let is_0 : space ≡ 0 = omega arith in
      let stops : (heap.start == 0 || heap.end == 0 || space == 0) ≡ true = ground arith in
      rw stops (inl is_0, refl, refl)
  | inl some_space ↦
      let begins : (heap.start == 0 || heap.end == 0 || space == 0) ≡ false = ground arith in
      elim (lt-or-ge 0 phys) [
        | inr no_page ↦
            let is_0 : phys ≡ 0 = omega arith in
            rw begins (rw (eq→eqb phys 0 is_0) (inr (inr is_0), refl, refl))
        | inl some_page ↦
            rw begins (rw (ne→eqb phys 0 (λ e. omega arith)) (mapping some_space some_page mapped))
      ]
]
  where
    mapping :
        0 < space
        → 0 < phys
        → (b : Bool)
        → Initialised space b phys m heap (
            if not b
            then (
              false,
              m,
              record heap { vmem_mark = heap.start + page_size; used_bytes = 0; block_count = 0 },
            )
            else (true, set_block m heap.start (sz2datasz page_size) false, first_heap heap))
    mapping w p true = (w, refl, p, first_heap-IsHeap m heap pos aligned room, refl, refl, refl)
    mapping w p false = (inr (inl refl), refl, refl)
