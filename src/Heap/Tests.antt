-- ===== src/Heap/Tests.antt =====
-- The theorems on src/heap.c at a heap of one page.
use tachyon.Prelude.{refl, inl, true, false, none, List, [], ◌∷◌, ◌++◌, arith, ltb}
use tachyon.Prelude.Words.{align_up}
use tachyon.Heap.{Words, Heap, heap_alloc, heap_init, heap_free}
use tachyon.Heap.Tiles.{Tile, tile, used_at, IsHeap, tagged}
use tachyon.Heap.Init.{Initialised, heap_init-Initialised}
use tachyon.Heap.Alloc.Round.{Served}
use tachyon.Heap.Alloc.Total.{heap_alloc-Served}
use tachyon.Heap.Realloc.{heap_realloc}
use tachyon.Heap.Realloc.Resized.{Enlarged, heap_realloc-Enlarged}
use tachyon.Heap.Free.Release.{Freed, heap_free-Freed}

abbrev zeros : Words
zeros _ = 0

abbrev raw : Heap
raw = record {
  start = 4096;
  end = 1048576;
  vmem_mark = 0;
  used_bytes = 7;
  block_count = 7;
  valid = false;
}

heap_init-Initialised_example :
    Initialised 4096 true 8192 zeros raw (heap_init none 4096 true 8192 zeros raw)
heap_init-Initialised_example =
    heap_init-Initialised 4096 true 8192 zeros raw (omega arith) refl (omega arith) (omega arith)

-- A free block of 64 bytes, an allocated one of 16 bytes, and the free rest of the page.
abbrev blocks : List Tile
blocks = tile 64 false ∷ tile 16 true ∷ tile 3968 false ∷ []

abbrev page : Words
page = tagged (tagged (tagged zeros 4096 64 false) 4176 16 true) 4208 3968 false

abbrev heap : Heap
heap = record {
  start = 4096;
  end = 1048576;
  vmem_mark = 8192;
  used_bytes = 16;
  block_count = 1;
  valid = true;
}

heap-IsHeap : IsHeap page heap blocks
heap-IsHeap = record {
  tiles = (refl, refl, refl, (refl, refl, refl, (refl, refl, refl, tt)));
  mark = refl;
  last = refl;
  apart = (refl, (refl, tt));
  bytes = refl;
  blocks = refl;
  start_pos = omega arith;
  start_aligned = refl;
  below_end = omega arith;
}

-- The last block has to grow by two pages, and only the first of them can be mapped.
heap_alloc-Served_example :
    Served
      (λ p. ltb p 12288)
      4096
      (used_at 4096 blocks)
      (align_up 9000 8)
      (heap_alloc (λ p. ltb p 12288) none 5 page heap 9000)
heap_alloc-Served_example =
    heap_alloc-Served (λ p. ltb p 12288) 5 page heap blocks 9000 heap-IsHeap (omega arith)
      (omega arith) (omega arith)

heap_free-Freed_example :
    Freed heap
      (used_at 4096 (tile 64 false ∷ []) ++ used_at 4208 (tile 3968 false ∷ []))
      (heap_free page heap 4184)
heap_free-Freed_example =
    heap_free-Freed page heap (tile 64 false ∷ []) 16 (tile 3968 false ∷ []) heap-IsHeap
      (omega arith)

-- The allocated block takes 16 bytes more from the free block behind it.
heap_realloc-Enlarged_example :
    Enlarged page heap 4176 16
      (tile 64 false ∷ tile 32 true ∷ tile 3952 false ∷ [])
      (heap_realloc (λ p. false) none 5 page heap 4184 32)
heap_realloc-Enlarged_example =
    heap_realloc-Enlarged (λ p. false) none 5 page heap (tile 64 false ∷ []) 16 3968 [] 32
      heap-IsHeap (omega arith) (omega arith) (omega arith) refl (omega arith) (inl (omega arith))
