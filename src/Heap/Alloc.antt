-- ===== src/Heap/Alloc.antt =====
-- src/heap.c, `heap_alloc`: its steps on the blocks, one round of its loop, and the whole loop.
pub mod Steps
pub mod Round
pub mod Total
