-- ===== src/Heap/Free.antt =====
-- src/heap.c, `heap_free`: the merging of neighbours, and the whole call.
pub mod Merge
pub mod Joined
pub mod Release
