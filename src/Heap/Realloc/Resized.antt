-- ===== src/Heap/Realloc/Resized.antt =====
-- `heap_realloc` of src/heap.c enlarges a block where it is.
use tachyon.Prelude.{
  ℕ, ◌+◌, ◌-◌, ◌%◌, ◌≤◌, ◌<◌, ◌≡◌, refl, ◌≢◌, ◌⊎◌, inl, inr, Bool, true, false, List, [], ◌∷◌, ◌++◌,
  arith, ltb, if◌then◌else◌, lt→ltb, ge→ltb, ne→eqb, lt-or-ge, gt→leb,
}
use tachyon.Prelude.Words.{sub64}
use tachyon.Heap.{Words, Heap, Run, returned, no_fuel, GlobalMapping}
use tachyon.Heap.Tiles.{Tile, tile, span, IsHeap}
use tachyon.Heap.Free.Release.{heap_validate_lem}
use tachyon.Heap.Realloc.{fits_next, take_next, heap_realloc}
use tachyon.Heap.Realloc.InPlace.{
  size, marked, fits_next-true, take_next-whole, take_next-split, whole-IsHeap, split-IsHeap,
}

-- What becomes of a block of `s` bytes and the free block of `n` bytes behind it.
abbrev pub resized : ℕ → ℕ → ℕ → List Tile
resized s n bytes =
    if ltb bytes (s + n)
    then tile bytes true ∷ tile (n - (bytes - s)) false ∷ []
    else tile (s + n + 16) true ∷ []

-- Of a result of `heap_realloc` for the block with `s` bytes behind `q`: that block, in a well-formed
-- heap between the same bounds with the blocks `ts`, in which it holds the same bytes.
abbrev pub Enlarged : Words → Heap → ℕ → ℕ → List Tile → Run → Type 0
Enlarged m heap q s ts no_fuel = ⊥
Enlarged m heap q s ts (returned m' heap' mem) =
    (mem ≡ q + 8)
    × IsHeap m' heap' ts
    × (heap'.start ≡ heap.start)
    × (heap'.vmem_mark ≡ heap.vmem_mark)
    × ((a : ℕ) → q + 8 ≤ a → a < q + 8 + s → m' a ≡ m a)

-- The calls before the block takes what it needs.
heap_realloc-take_next :
    (maps : ℕ → Bool) (global : GlobalMapping) (fuel : ℕ) (m : Words) (heap : Heap) (xs : List Tile)
    (s n : ℕ) (ys : List Tile) (bytes : ℕ)
    → IsHeap m heap (xs ++ tile s true ∷ tile n false ∷ ys)
    → heap.vmem_mark ≤ heap.end
    → s < bytes
    → bytes ≤ s + n + 16
    → heap_realloc maps global fuel m heap (heap.start + span xs + 8) bytes ≡ (
        let took = take_next m heap (heap.start + span xs) bytes in
        returned took.0 took.1 (heap.start + span xs + 8))
unfolding heap_realloc fits_next
heap_realloc-take_next maps global fuel m heap xs s n ys bytes h inside grows fits =
    let q = heap.start + span xs in
    let block : sub64 (q + 8) 8 ≡ q = omega (arith, marked m heap xs s n ys h, h.below_end) in
    rw
      (
        heap_realloc,
        block,
        fits_next-true m heap xs s n ys h bytes fits,
        ne→eqb (q + 8) 0 (omega arith),
        heap_validate_lem m heap xs s (tile n false ∷ ys) h inside,
        size m heap xs s n ys h,
        gt→leb bytes s grows,
      )
      refl

-- On a well-formed heap whose mapped part ends at or before its end, `heap_realloc` of an allocated
-- block of `s` bytes to more bytes, a multiple of 8, when the block behind it is free and both have
-- room for them, and the free block is smaller than 2 ^ 63 bytes, and is either cut or not the last:
-- the address stays, and so do the bytes of the block; the heap is well formed again, in the same
-- bounds, and only these two blocks change. Where the sizes leave something over, the block gets what
-- it asks for and the rest is free, and else it gets the whole of the free block and its tags.
pub heap_realloc-Enlarged :
    (maps : ℕ → Bool) (global : GlobalMapping) (fuel : ℕ) (m : Words) (heap : Heap) (xs : List Tile)
    (s n : ℕ) (ys : List Tile) (bytes : ℕ)
    → IsHeap m heap (xs ++ tile s true ∷ tile n false ∷ ys)
    → heap.vmem_mark ≤ heap.end
    → s < bytes
    → bytes ≤ s + n + 16
    → bytes % 8 ≡ 0
    → n < 9223372036854775808
    → (bytes < s + n) ⊎ (ys ≢ [])
    → Enlarged m heap
        (heap.start + span xs)
        s
        (xs ++ (resized s n bytes ++ ys))
        (heap_realloc maps global fuel m heap (heap.start + span xs + 8) bytes)
heap_realloc-Enlarged maps global fuel m heap xs s n ys bytes h inside grows fits aligned half
      room =
    rw (heap_realloc-take_next maps global fuel m heap xs s n ys bytes h inside grows fits)
      (elim (lt-or-ge bytes (s + n)) [
        | inl less ↦
            rw
              (
                take_next-split m heap xs s n ys h bytes grows less aligned half,
                lt→ltb bytes (s + n) less,
              )
              ((
                refl,
                split-IsHeap m heap xs s n ys h bytes grows less aligned,
                refl,
                refl,
                λ a l r. ground arith,
              ))
        | inr most ↦
            rw (take_next-whole m heap xs s n ys h bytes grows most fits, ge→ltb bytes (s + n) most)
              ((
                refl,
                whole-IsHeap m heap xs s n ys h bytes (not_last most),
                refl,
                refl,
                λ a l r. ground arith,
              ))
      ])
  where
    not_last : s + n ≤ bytes → ys ≢ []
    not_last most = elim room [ inl less ↦ absurd (omega arith) | inr ne ↦ ne ]
