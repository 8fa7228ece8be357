-- ===== src/Heap/Realloc/Replace.antt =====
-- Some neighbouring blocks of a heap of src/heap.c replaced by others that take the same room.
use tachyon.Prelude.{ℕ, ◌+◌, ◌≤◌, ◌<◌, ◌≡◌, sym, subst, List, ◌++◌, arith}
use tachyon.Heap.{Words, Heap}
use tachyon.Heap.Tiles.{
  Tile, span, Tiles, used_bytes_of, used_count, LastFree, Apart, IsHeap, span-append,
  used_bytes-append, used_count-append, Tiles-frame, Tiles-left, Tiles-right, Tiles-join,
}

pub replaced-IsHeap :
    (m m' : Words) (heap : Heap) (u : ℕ) (xs mid new ys : List Tile)
    → IsHeap m heap (xs ++ (mid ++ ys))
    → span new ≡ span mid
    → Tiles m' (heap.start + span xs) new
    → ((a : ℕ) → a < heap.start + span xs → m' a ≡ m a)
    → ((a : ℕ) → heap.start + span xs + span mid ≤ a → m' a ≡ m a)
    → u + used_bytes_of mid ≡ heap.used_bytes + used_bytes_of new
    → used_count new ≡ used_count mid
    → LastFree (xs ++ (new ++ ys))
    → Apart (xs ++ (new ++ ys))
    → IsHeap m' (record heap { used_bytes = u }) (xs ++ (new ++ ys))
replaced-IsHeap m m' heap u xs mid new ys h wide here below above bytes_eq count_eq last_ok
      apart_ok =
    let q = heap.start + span xs in
    let tail = Tiles-right m q mid ys (Tiles-right m heap.start xs (mid ++ ys) h.tiles) in
    let k = span-append xs (mid ++ ys) in
    let k2 = span-append mid ys in
    let k' = span-append xs (new ++ ys) in
    let k2' = span-append new ys in
    record {
      tiles =
          Tiles-join m' heap.start xs (new ++ ys)
            (Tiles-frame m m' heap.start xs (λ a l r. below a r)
              (Tiles-left m heap.start xs (mid ++ ys) h.tiles))
            (Tiles-join m' q new ys here (
              subst (λ (p : ℕ). Tiles m' (q + p) ys) (sym wide)
                (Tiles-frame m m' (q + span mid) ys (λ a l r. above a l) tail)));
      mark = omega (arith, h.mark, k, k2, k', k2', wide);
      last = last_ok;
      apart = apart_ok;
      bytes = omega (
        arith,
        h.bytes,
        used_bytes-append xs (mid ++ ys),
        used_bytes-append mid ys,
        used_bytes-append xs (new ++ ys),
        used_bytes-append new ys,
        bytes_eq,
      );
      blocks = omega (
        arith,
        h.blocks,
        used_count-append xs (mid ++ ys),
        used_count-append mid ys,
        used_count-append xs (new ++ ys),
        used_count-append new ys,
        count_eq,
      );
      start_pos = h.start_pos;
      start_aligned = h.start_aligned;
      below_end = h.below_end;
    }
