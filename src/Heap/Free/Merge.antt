-- ===== src/Heap/Free/Merge.antt =====
-- The neighbours of a block that `heap_free` of src/heap.c gives back.
use tachyon.Prelude.{
  ℕ, ◌+◌, ◌-◌, ◌%◌, ◌≤◌, ◌<◌, ◌≡◌, refl, ap, ◌∙◌, subst, Bool, true, false, not, ◌&&◌, List, [],
  ◌∷◌, ◌++◌, arith, leb, if◌then◌else◌,
}
use tachyon.Prelude.Words.{word_mod, add64, sub64}
use tachyon.Heap.{
  Words, Heap, is_present, b2datasz, datasz2sz, next, prev, has_prev, merge_next, merge_prev,
}
use tachyon.Heap.Tiles.{
  Tile, tile, flag, span, Tiles, used_bytes_of, used_count, LastFree, Apart, IsHeap, span-append,
  used_bytes-append, used_count-append, used_bytes-le-span, used_count-le-span, Tiles-frame,
  Tiles-left, Tiles-right, Tiles-join, tagged, b2datasz-flag, is_present-flag, tagged-Tiles,
}

abbrev pub freed_heap : Heap → ℕ → Heap
freed_heap heap s = record heap {
  used_bytes = sub64 heap.used_bytes s;
  block_count = sub64 heap.block_count 1;
}

-- One free block takes the place of the neighbours `mid`, of which one was allocated with `s` bytes.
pub merged-IsHeap :
    (m : Words) (heap : Heap) (xs mid ys : List Tile) (s big : ℕ)
    → IsHeap m heap (xs ++ (mid ++ ys))
    → span mid ≡ big + 16
    → big % 8 ≡ 0
    → used_bytes_of mid ≡ s
    → used_count mid ≡ 1
    → LastFree (xs ++ tile big false ∷ ys)
    → Apart (xs ++ tile big false ∷ ys)
    → IsHeap
        (tagged m (heap.start + span xs) big false)
        (freed_heap heap s)
        (xs ++ tile big false ∷ ys)
merged-IsHeap m heap xs mid ys s big h wide aligned bytes_mid count_mid last_ok apart_ok =
    let k = span-append xs (mid ++ ys) in
    let k2 = span-append mid ys in
    let k' = span-append xs (tile big false ∷ ys) in
    let u = used_bytes-append xs (mid ++ ys) in
    let u2 = used_bytes-append mid ys in
    let u' = used_bytes-append xs (tile big false ∷ ys) in
    let n = used_count-append xs (mid ++ ys) in
    let n2 = used_count-append mid ys in
    let n' = used_count-append xs (tile big false ∷ ys) in
    let g = used_bytes-le-span (xs ++ (mid ++ ys)) in
    let g' = used_count-le-span (xs ++ (mid ++ ys)) in
    let q = heap.start + span xs in
    let tail = Tiles-right m q mid ys (Tiles-right m heap.start xs (mid ++ ys) h.tiles) in
    let here = tagged-Tiles m q big false aligned in
    record {
      tiles =
          Tiles-join _ heap.start xs (tile big false ∷ ys)
            (Tiles-frame m _ heap.start xs (λ a l h. ground arith)
              (Tiles-left m heap.start xs (mid ++ ys) h.tiles))
            (
              here.0,
              here.1,
              aligned,
              Tiles-frame m _ (q + 16 + big) ys (λ a l h. ground arith)
                  (subst (λ (p : ℕ). Tiles m p ys) (omega arith) tail),
            );
      mark = omega (arith, h.mark, k, k2, k', wide);
      last = last_ok;
      apart = apart_ok;
      bytes = omega (arith, h.bytes, u, u2, u', g, bytes_mid, h.mark, h.below_end);
      blocks = omega (arith, h.blocks, n, n2, n', g', count_mid, h.mark, h.below_end);
      start_pos = h.start_pos;
      start_aligned = h.start_aligned;
      below_end = h.below_end;
    }

-- The size of a block once the free block behind it is merged, and what is left behind it.
abbrev pub size_behind : ℕ → List Tile → ℕ
size_behind s [] = s
size_behind s (t ∷ ts) = if t.used then s else s + (t.sz + 16)

abbrev pub rest_behind : List Tile → List Tile
rest_behind [] = []
rest_behind (t ∷ ts) = if t.used then t ∷ ts else ts

pub aligned_behind :
    (m : Words) (p s : ℕ) (ys : List Tile) → s % 8 ≡ 0 → Tiles m p ys → size_behind s ys % 8 ≡ 0
aligned_behind m p s [] e T = e
aligned_behind m p s (t ∷ ys) e T = ground (arith, T.2)

pub size_behind_le : (s : ℕ) (ys : List Tile) → size_behind s ys ≤ s + span ys
size_behind_le s [] = omega arith
size_behind_le s (t ∷ ys) = ground arith

pub merge_next_lem :
    (m : Words) (heap : Heap) (xs : List Tile) (s : ℕ) (ys : List Tile)
    → IsHeap m heap (xs ++ tile s true ∷ ys)
    → merge_next m heap (heap.start + span xs) s ≡ size_behind s ys
unfolding merge_next
merge_next_lem m heap xs s ys h =
    let q = heap.start + span xs in
    let T = Tiles-right m heap.start xs (tile s true ∷ ys) h.tiles in
    let size : b2datasz (m q) ≡ s = ap b2datasz T.0 ∙ b2datasz-flag s true T.2 in
    let at : next m q ≡ q + 16 + s = omega (arith, size) in
    let marked : heap.vmem_mark ≡ q + 16 + s + span ys =
      omega (arith, h.mark, span-append xs (tile s true ∷ ys)) in
    rw at (behind ys T.3 marked)
  where
    behind :
        (zs : List Tile)
        → Tiles m (heap.start + span xs + 16 + s) zs
        → heap.vmem_mark ≡ heap.start + span xs + 16 + s + span zs
        → (if not (leb heap.vmem_mark (heap.start + span xs + 16 + s))
              && not (is_present (m (heap.start + span xs + 16 + s)))
            then add64 s (datasz2sz (b2datasz (m (heap.start + span xs + 16 + s))))
            else s)
          ≡ size_behind s zs
    behind [] T e = ground arith
    behind (t ∷ zs) T e =
        let e1 : is_present (m (heap.start + span xs + 16 + s)) ≡ t.used =
          ap is_present T.0 ∙ is_present-flag t.sz t.used T.2 in
        let e2 : b2datasz (m (heap.start + span xs + 16 + s)) ≡ t.sz =
          ap b2datasz T.0 ∙ b2datasz-flag t.sz t.used T.2 in
        let e3 : add64 s (datasz2sz t.sz) ≡ s + (t.sz + 16) = omega (arith, e, h.below_end) in
        let e4 : leb heap.vmem_mark (heap.start + span xs + 16 + s) ≡ false = ground arith in
        rw (e1, e2, e3, e4) ground arith

pub merge_prev_lem :
    (m : Words) (heap : Heap) (xs : List Tile) (t : Tile) (sz : ℕ)
    → Tiles m heap.start (xs ++ t ∷ [])
    → t.sz + sz + 16 < word_mod
    → merge_prev m heap (heap.start + span (xs ++ t ∷ [])) sz ≡ (
        if t.used
        then (heap.start + span (xs ++ t ∷ []), sz)
        else (heap.start + span xs, sz + (t.sz + 16)))
unfolding merge_prev
merge_prev_lem m heap xs t sz tiles small =
    let q = heap.start + span xs in
    let T = Tiles-right m heap.start xs (t ∷ []) tiles in
    let behind : heap.start + span (xs ++ t ∷ []) ≡ q + 16 + t.sz =
      omega (arith, span-append xs (t ∷ [])) in
    let footer : b2datasz (m (q + 8 + t.sz)) ≡ t.sz = ap b2datasz T.1 ∙ tag t.used T.2 in
    let before : prev m (q + 16 + t.sz) ≡ q =
      ap (λ (a : ℕ). a - 8 - b2datasz (m a)) (the_footer q t.sz) ∙ omega (arith, footer) in
    let e1 : is_present (m q) ≡ t.used = ap is_present T.0 ∙ is_present-flag t.sz t.used T.2 in
    let e2 : b2datasz (m q) ≡ t.sz = ap b2datasz T.0 ∙ b2datasz-flag t.sz t.used T.2 in
    let e3 : has_prev heap (q + 16 + t.sz) ≡ true = ground arith in
    let e4 : add64 sz (datasz2sz t.sz) ≡ sz + (t.sz + 16) = omega arith in
    rw behind (rw (before, e3) (rw (e1, e2, e4) ground arith))
  where
    the_footer : (p s : ℕ) → p + 16 + s - 8 ≡ p + 8 + s
    the_footer p s = omega arith

    tag : (u : Bool) → t.sz % 8 ≡ 0 → b2datasz (t.sz + flag u + 2) ≡ t.sz
    tag true e = omega arith
    tag false e = omega arith

-- The first block has none before it.
pub merge_prev-first :
    (m : Words) (heap : Heap) (sz : ℕ)
    → merge_prev m heap (heap.start + 0) sz ≡ (heap.start + 0, sz)
unfolding merge_prev
merge_prev-first m heap sz =
    let e : has_prev heap (heap.start + 0) ≡ false = ground arith in rw e refl
