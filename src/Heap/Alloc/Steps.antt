-- ===== src/Heap/Alloc/Steps.antt =====
-- The two changes that `heap_alloc` of src/heap.c makes to the blocks: it cuts a free block in two,
-- and it lets the last block grow by pages.
use tachyon.Prelude.{
  ℕ, zero, suc, ◌+◌, ◌-◌, ◌*◌, ◌%◌, ◌≤◌, ◌≡◌, refl, ap, ◌∙◌, subst, inl, inr, Bool, true, false,
  none, List, [], ◌∷◌, ◌++◌, arith, Bool-cases,
}
use tachyon.Prelude.Words.{add64, sub64}
use tachyon.Heap.{
  Words, Heap, page_size, b2datasz, datasz2sz, next, set_block, returned, Growth, grown, failed,
  split_block, grow,
}
use tachyon.Heap.Order.{LastFree-append, Apart-append}
use tachyon.Heap.Tiles.{
  Tile, tile, span, Tiles, LastFree, Apart, top, IsHeap, span-append, used_bytes-append,
  used_count-append, used_bytes-le-span, used_count-le-span, Tiles-frame, Tiles-left, Tiles-right,
  Tiles-join, tagged, b2datasz-flag, set_block-tagged, tagged-Tiles,
}

-- The memory with the block at `q` cut: `b` bytes allocated, and `f` bytes free behind them.
abbrev pub cut : Words → ℕ → ℕ → ℕ → Words
cut m q b f = tagged (tagged m q b true) (q + 16 + b) f false

pub cut-Tiles :
    (m : Words) (q b f : ℕ) (ys : List Tile)
    → b % 8 ≡ 0
    → f % 8 ≡ 0
    → Tiles m (q + 32 + b + f) ys
    → Tiles (cut m q b f) q (tile b true ∷ tile f false ∷ ys)
cut-Tiles m q b f ys eb ef t = (
  ground arith,
  ground arith,
  eb,
  (
    ground arith,
    ground arith,
    ef,
    subst (λ p. Tiles (cut m q b f) p ys) (omega arith)
        (Tiles-frame m (cut m q b f) (q + 32 + b + f) ys (λ a l h. ground arith) t),
  ),
)

module _ (m : Words) (heap : Heap) (xs : List Tile) (s b : ℕ) (ys : List Tile) where
  abbrev pub place : ℕ
  place = heap.start + span xs

  abbrev pub rest_size : ℕ
  rest_size = s - (b + 16)

  abbrev pub heap_after : Heap
  heap_after = record heap {
    used_bytes = add64 heap.used_bytes b;
    block_count = add64 heap.block_count 1;
  }

  pub split_block-cut :
      IsHeap m heap (xs ++ tile s false ∷ ys)
      → b + 16 ≤ s
      → b % 8 ≡ 0
      → split_block m heap b place ≡ returned (cut m place b rest_size) heap_after (place + 8)
  unfolding split_block
  split_block-cut h fits eb =
      let T = Tiles-right m heap.start xs (tile s false ∷ ys) h.tiles in
      let size : b2datasz (m place) ≡ s = ap b2datasz T.0 ∙ b2datasz-flag s false T.2 in
      let k = span-append xs (tile s false ∷ ys) in
      let freesz : sub64 (b2datasz (m place)) (datasz2sz b) ≡ rest_size =
        omega (arith, size, h.mark, h.below_end, k) in
      let first = set_block-tagged m place b true eb in
      let behind : next (tagged m place b true) place ≡ place + 16 + b =
        omega (arith, ap b2datasz (tagged-Tiles m place b true eb).0 ∙ b2datasz-flag b true eb) in
      rw (freesz, first)
        (rw behind (rw (set_block-tagged _ _ rest_size false (omega (arith, T.2)))))

  pub cut-IsHeap :
      IsHeap m heap (xs ++ tile s false ∷ ys)
      → b + 16 ≤ s
      → b % 8 ≡ 0
      → IsHeap (cut m place b rest_size) heap_after (xs ++ tile b true ∷ tile rest_size false ∷ ys)
  cut-IsHeap h fits eb =
      let T = Tiles-right m heap.start xs (tile s false ∷ ys) h.tiles in
      let k = span-append xs (tile s false ∷ ys) in
      let k' = span-append xs (tile b true ∷ tile rest_size false ∷ ys) in
      let u = used_bytes-append xs (tile s false ∷ ys) in
      let u' = used_bytes-append xs (tile b true ∷ tile rest_size false ∷ ys) in
      let n = used_count-append xs (tile s false ∷ ys) in
      let n' = used_count-append xs (tile b true ∷ tile rest_size false ∷ ys) in
      let g = used_bytes-le-span (xs ++ tile b true ∷ tile rest_size false ∷ ys) in
      let g' = used_count-le-span (xs ++ tile s false ∷ ys) in
      record {
        tiles =
            Tiles-join _ heap.start xs (tile b true ∷ tile rest_size false ∷ ys)
              (Tiles-frame m _ heap.start xs (λ a l h. ground arith)
                (Tiles-left m heap.start xs (tile s false ∷ ys) h.tiles))
              (cut-Tiles m place b rest_size ys eb (omega (arith, T.2))
                (subst (λ p. Tiles m p ys) (omega arith) T.3));
        mark = omega (arith, h.mark, k, k');
        last =
            LastFree-append xs (tile s false) (tile b true) ys (tile rest_size false ∷ ys) h.last
              (last_free ys);
        apart =
            Apart-append xs (tile s false) (tile b true) ys (tile rest_size false ∷ ys) (λ _. refl)
              h.apart (apart_here ys);
        bytes = omega (arith, h.bytes, u, u', g, k, k', h.mark, h.below_end);
        blocks = omega (arith, h.blocks, n, n', g', h.mark, h.below_end);
        start_pos = h.start_pos;
        start_aligned = h.start_aligned;
        below_end = h.below_end;
      }
    where
      last_free :
          (zs : List Tile)
          → LastFree (tile s false ∷ zs)
          → LastFree (tile b true ∷ tile rest_size false ∷ zs)
      last_free [] l = refl
      last_free (z ∷ zs) l = l

      apart_here :
          (zs : List Tile)
          → Apart (tile s false ∷ zs)
          → Apart (tile b true ∷ tile rest_size false ∷ zs)
      apart_here [] a = (refl, tt)
      apart_here (z ∷ zs) a = (refl, a)

-- The last block with `s` bytes, over a mark that leaves room for `k` pages more.
pub record GrowsTo (m : Words) (heap : Heap) (start : ℕ) (xs : List Tile) (s : ℕ) (limit : ℕ)
    : Type 0 where
  pub is : IsHeap m heap (xs ++ tile s false ∷ [])
  pub same_start : heap.start ≡ start
  pub marked : heap.vmem_mark ≤ limit

-- What `grow` ends in: the block has all its pages, or a page could not be mapped.
abbrev pub Grown : (ℕ → Bool) → ℕ → List Tile → ℕ → ℕ → Growth → Type 0
Grown maps start xs s limit (grown m heap) = GrowsTo m heap start xs s limit
Grown maps start xs s limit (failed m heap) =
    (s' : ℕ) × GrowsTo m heap start xs s' limit × ((p : ℕ) × (maps p ≡ false))

-- One page more.
page-IsHeap :
    (m : Words) (heap : Heap) (xs : List Tile) (s : ℕ)
    → IsHeap m heap (xs ++ tile s false ∷ [])
    → heap.vmem_mark + page_size ≤ top
    → IsHeap
        (tagged m (heap.start + span xs) (s + page_size) false)
        (record heap { vmem_mark = add64 heap.vmem_mark page_size })
        (xs ++ tile (s + page_size) false ∷ [])
page-IsHeap m heap xs s h room =
    let T = Tiles-right m heap.start xs (tile s false ∷ []) h.tiles in
    let k = span-append xs (tile s false ∷ []) in
    let k' = span-append xs (tile (s + page_size) false ∷ []) in
    let u = used_bytes-append xs (tile s false ∷ []) in
    let u' = used_bytes-append xs (tile (s + page_size) false ∷ []) in
    let n = used_count-append xs (tile s false ∷ []) in
    let n' = used_count-append xs (tile (s + page_size) false ∷ []) in
    record {
      tiles =
          Tiles-join _ heap.start xs (tile (s + page_size) false ∷ [])
            (Tiles-frame m _ heap.start xs (λ a l h. ground arith)
              (Tiles-left m heap.start xs (tile s false ∷ []) h.tiles))
            (tagged-Tiles m (heap.start + span xs) (s + page_size) false (omega (arith, T.2)));
      mark = omega (arith, h.mark, k, k', h.below_end);
      last =
          LastFree-append xs (tile s false) (tile (s + page_size) false) [] [] h.last (λ _. refl);
      apart =
          Apart-append xs (tile s false) (tile (s + page_size) false) [] [] (λ e. e) h.apart
            (λ _. tt);
      bytes = omega (arith, h.bytes, u, u');
      blocks = omega (arith, h.blocks, n, n');
      start_pos = h.start_pos;
      start_aligned = h.start_aligned;
      below_end = omega (arith, h.below_end);
    }

pub grow-Grown :
    (maps : ℕ → Bool) (k i : ℕ) (m : Words) (heap : Heap) (xs : List Tile) (sz limit : ℕ)
    → IsHeap m heap (xs ++ tile (sz + page_size * i) false ∷ [])
    → heap.vmem_mark + page_size * k ≤ limit
    → limit ≤ top
    → Grown maps heap.start xs
        (sz + page_size * (i + k))
        limit
        (grow maps none k i m heap (heap.start + span xs) sz)
unfolding grow
grow-Grown maps zero i m heap xs sz limit h room below = record {
  is = subst (λ (s : ℕ). IsHeap m heap (xs ++ tile s false ∷ [])) (omega arith) h;
  same_start = refl;
  marked = omega arith;
}
grow-Grown maps (suc k) i m heap xs sz limit h room below =
    elim (Bool-cases (maps heap.vmem_mark)) [
      | inl ok ↦
          let q = heap.start + span xs in
          let T = Tiles-right m heap.start xs (tile (sz + page_size * i) false ∷ []) h.tiles in
          let w = span-append xs (tile (sz + page_size * i) false ∷ []) in
          let size : add64 sz (page_size * (i + 1)) ≡ sz + page_size * (i + 1) =
            omega (arith, h.mark, h.below_end, w) in
          let sum : sz + page_size * i + page_size ≡ sz + page_size * (i + 1) = omega arith in
          let heap' = record heap { vmem_mark = add64 heap.vmem_mark page_size } in
          let one : IsHeap (set_block m q (add64 sz (page_size * (i + 1))) false) heap'
              (xs ++ tile (sz + page_size * (i + 1)) false ∷ []) =
            rw (size, set_block-tagged m q (sz + page_size * (i + 1)) false (omega (arith, T.2)))
              (subst (λ (s : ℕ). IsHeap (tagged m q s false) heap' (xs ++ tile s false ∷ [])) sum
                (page-IsHeap m heap xs (sz + page_size * i) h (omega arith))) in
          rw ok (
            subst
              (λ (j : ℕ). Grown maps heap.start xs (sz + page_size * j) limit (
                grow maps none k (i + 1) (set_block m q (add64 sz (page_size * (i + 1))) false)
                  heap' q sz))
              (omega arith)
              (grow-Grown maps k (i + 1) _ heap' xs sz limit one (omega (arith, h.below_end))
                below))
      | inr bad ↦ rw bad (
        sz + page_size * i,
        record { is = h; same_start = refl; marked = omega arith },
        (heap.vmem_mark, bad),
      )
    ]
