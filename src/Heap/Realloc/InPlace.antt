-- ===== src/Heap/Realloc/InPlace.antt =====
-- `heap_realloc` of src/heap.c where the next block is free and large enough.
use tachyon.Prelude.{
  ℕ, ◌+◌, ◌-◌, ◌%◌, ◌≤◌, ◌<◌, ◌≡◌, refl, ap, ◌∙◌, ◌≢◌, true, false, List, [], ◌∷◌, ◌++◌, arith, leb,
  le→leb, gt→leb,
}
use tachyon.Prelude.Words.{add64, sub64}
use tachyon.Heap.{Words, Heap, is_present, b2datasz, datasz2sz, next, has_next}
use tachyon.Heap.Tiles.{
  Tile, tile, span, Tiles, LastFree, Apart, IsHeap, span-append, used_bytes-append,
  used_bytes-le-span, Tiles-right, tagged, b2datasz-flag, is_present-flag, set_block-tagged,
  tagged-Tiles, tagged-other,
}
use tachyon.Heap.Order.{LastFree-append, Apart-append}
use tachyon.Heap.Realloc.Replace.{replaced-IsHeap}
use tachyon.Heap.Realloc.{not_positive, fits_next, take_next}

module _ (m : Words) (heap : Heap) (xs : List Tile) (s n : ℕ) (ys : List Tile)
    (h : IsHeap m heap (xs ++ tile s true ∷ tile n false ∷ ys)) where
  at : ℕ
  at = heap.start + span xs

  here : Tiles m (heap.start + span xs) (tile s true ∷ tile n false ∷ ys)
  here = Tiles-right m heap.start xs (tile s true ∷ tile n false ∷ ys) h.tiles

  pub size : b2datasz (m (heap.start + span xs)) ≡ s
  size = ap b2datasz here.0 ∙ b2datasz-flag s true here.2

  next_at : next m (heap.start + span xs) ≡ heap.start + span xs + 16 + s
  next_at = omega (arith, size)

  next_size : b2datasz (m (heap.start + span xs + 16 + s)) ≡ n
  next_size = ap b2datasz here.3.0 ∙ b2datasz-flag n false here.3.2

  next_free : is_present (m (heap.start + span xs + 16 + s)) ≡ false
  next_free = ap is_present here.3.0 ∙ is_present-flag n false here.3.2

  pub marked : heap.vmem_mark ≡ heap.start + span xs + 16 + s + (n + 16 + span ys)
  marked = omega (arith, h.mark, span-append xs (tile s true ∷ tile n false ∷ ys))

  pub fits_next-true :
      (bytes : ℕ) → bytes ≤ s + n + 16 → fits_next m heap (heap.start + span xs) bytes ≡ true
  unfolding fits_next
  fits_next-true bytes fits =
      let more : has_next m heap (heap.start + span xs) ≡ true =
        rw next_at (
          rw (gt→leb heap.vmem_mark (heap.start + span xs + 16 + s) (omega (arith, marked)))
            refl) in
      let room : leb bytes (add64 (datasz2sz n) s) ≡ true =
        le→leb bytes (add64 (datasz2sz n) s) (omega (arith, marked, h.below_end)) in
      rw (fits_next, more, next_at, next_free, next_size, size, room) refl

  used_bound : heap.used_bytes + 16 + n ≤ heap.vmem_mark
  used_bound = omega (
    arith,
    h.bytes,
    used_bytes-append xs (tile s true ∷ tile n false ∷ ys),
    used_bytes-le-span xs,
    used_bytes-le-span ys,
    marked,
    h.start_pos,
  )

  pub take_next-whole :
      (bytes : ℕ)
      → s < bytes
      → s + n ≤ bytes
      → bytes ≤ s + n + 16
      → take_next m heap (heap.start + span xs) bytes ≡ (
        tagged m (heap.start + span xs) (s + n + 16) true,
        record heap { used_bytes = heap.used_bytes + (n + 16) },
      )
  unfolding take_next
  take_next-whole bytes grows most fits =
      let q = heap.start + span xs in
      let none_left : not_positive (sub64 n (sub64 bytes s)) ≡ true =
        ground (arith, marked, h.below_end) in
      let whole : add64 s (datasz2sz n) ≡ s + n + 16 = omega (arith, marked, h.below_end) in
      let used : add64 heap.used_bytes (sub64 (s + n + 16) s) ≡ heap.used_bytes + (n + 16) =
        omega (arith, marked, h.below_end, used_bound) in
      rw
        (
          take_next,
          next_at,
          next_size,
          size,
          none_left,
          whole,
          used,
          set_block-tagged m q (s + n + 16) true (omega (arith, here.2, here.3.2)),
        )
        refl

  pub take_next-split :
      (bytes : ℕ)
      → s < bytes
      → bytes < s + n
      → bytes % 8 ≡ 0
      → n < 9223372036854775808
      → take_next m heap (heap.start + span xs) bytes ≡ (
        tagged
            (tagged m (heap.start + span xs) bytes true)
            (heap.start + span xs + 16 + bytes)
            (n - (bytes - s))
            false,
        record heap { used_bytes = heap.used_bytes + (bytes - s) },
      )
  unfolding take_next
  take_next-split bytes grows less aligned half =
      let q = heap.start + span xs in
      let m1 = tagged m q bytes true in
      let missing : sub64 n (sub64 bytes s) ≡ n - (bytes - s) =
        omega (arith, marked, h.below_end) in
      let some_left : not_positive (n - (bytes - s)) ≡ false = ground arith in
      let used : add64 heap.used_bytes (sub64 bytes s) ≡ heap.used_bytes + (bytes - s) =
        omega (arith, marked, h.below_end, used_bound) in
      let own : b2datasz (m1 q) ≡ bytes =
        ap b2datasz (tagged-Tiles m q bytes true aligned).0 ∙ b2datasz-flag bytes true aligned in
      let behind : next m1 q ≡ q + 16 + bytes = omega (arith, own) in
      rw
        (
          take_next,
          next_at,
          next_size,
          size,
          missing,
          some_left,
          used,
          set_block-tagged m q bytes true aligned,
          behind,
          set_block-tagged m1 (q + 16 + bytes) (n - (bytes - s)) false
              (omega (arith, here.2, here.3.2)),
        )
        refl

  pub whole-IsHeap :
      (bytes : ℕ)
      → ys ≢ []
      → IsHeap
          (tagged m (heap.start + span xs) (s + n + 16) true)
          (record heap { used_bytes = heap.used_bytes + (n + 16) })
          (xs ++ tile (s + n + 16) true ∷ ys)
  whole-IsHeap bytes more =
      let q = heap.start + span xs in
      replaced-IsHeap m (tagged m q (s + n + 16) true) heap (heap.used_bytes + (n + 16)) xs
        (tile s true ∷ tile n false ∷ []) (tile (s + n + 16) true ∷ []) ys h (omega arith)
        (tagged-Tiles m q (s + n + 16) true (omega (arith, here.2, here.3.2)))
        (λ a l. tagged-other m q (s + n + 16) true a (omega arith) (omega arith))
        (λ a l. tagged-other m q (s + n + 16) true a (omega arith) (omega arith)) (omega arith) refl
        (LastFree-append xs (tile s true) (tile (s + n + 16) true) (tile n false ∷ ys) ys h.last
          (λ l. last_behind ys more l))
        (Apart-append xs (tile s true) (tile (s + n + 16) true) (tile n false ∷ ys) ys (λ e. e)
          h.apart (λ a. apart_behind ys a))
    where
      last_behind :
          (zs : List Tile)
          → zs ≢ []
          → LastFree (tile s true ∷ tile n false ∷ zs)
          → LastFree (tile (s + n + 16) true ∷ zs)
      last_behind [] ne l = absurd (ne refl)
      last_behind (z ∷ zs) ne l = l

      apart_behind :
          (zs : List Tile)
          → Apart (tile s true ∷ tile n false ∷ zs)
          → Apart (tile (s + n + 16) true ∷ zs)
      apart_behind [] a = tt
      apart_behind (z ∷ zs) a = (refl, a.1.1)

  pub split-IsHeap :
      (bytes : ℕ)
      → s < bytes
      → bytes < s + n
      → bytes % 8 ≡ 0
      → IsHeap
          (tagged
            (tagged m (heap.start + span xs) bytes true)
            (heap.start + span xs + 16 + bytes)
            (n - (bytes - s))
            false)
          (record heap { used_bytes = heap.used_bytes + (bytes - s) })
          (xs ++ tile bytes true ∷ tile (n - (bytes - s)) false ∷ ys)
  split-IsHeap bytes grows less aligned =
      let q = heap.start + span xs in
      let left = n - (bytes - s) in
      let m1 = tagged m q bytes true in
      let m2 = tagged m1 (q + 16 + bytes) left false in
      let a1 = tagged-Tiles m q bytes true aligned in
      let a2 = tagged-Tiles m1 (q + 16 + bytes) left false (omega (arith, here.2, here.3.2)) in
      let other =
        λ (a : ℕ) (n1 : a ≢ q) (n2 : a ≢ q + 8 + bytes) (n3 : a ≢ q + 16 + bytes)
            (n4 : a ≢ q + 16 + bytes + 8 + left).
          tagged-other m1 (q + 16 + bytes) left false a n3 n4
          ∙ tagged-other m q bytes true a n1 n2 in
      replaced-IsHeap m m2 heap (heap.used_bytes + (bytes - s)) xs (tile s true ∷ tile n false ∷ [])
        (tile bytes true ∷ tile left false ∷ []) ys h (omega arith)
        (
          tagged-other m1 (q + 16 + bytes) left false q (omega arith) (omega arith) ∙ a1.0,
          tagged-other m1 (q + 16 + bytes) left false (q + 8 + bytes) (omega arith) (omega arith)
              ∙ a1.1,
          aligned,
          a2,
        )
        (λ a l. other a (omega arith) (omega arith) (omega arith) (omega arith))
        (λ a l. other a (omega arith) (omega arith) (omega arith) (omega arith)) (omega arith) refl
        (LastFree-append xs (tile s true) (tile bytes true) (tile n false ∷ ys)
          (tile left false ∷ ys) h.last (λ l. last_again ys l))
        (Apart-append xs (tile s true) (tile bytes true) (tile n false ∷ ys) (tile left false ∷ ys)
          (λ e. e) h.apart (λ a. (refl, apart_again ys a.1)))
    where
      last_again :
          (zs : List Tile)
          → LastFree (tile s true ∷ tile n false ∷ zs)
          → LastFree (tile bytes true ∷ tile (n - (bytes - s)) false ∷ zs)
      last_again [] l = refl
      last_again (z ∷ zs) l = l

      apart_again :
          (zs : List Tile) → Apart (tile n false ∷ zs) → Apart (tile (n - (bytes - s)) false ∷ zs)
      apart_again [] a = tt
      apart_again (z ∷ zs) a = a
