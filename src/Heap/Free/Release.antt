-- ===== src/Heap/Free/Release.antt =====
-- `heap_free` of src/heap.c keeps the heap well formed and gives exactly one block back.
use mathlib.Core.List.{append_assoc}
use tachyon.Prelude.{
  ℕ, ◌+◌, ◌%◌, ◌≤◌, ◌<◌, ◌≡◌, refl, sym, ap, ap₂, ◌∙◌, subst, ◌⊎◌, inl, inr, true, false, not, ◌&&◌,
  ◌||◌, List, [], ◌∷◌, ◌++◌, arith, ltb, leb, ◌==◌, eq→eqb, Bool-cases,
}
use tachyon.Prelude.Words.{word_mod, sub64}
use tachyon.Heap.{Words, Heap, is_footer, b2datasz, h2f, heap_validate, merge_prev, heap_free}
use tachyon.Heap.Order.{LastFree-append, LastFree-right, Apart-append}
use tachyon.Heap.Tiles.{
  Tile, tile, span, used_at, Apart, IsHeap, span-append, used_at-append, span_aligned, Tiles-left,
  Tiles-right, tagged, b2datasz-flag, set_block-tagged,
}
use tachyon.Heap.Free.Joined.{behind-Joined}
use tachyon.Heap.Free.Merge.{
  freed_heap, merged-IsHeap, size_behind, rest_behind, aligned_behind, size_behind_le,
  merge_next_lem, merge_prev_lem, merge_prev-first,
}

-- Of a result of `heap_free`: a heap between the same bounds, with the allocated blocks `left`.
abbrev pub Freed : Heap → List (ℕ × ℕ) → Words × Heap → Type 0
Freed heap left (m', heap') =
    (ts : List Tile) × IsHeap m' heap' ts
    × (heap'.start ≡ heap.start)
    × (heap'.vmem_mark ≡ heap.vmem_mark)
    × (used_at heap.start ts ≡ left)

last-view : (xs : List Tile) → (xs ≡ []) ⊎ ((ys : List Tile) × (t : Tile) × (xs ≡ ys ++ t ∷ []))
last-view [] = inl refl
last-view (x ∷ xs) = elim (last-view xs) [
  | inl e ↦ inr ([], x, ap (λ (l : List Tile). x ∷ l) e)
  | inr (ys, t, e) ↦ inr (x ∷ ys, t, ap (λ (l : List Tile). x ∷ l) e)
]

pub heap_validate_lem :
    (m : Words) (heap : Heap) (xs : List Tile) (s : ℕ) (ys : List Tile)
    → IsHeap m heap (xs ++ tile s true ∷ ys)
    → heap.vmem_mark ≤ heap.end
    → heap_validate m heap (heap.start + span xs + 8) ≡ true
unfolding heap_validate
heap_validate_lem m heap xs s ys h inside =
    let q = heap.start + span xs in
    let T = Tiles-right m heap.start xs (tile s true ∷ ys) h.tiles in
    let eight =
      span_aligned m heap.start xs (Tiles-left m heap.start xs (tile s true ∷ ys) h.tiles) in
    let k = span-append xs (tile s true ∷ ys) in
    let header : sub64 (q + 8) 8 ≡ q = omega (arith, h.mark, h.below_end, k) in
    let size : b2datasz (m q) ≡ s = ap b2datasz T.0 ∙ b2datasz-flag s true T.2 in
    let footer : h2f m q ≡ q + 8 + s = ap (λ (z : ℕ). q + 8 + z) size in
    let c1 : ((q + 8) % 8 == 0) ≡ true =
      eq→eqb ((q + 8) % 8) 0 (omega (arith, h.start_aligned, eight)) in
    let c2 : (not (leb heap.start q && ltb q heap.end) || is_footer (m q)) ≡ false =
      rw T.0 (ground (arith, h.mark, k, T.2)) in
    let c3 : (not (ltb heap.start (q + 8 + s) && leb (q + 8 + s) heap.end)
          || not (is_footer (m (q + 8 + s))))
        ≡ false =
      rw T.1 (ground (arith, h.mark, k, T.2)) in
    let c4 : b2datasz (m (q + 8 + s)) ≡ s = ap b2datasz T.1 ∙ omega (arith, T.2) in
    rw (header, c1) (rw c2 (rw footer (rw c3 (rw (size, c4) (eq→eqb s s refl)))))

heap_free_lem :
    (m : Words) (heap : Heap) (xs : List Tile) (s : ℕ) (ys : List Tile) (p big : ℕ)
    → IsHeap m heap (xs ++ tile s true ∷ ys)
    → heap.vmem_mark ≤ heap.end
    → merge_prev m heap (heap.start + span xs) (size_behind s ys) ≡ (p, big)
    → big % 8 ≡ 0
    → heap_free m heap (heap.start + span xs + 8) ≡ (tagged m p big false, freed_heap heap s)
unfolding heap_free
heap_free_lem m heap xs s ys p big h inside merged aligned =
    let q = heap.start + span xs in
    let T = Tiles-right m heap.start xs (tile s true ∷ ys) h.tiles in
    let k = span-append xs (tile s true ∷ ys) in
    let header : sub64 (q + 8) 8 ≡ q = omega (arith, h.mark, h.below_end, k) in
    let size : b2datasz (m q) ≡ s = ap b2datasz T.0 ∙ b2datasz-flag s true T.2 in
    rw (heap_validate_lem m heap xs s ys h inside, header)
      (rw size (
        rw (merge_next_lem m heap xs s ys h) (
          rw merged
            (ap (λ (w : Words). (w, freed_heap heap s)) (set_block-tagged m p big false aligned)))))

-- The used block at `q`, with a used block or none before it.
alone :
    (m : Words) (heap : Heap) (xs : List Tile) (s : ℕ) (ys : List Tile)
    → IsHeap m heap (xs ++ tile s true ∷ ys)
    → heap.vmem_mark ≤ heap.end
    → merge_prev m heap (heap.start + span xs) (size_behind s ys)
      ≡ (heap.start + span xs, size_behind s ys)
    → ((n : ℕ) → Apart (xs ++ tile n false ∷ rest_behind ys))
    → Freed heap
        (used_at heap.start xs ++ used_at (heap.start + span xs + 16 + s) ys)
        (heap_free m heap (heap.start + span xs + 8))
alone m heap xs s ys h inside merged apart_ok =
    let j = behind-Joined s ys (LastFree-right xs (tile s true) ys h.last) in
    let T = Tiles-right m heap.start xs (tile s true ∷ ys) h.tiles in
    let S = size_behind s ys in
    let R = rest_behind ys in
    let aligned : S % 8 ≡ 0 = aligned_behind m _ s ys T.2 T.3 in
    rw (heap_free_lem m heap xs s ys (heap.start + span xs) S h inside merged aligned) (
      xs ++ tile S false ∷ R,
      merged-IsHeap m heap xs j.mid R s S
          (subst (λ (l : List Tile). IsHeap m heap (xs ++ l)) j.parts h) j.wide aligned j.bytes
          j.count (LastFree-append xs (tile s true) (tile S false) ys R h.last (j.last S))
          (apart_ok S),
      refl,
      refl,
      used_at-append heap.start xs (tile S false ∷ R)
          ∙ ap (λ (l : List (ℕ × ℕ)). used_at heap.start xs ++ l) (j.used (heap.start + span xs)),
    )

-- The used block behind a free one.
onto :
    (m : Words) (heap : Heap) (xs : List Tile) (t : Tile) (s : ℕ) (ys : List Tile)
    → IsHeap m heap (xs ++ t ∷ tile s true ∷ ys)
    → heap.vmem_mark ≤ heap.end
    → t.used ≡ false
    → Freed heap
        (used_at heap.start (xs ++ t ∷ [])
          ++ used_at (heap.start + span (xs ++ t ∷ []) + 16 + s) ys)
        (heap_free m heap (heap.start + span (xs ++ t ∷ []) + 8))
onto m heap xs t s ys h inside free =
    let split = append_assoc xs (t ∷ []) (tile s true ∷ ys) in
    let h' = subst (IsHeap m heap) (sym split) h in
    let j = behind-Joined s ys (LastFree-right (xs ++ t ∷ []) (tile s true) ys h'.last) in
    let T = Tiles-right m heap.start xs (t ∷ tile s true ∷ ys) h.tiles in
    let S = size_behind s ys in
    let R = rest_behind ys in
    let big = S + (t.sz + 16) in
    let aligned_S : S % 8 ≡ 0 = aligned_behind m _ s ys T.3.2 T.3.3 in
    let aligned : big % 8 ≡ 0 = omega (arith, aligned_S, T.2) in
    let k = span-append xs (t ∷ tile s true ∷ ys) in
    let merged : merge_prev m heap (heap.start + span (xs ++ t ∷ [])) S
        ≡ (heap.start + span xs, big) =
      merge_prev_lem m heap xs t S
        (Tiles-left m heap.start (xs ++ t ∷ []) (tile s true ∷ ys) h'.tiles)
        (omega (arith, k, size_behind_le s ys, h.mark, h.below_end))
      ∙ rw free refl in
    let here : heap.start + span (xs ++ t ∷ []) ≡ heap.start + span xs + (t.sz + 16) =
      omega (arith, span-append xs (t ∷ [])) in
    rw
      (heap_free_lem m heap (xs ++ t ∷ []) s ys (heap.start + span xs) big h' inside merged aligned)
      (
        xs ++ tile big false ∷ R,
        merged-IsHeap m heap xs (t ∷ j.mid) R s big
            (subst (λ (l : List Tile). IsHeap m heap (xs ++ t ∷ l)) j.parts h)
            (omega (arith, j.wide)) aligned (ground (arith, free, j.bytes))
            (ground (arith, free, j.count))
            (LastFree-append xs t (tile big false) (tile s true ∷ ys) R h.last (j.last big))
            (Apart-append xs t (tile big false) (tile s true ∷ ys) R (λ e. sym free ∙ e) h.apart
              (λ a. j.apart big a.1)),
        refl,
        refl,
        used_at-append heap.start xs (tile big false ∷ R)
            ∙ ap₂ (λ (l r : List (ℕ × ℕ)). l ++ r) (sym (used_at-free heap.start xs t free))
                (ap (λ (a : ℕ). used_at a R) (omega (arith, here))
                  ∙ j.used (heap.start + span (xs ++ t ∷ []))),
      )
  where
    used_at-free :
        (p : ℕ) (zs : List Tile) (u : Tile)
        → u.used ≡ false
        → used_at p (zs ++ u ∷ []) ≡ used_at p zs
    used_at-free p [] u e = rw e refl
    used_at-free p (z ∷ zs) u e = rw (used_at-free (p + 16 + z.sz) zs u e) refl

-- The used block behind a used one.
after_used :
    (m : Words) (heap : Heap) (xs : List Tile) (t : Tile) (s : ℕ) (ys : List Tile)
    → IsHeap m heap (xs ++ t ∷ tile s true ∷ ys)
    → heap.vmem_mark ≤ heap.end
    → t.used ≡ true
    → Freed heap
        (used_at heap.start (xs ++ t ∷ [])
          ++ used_at (heap.start + span (xs ++ t ∷ []) + 16 + s) ys)
        (heap_free m heap (heap.start + span (xs ++ t ∷ []) + 8))
after_used m heap xs t s ys h inside is_used =
    let h' = subst (IsHeap m heap) (sym (append_assoc xs (t ∷ []) (tile s true ∷ ys))) h in
    let j = behind-Joined s ys (LastFree-right (xs ++ t ∷ []) (tile s true) ys h'.last) in
    let small : t.sz + size_behind s ys + 16 < word_mod =
      omega
        (arith, size_behind_le s ys, span-append xs (t ∷ tile s true ∷ ys), h.mark, h.below_end) in
    alone m heap (xs ++ t ∷ []) s ys h' inside
      (merge_prev_lem m heap xs t (size_behind s ys)
          (Tiles-left m heap.start (xs ++ t ∷ []) (tile s true ∷ ys) h'.tiles) small
        ∙ rw is_used refl)
      (λ n. subst Apart (sym (append_assoc xs (t ∷ []) (tile n false ∷ rest_behind ys))) (
        Apart-append xs t t (tile s true ∷ ys) (tile n false ∷ rest_behind ys) (λ e. e) h.apart
          (λ a. (rw is_used refl, j.apart n a.1))))

-- On a well-formed heap whose mapped part ends at or before its end, `heap_free` of the address of an
-- allocated block, at any place between other blocks, passes the validation and leaves a well-formed
-- heap: its tags agree, its counters count what is allocated, no two free blocks meet and the last
-- block is free. The start and the mapped part are the same, and the allocated blocks are the old
-- ones without that block, each where it was.
pub heap_free-Freed :
    (m : Words) (heap : Heap) (xs : List Tile) (s : ℕ) (ys : List Tile)
    → IsHeap m heap (xs ++ tile s true ∷ ys)
    → heap.vmem_mark ≤ heap.end
    → Freed heap
        (used_at heap.start xs ++ used_at (heap.start + span xs + 16 + s) ys)
        (heap_free m heap (heap.start + span xs + 8))
heap_free-Freed m heap xs s ys h inside = elim (last-view xs) [
  | inl e ↦
      subst
        (λ (l : List Tile).
          Freed heap (used_at heap.start l ++ used_at (heap.start + span l + 16 + s) ys)
            (heap_free m heap (heap.start + span l + 8)))
        (sym e) (first (subst (λ (l : List Tile). IsHeap m heap (l ++ tile s true ∷ ys)) e h))
  | inr (zs, t, e) ↦
      subst
        (λ (l : List Tile).
          Freed heap (used_at heap.start l ++ used_at (heap.start + span l + 16 + s) ys)
            (heap_free m heap (heap.start + span l + 8)))
        (sym e) (behind zs t (subst (λ (l : List Tile). IsHeap m heap (l ++ tile s true ∷ ys)) e h))
]
  where
    first :
        IsHeap m heap (tile s true ∷ ys)
        → Freed heap (used_at (heap.start + 0 + 16 + s) ys) (heap_free m heap (heap.start + 0 + 8))
    first h' =
        alone m heap [] s ys h' inside (merge_prev-first m heap (size_behind s ys))
          (λ n. (behind-Joined s ys h'.last).apart n h'.apart)

    behind :
        (zs : List Tile) (t : Tile)
        → IsHeap m heap ((zs ++ t ∷ []) ++ tile s true ∷ ys)
        → Freed heap
            (used_at heap.start (zs ++ t ∷ [])
              ++ used_at (heap.start + span (zs ++ t ∷ []) + 16 + s) ys)
            (heap_free m heap (heap.start + span (zs ++ t ∷ []) + 8))
    behind zs t h' =
        let h2 = subst (IsHeap m heap) (append_assoc zs (t ∷ []) (tile s true ∷ ys)) h' in
        elim (Bool-cases t.used) [
          | inr is_free ↦ onto m heap zs t s ys h2 inside is_free
          | inl is_used ↦ after_used m heap zs t s ys h2 inside is_used
        ]
