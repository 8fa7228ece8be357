-- ===== src/Heap/Alloc/Total.antt =====
-- `heap_alloc` (src/heap.c) ends, on every well-formed heap, with a block or with NULL.
use mathlib.Core.List.{append_assoc}
use tachyon.Prelude.{
  ℕ, zero, suc, ◌+◌, ◌*◌, ◌/◌, ◌%◌, ◌≤◌, ◌<◌, ◌≡◌, refl, sym, ap, subst, ◌⊎◌, inl, inr, Bool, true,
  false, none, List, [], ◌∷◌, ◌++◌, arith, Bool-cases, lt-or-ge, length,
}
use tachyon.Prelude.Words.{word_mod, align_up}
use tachyon.Heap.{Words, Heap, page_size, alloc_loop, heap_alloc}
use tachyon.Heap.Order.{LastFree-right}
use tachyon.Heap.Tiles.{Tile, tile, span, used_at, top, IsHeap}
use tachyon.Heap.Alloc.Round.{Served, used_at-last, fit, pass, enlarge}

-- What one enlargement adds.
abbrev gain : ℕ → ℕ
gain b = page_size * (align_up b page_size / page_size)

gain-ge : (b : ℕ) → b + 4096 < word_mod → b ≤ gain b
gain-ge b h = omega arith

gain-le : (b : ℕ) → b + 4096 < word_mod → gain b ≤ b + 4095
gain-le b h = omega arith

gain-pos : (b : ℕ) → b + 4096 < word_mod → 0 < b → 4096 ≤ gain b
gain-pos b h p = omega arith

module _ (maps : ℕ → Bool) (b : ℕ) (aligned : b % 8 ≡ 0) (small : b + 4096 < word_mod) where
  -- The last block is enlarged until it fits.
  last-Served :
      (k fuel : ℕ) (m : Words) (heap : Heap) (start : ℕ) (xs : List Tile) (s : ℕ)
      → IsHeap m heap (xs ++ tile s false ∷ [])
      → heap.start ≡ start
      → b + 16 ≤ s + k * gain b
      → heap.vmem_mark + k * gain b ≤ top
      → k < fuel
      → Served maps start
          (used_at start (xs ++ tile s false ∷ []))
          b
          (alloc_loop maps none fuel m heap b (start + span xs))
  last-Served k zero m heap start xs s h same fits room lt = elim lt [ ]
  last-Served zero (suc fuel) m heap start xs s h same fits room lt =
      subst
        (λ (st : ℕ).
          Served maps st (used_at st (xs ++ tile s false ∷ [])) b
            (alloc_loop maps none (suc fuel) m heap b (st + span xs)))
        same (fit maps m heap b fuel xs s [] h aligned (omega arith))
  last-Served (suc k) (suc fuel) m heap start xs s h same fits room lt =
      let conv =
        subst
          (λ (st : ℕ).
            Served maps st (used_at st (xs ++ tile s false ∷ [])) b
              (alloc_loop maps none (suc fuel) m heap b (st + span xs)))
          same in
      elim (lt-or-ge s (b + 16)) [
        | inr le ↦ conv (fit maps m heap b fuel xs s [] h aligned le)
        | inl gt ↦ conv (
            enlarge maps m heap b fuel xs s (heap.vmem_mark + gain b) h (omega arith) (omega arith)
              (omega arith) (omega arith)
              (λ m' heap' g.
                subst
                  (λ (old : List (ℕ × ℕ)).
                    Served maps heap.start old b
                      (alloc_loop maps none fuel m' heap' b (heap.start + span xs)))
                  (used_at-last heap.start xs (s + gain b) s)
                  (last-Served k fuel m' heap' heap.start xs (s + gain b) g.is g.same_start
                    (omega arith) (omega (arith, g.marked)) (omega arith))))
      ]

  -- The blocks before the last one are passed or cut.
  walk-Served :
      (fuel : ℕ) (m : Words) (heap : Heap) (xs : List Tile) (t : Tile) (ys : List Tile)
      → IsHeap m heap (xs ++ t ∷ ys)
      → 0 < b
      → heap.vmem_mark + 2 * gain b ≤ top
      → length ys + 2 < fuel
      → Served maps heap.start
          (used_at heap.start (xs ++ t ∷ ys))
          b
          (alloc_loop maps none fuel m heap b (heap.start + span xs))
  walk-Served zero m heap xs t ys h pos room enough = elim enough [ ]
  walk-Served (suc fuel) m heap xs t [] h pos room enough =
      subst
        (λ (u : Tile).
          Served maps heap.start (used_at heap.start (xs ++ u ∷ [])) b
            (alloc_loop maps none (suc fuel) m heap b (heap.start + span xs)))
        (sym free)
        (last-Served 2 (suc fuel) m heap heap.start xs t.sz
          (subst (λ (u : Tile). IsHeap m heap (xs ++ u ∷ [])) free h) refl
          (omega (arith, gain-ge b small, gain-pos b small pos)) room (omega arith))
    where
      free : t ≡ tile t.sz false
      free = ap (tile t.sz) (LastFree-right xs t [] h.last)
  walk-Served (suc fuel) m heap xs t (t' ∷ ys) h pos room enough =
      let over = λ (bad : (t.used ≡ true) ⊎ (t.sz < b + 16)).
        pass maps m heap b fuel xs t t' ys
          (λ r. Served maps heap.start (used_at heap.start (xs ++ t ∷ t' ∷ ys)) b r) h bad
          (omega arith)
          (subst
            (λ (l : List Tile).
              Served maps heap.start (used_at heap.start l) b
                (alloc_loop maps none fuel m heap b (heap.start + span (xs ++ t ∷ []))))
            (append_assoc xs (t ∷ []) (t' ∷ ys))
            (walk-Served fuel m heap (xs ++ t ∷ []) t' ys
              (subst (IsHeap m heap) (sym (append_assoc xs (t ∷ []) (t' ∷ ys))) h) pos room
              (omega arith))) in
      elim (Bool-cases t.used) [
        | inl is_used ↦ over (inl is_used)
        | inr is_free ↦ elim (lt-or-ge t.sz (b + 16)) [
          | inl less ↦ over (inr less)
          | inr fits ↦
              subst
                (λ (u : Bool).
                  Served maps heap.start (used_at heap.start (xs ++ tile t.sz u ∷ t' ∷ ys)) b
                    (alloc_loop maps none (suc fuel) m heap b (heap.start + span xs)))
                (sym is_free)
                (fit maps m heap b fuel xs t.sz (t' ∷ ys)
                  (subst (λ (u : Bool). IsHeap m heap (xs ++ tile t.sz u ∷ t' ∷ ys)) is_free h)
                  aligned fits)
        ]
      ]

-- On a well-formed heap without PG_GLOBAL with the blocks `ts`, at most `top - 2 * (bytes + 4103)`
-- bytes into the address space, `heap_alloc` of a positive number of bytes, when no call of
-- `pmem_alloc` or `vmem_map` is fatal, ends within `length ts + 2` rounds of its loop: every block is looked at once, and the last one is enlarged at most twice. It leaves a
-- well-formed heap. Either it returns NULL, a page could not be mapped, and the allocated blocks are
-- what they were; or it returns an aligned address that is not NULL, and the allocated blocks are
-- the old ones and one more there, with the requested bytes rounded up to a multiple of 8.
pub heap_alloc-Served :
    (maps : ℕ → Bool) (fuel : ℕ) (m : Words) (heap : Heap) (ts : List Tile) (bytes : ℕ)
    → IsHeap m heap ts
    → 0 < bytes
    → heap.vmem_mark + 2 * (bytes + 4103) ≤ top
    → length ts + 1 < fuel
    → Served maps heap.start
        (used_at heap.start ts)
        (align_up bytes 8)
        (heap_alloc maps none fuel m heap bytes)
unfolding heap_alloc
heap_alloc-Served maps fuel m heap [] bytes h pos room enough = elim h.last [ ]
heap_alloc-Served maps fuel m heap (t ∷ ts) bytes h pos room enough =
    let b = align_up bytes 8 in
    let small : b + 4096 < word_mod = omega arith in
    subst
      (λ (q : ℕ).
        Served maps heap.start (used_at heap.start (t ∷ ts)) b
          (alloc_loop maps none fuel m heap b q))
      (omega arith)
      (walk-Served maps b (omega arith) small fuel m heap [] t ts h (omega arith)
        (omega (arith, gain-le b small)) (omega arith))
