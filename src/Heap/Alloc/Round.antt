-- ===== src/Heap/Alloc/Round.antt =====
-- One round of the loop of `heap_alloc` (src/heap.c), on each kind of block.
use tachyon.Prelude.{
  ℕ, suc, ◌+◌, ◌-◌, ◌*◌, ◌/◌, ◌%◌, ◌≤◌, ◌<◌, ◌≡◌, refl, sym, ap, ◌∙◌, subst, ◌≢◌, ◌⊎◌, inl, inr,
  Bool, true, false, not, ◌&&◌, none, List, [], ◌∷◌, ◌++◌, arith, ltb, leb,
}
use tachyon.Heap.{
  Words, Heap, page_size, is_present, b2datasz, datasz2sz, next, has_next, Run, returned, no_fuel,
  Growth, grown, failed, grow, alloc_loop,
}
use tachyon.Prelude.Words.{word_mod, align_up}
use tachyon.Heap.Tiles.{
  Tile, tile, span, used_at, top, IsHeap, span-append, used_at-append, span_aligned, Tiles-left,
  Tiles-right, b2datasz-flag, is_present-flag,
}
use tachyon.Heap.Alloc.Steps.{split_block-cut, cut-IsHeap, GrowsTo, Grown, grow-Grown}

-- The allocated blocks `old`, and one more at `p` with `b` bytes among them.
abbrev pub OneMore : List (ℕ × ℕ) → List (ℕ × ℕ) → ℕ → ℕ → Type 0
OneMore old new p b =
    (before : List (ℕ × ℕ)) × (after : List (ℕ × ℕ)) × (old ≡ before ++ after)
    × (new ≡ before ++ (p, b) ∷ after)

-- What a call that returns leaves: a heap at the same start, and either a block that was not
-- allocated before, aligned to 8 bytes, or NULL because a page could not be mapped.
abbrev pub Served : (ℕ → Bool) → ℕ → List (ℕ × ℕ) → ℕ → Run → Type 0
Served maps start old b (returned m heap p) =
    (ts : List Tile) × IsHeap m heap ts
    × (heap.start ≡ start)
    × (((p ≡ 0) × (used_at start ts ≡ old) × ((q : ℕ) × (maps q ≡ false)))
        ⊎ ((p ≢ 0) × (p % 8 ≡ 0) × OneMore old (used_at start ts) p b))
Served maps start old b no_fuel = ⊥

-- The size of the last block, which is free, does not matter to the allocated ones.
pub used_at-last :
    (p : ℕ) (xs : List Tile) (s s' : ℕ)
    → used_at p (xs ++ tile s false ∷ []) ≡ used_at p (xs ++ tile s' false ∷ [])
used_at-last p xs s s' =
    used_at-append p xs (tile s false ∷ []) ∙ sym (used_at-append p xs (tile s' false ∷ []))

module _ (maps : ℕ → Bool) (m : Words) (heap : Heap) (b : ℕ) where
  -- A free block that is large enough is cut.
  pub fit :
      (fuel : ℕ) (xs : List Tile) (s : ℕ) (ys : List Tile)
      → IsHeap m heap (xs ++ tile s false ∷ ys)
      → b % 8 ≡ 0
      → b + 16 ≤ s
      → Served maps heap.start
          (used_at heap.start (xs ++ tile s false ∷ ys))
          b
          (alloc_loop maps none (suc fuel) m heap b (heap.start + span xs))
  unfolding alloc_loop
  fit fuel xs s ys h eb fits =
      let q = heap.start + span xs in
      let T = Tiles-right m heap.start xs (tile s false ∷ ys) h.tiles in
      let k = span-append xs (tile s false ∷ ys) in
      let inside : (leb heap.start q && ltb q heap.vmem_mark) ≡ true = ground (arith, h.mark, k) in
      let free : is_present (m q) ≡ false = ap is_present T.0 ∙ is_present-flag s false T.2 in
      let size : b2datasz (m q) ≡ s = ap b2datasz T.0 ∙ b2datasz-flag s false T.2 in
      let good : (not (is_present (m q)) && leb (datasz2sz b) (b2datasz (m q))) ≡ true =
        rw (free, size) (ground (arith, h.mark, h.below_end, k)) in
      rw (inside, good, split_block-cut m heap xs s b ys h fits eb)
        (
          xs ++ tile b true ∷ tile (s - (b + 16)) false ∷ ys,
          cut-IsHeap m heap xs s b ys h fits eb,
          refl,
          inr (
            omega arith,
            omega (
              arith,
              h.start_aligned,
              span_aligned m heap.start xs (Tiles-left m heap.start xs (tile s false ∷ ys) h.tiles),
            ),
            (
              used_at heap.start xs,
              used_at (q + 16 + s) ys,
              used_at-append heap.start xs (tile s false ∷ ys),
              used_at-append heap.start xs (tile b true ∷ tile (s - (b + 16)) false ∷ ys)
                  ∙ ap (λ (a : ℕ). used_at heap.start xs ++ (q + 8, b) ∷ used_at a ys)
                      (omega arith),
            ),
          ),
        )

  -- A block that is not free, or too small, is passed if another follows it.
  pub pass :
      (fuel : ℕ) (xs : List Tile) (t t' : Tile) (ys : List Tile) (P : Run → Type 0)
      → IsHeap m heap (xs ++ t ∷ t' ∷ ys)
      → (t.used ≡ true) ⊎ (t.sz < b + 16)
      → b + 16 < word_mod
      → P (alloc_loop maps none fuel m heap b (heap.start + span (xs ++ t ∷ [])))
      → P (alloc_loop maps none (suc fuel) m heap b (heap.start + span xs))
  unfolding alloc_loop
  pass fuel xs t t' ys P h bad small rest =
      let q = heap.start + span xs in
      let T = Tiles-right m heap.start xs (t ∷ t' ∷ ys) h.tiles in
      let k = span-append xs (t ∷ t' ∷ ys) in
      let inside : (leb heap.start q && ltb q heap.vmem_mark) ≡ true = ground (arith, h.mark, k) in
      let state : is_present (m q) ≡ t.used = ap is_present T.0 ∙ is_present-flag t.sz t.used T.2 in
      let size : b2datasz (m q) ≡ t.sz = ap b2datasz T.0 ∙ b2datasz-flag t.sz t.used T.2 in
      let no_fit : (not (is_present (m q)) && leb (datasz2sz b) (b2datasz (m q))) ≡ false =
        rw (state, size) (ground arith) in
      let after : next m q ≡ heap.start + span (xs ++ t ∷ []) =
        omega (arith, size, span-append xs (t ∷ [])) in
      let more : not (has_next m heap q) ≡ false =
        ground (arith, after, h.mark, k, span-append xs (t ∷ [])) in
      rw (inside, no_fit, more) (rw after rest)

  -- The last block grows, and is looked at again.
  pub enlarge :
      (fuel : ℕ) (xs : List Tile) (s limit : ℕ)
      → IsHeap m heap (xs ++ tile s false ∷ [])
      → s < b + 16
      → b + 16 < word_mod
      → heap.vmem_mark + page_size * (align_up b page_size / page_size) ≤ limit
      → limit ≤ top
      → ((m' : Words) (heap' : Heap)
          → GrowsTo m' heap' heap.start xs
              (s + page_size * (align_up b page_size / page_size))
              limit
          → Served maps heap.start
              (used_at heap.start (xs ++ tile s false ∷ []))
              b
              (alloc_loop maps none fuel m' heap' b (heap.start + span xs)))
      → Served maps heap.start
          (used_at heap.start (xs ++ tile s false ∷ []))
          b
          (alloc_loop maps none (suc fuel) m heap b (heap.start + span xs))
  unfolding alloc_loop
  enlarge fuel xs s limit h bad small room below rest =
      let q = heap.start + span xs in
      let T = Tiles-right m heap.start xs (tile s false ∷ []) h.tiles in
      let k = span-append xs (tile s false ∷ []) in
      let inside : (leb heap.start q && ltb q heap.vmem_mark) ≡ true = ground (arith, h.mark, k) in
      let state : is_present (m q) ≡ false = ap is_present T.0 ∙ is_present-flag s false T.2 in
      let size : b2datasz (m q) ≡ s = ap b2datasz T.0 ∙ b2datasz-flag s false T.2 in
      let no_fit : (not (is_present (m q)) && leb (datasz2sz b) (b2datasz (m q))) ≡ false =
        rw (state, size) (ground arith) in
      let last : not (has_next m heap q) ≡ true = ground (arith, size, h.mark, k) in
      rw (inside, no_fit, last)
        (rw size (
          resume (grow maps none (align_up b page_size / page_size) 0 m heap q s) (
            subst
              (λ (j : ℕ).
                Grown maps heap.start xs (s + page_size * j) limit
                  (grow maps none (align_up b page_size / page_size) 0 m heap q s))
              (omega arith)
              (grow-Grown maps (align_up b page_size / page_size) 0 m heap xs s limit
                (subst (λ (z : ℕ). IsHeap m heap (xs ++ tile z false ∷ [])) (omega arith) h) room
                below))))
    where
      resume :
          (g : Growth)
          → Grown maps heap.start xs (s + page_size * (align_up b page_size / page_size)) limit g
          → Served maps heap.start (used_at heap.start (xs ++ tile s false ∷ [])) b (elim g [
            | grown m' heap' ↦ alloc_loop maps none fuel m' heap' b (heap.start + span xs)
            | failed m' heap' ↦ returned m' heap' 0
          ])
      resume (grown m' heap') g = rest m' heap' g
      resume (failed m' heap') (s', g, bad_page) = (
        xs ++ tile s' false ∷ [],
        g.is,
        g.same_start,
        inl (refl, used_at-last heap.start xs s' s, bad_page),
      )
