-- ===== src/Pmem/Release.antt =====
-- What pmem_free of src/pmem.c makes of a block that was allocated before.
use tachyon.Prelude.{
  ℕ, ◌+◌, ◌*◌, ◌%◌, ◌≤◌, ◌<◌, ◌≡◌, refl, ap, ◌∙◌, ◌⊎◌, inl, inr, Bool, true, false, not, ◌&&◌,
  Option, none, some, List, [], ◌∷◌, arith, ltb, leb, if◌then◌else◌, Bool-cases, length,
}
use tachyon.Prelude.Words.{word_mod, add64}
use tachyon.Bmap.{Bitmap, same, bmap_get, bmap_fill}
use tachyon.Bmap.Bits.{Written, FillEnd, bmap_fill-FillEnd}
use tachyon.Pmem.{page_size, pages, Region, to_regbit, pmem_reg_contains, free_in, pmem_free}
use tachyon.Pmem.Blocks.{Allocated, SamePages, AllocatedIn, SameAll}

-- A region of whole pages, with a bitmap as long as its first one, below the top of the addresses.
pub record IsSound (r : Region) : Type 0 where
  pub aligned : r.start % page_size ≡ 0
  pub covered : r.bmap.bits * page_size ≤ r.length
  pub below : r.start + r.length < word_mod
  pub short : r.bmap.bits ≤ 32

abbrev pub ApartFrom : Region → List Region → Type 0
ApartFrom r [] = 0 ≤ 0
ApartFrom r (s ∷ rest) =
    ((r.start + r.length ≤ s.start) ⊎ (s.start + s.length ≤ r.start)) × ApartFrom r rest

-- Sound regions of which no two overlap.
abbrev pub AllSound : List Region → Type 0
AllSound [] = 0 ≤ 0
AllSound (r ∷ rest) = IsSound r × ApartFrom r rest × AllSound rest

-- An address lies in its region and is turned back into the first bit of the block.
place :
    (r : Region) (length a : ℕ) (r' : Region) (h : Allocated r length a r')
    → IsSound r
    → (r.start ≤ a) × (a < r.start + r.length) × (to_regbit r' a ≡ h.first)
place r length a r' h sound = (
  omega (arith, at),
  omega (arith, at, h.inside, sound.covered),
  omega (arith, at, h.same_start, h.inside, sound.aligned, sound.covered, sound.below),
)
  where
    at : a ≡ r.start + h.first * 4096
    at = h.address ∙ omega (arith, h.inside, sound.covered, sound.below)

-- The call of bmap_fill writes all bits of the block.
fill_end :
    (b : Bitmap) (start end : ℕ) (o : Option (Bool × Bitmap))
    → end < b.bits
    → b.bits ≤ 32
    → start ≤ end
    → FillEnd b false start end o
    → (b' : Bitmap) × (o ≡ some (true, b')) × Written b false start end b'
fill_end b start end (some (true, b')) less short order (fits, w) = (b', refl, w)
fill_end b start end (some (false, b')) less short order (same, inl out) = absurd (omega arith)
fill_end b start end (some (false, b')) less short order (same, inr out) = absurd (omega arith)
fill_end b start end none less short order (fits, (j, le, lt, off)) = absurd (omega arith)

not-true : (b : Bool) → not b ≡ true → false ≡ b
not-true true h = h
not-true false h = refl

-- Setting the bits of a run and clearing them gives the bits as they were.
set-clear :
    (b : ℕ → Bool) (start end i : ℕ)
    → ((j : ℕ) → start ≤ j → j < end → not (b j) ≡ true)
    → (if leb start i && ltb i end then false else (if leb start i && ltb i end then true else b i))
      ≡ b i
set-clear b start end i run = elim (Bool-cases (leb start i && ltb i end)) [
  | inl inside ↦ rw inside (not-true (b i) (run i (ground arith) (ground arith)))
  | inr outside ↦ rw outside refl
]

free_in-bmap_fill :
    (r : Region) (length a first end : ℕ) (b' : Bitmap)
    → to_regbit r a ≡ first
    → add64 first (pages length) ≡ end
    → bmap_fill r.bmap false first end ≡ some (true, b')
    → free_in r a length ≡ some (record r { bmap = b' })
free_in-bmap_fill r length a first end b' bit sum e = rw (bit, sum, e) refl

free_in-Allocated :
    (r : Region) (length a : ℕ) (r' : Region)
    → Allocated r length a r'
    → IsSound r
    → (r'' : Region) × (free_in r' a length ≡ some r'') × SamePages r r''
free_in-Allocated r length a r' h sound =
    let (low, high, bit) = place r length a r' h sound in
    let (b', e, w) =
      fill_end r'.bmap h.first (h.first + pages length)
        (bmap_fill r'.bmap false h.first (h.first + pages length))
        (omega (arith, h.inside, h.same_bits)) (omega (arith, sound.short, h.same_bits))
        (omega arith)
        (bmap_fill-FillEnd r'.bmap false h.first (h.first + pages length) (omega arith)) in
    let end : add64 h.first (pages length) ≡ h.first + pages length =
      omega (arith, h.inside, sound.covered, sound.below) in
    (
      record r' { bmap = b' },
      free_in-bmap_fill r' length a h.first (h.first + pages length) b' bit end e,
      record {
        bits = record {
          get = λ i.
              w.bit i
              ∙ ap
                  (λ (t : Bool).
                    if leb h.first i && ltb i (h.first + pages length) then false else t)
                  (h.taken i)
              ∙ set-clear (bmap_get r.bmap) h.first (h.first + pages length) i h.was_free;
          length = w.same_bits ∙ h.same_bits;
        };
        start = h.same_start;
        length = h.same_length;
      },
    )

SameAll-refl : (rs : List Region) → SameAll rs rs
SameAll-refl [] = refl
SameAll-refl (r ∷ rest) = (
  record { bits = record { get = λ i. refl; length = refl }; start = refl; length = refl },
  SameAll-refl rest,
)

-- A block of the other regions does not lie in this one.
outside :
    (r : Region) (rest : List Region) (length a : ℕ) (rest' : List Region)
    → ApartFrom r rest
    → AllSound rest
    → AllocatedIn rest length a rest'
    → (a < r.start) ⊎ (r.start + r.length ≤ a)
outside r [] length a rest' free_of sound h = absurd h
outside r (s ∷ rest) length a [] free_of sound h = absurd h
outside r (s ∷ rest) length a (s' ∷ rest') (inl before, more) (sound, free_of, sounds)
      (inl (h, alike)) =
    let (low, high, bit) = place s length a s' h sound in inr (omega arith)
outside r (s ∷ rest) length a (s' ∷ rest') (inr behind, more) (sound, free_of, sounds)
      (inl (h, alike)) =
    let (low, high, bit) = place s length a s' h sound in inl (omega arith)
outside r (s ∷ rest) length a (s' ∷ rest') (first, more) (sound, free_of, sounds) (inr (alike, h)) =
    outside r rest length a rest' more sounds h

-- pmem_free takes back a block that was allocated in one of several regions, none of which overlap, with the same
-- length: all pages of all regions are then as they were before the allocation. The regions start at
-- pages, lie below the top of the addresses, hold all pages of their bitmaps, so that no bit stands for
-- a page that is only in part in the region, and have bitmaps of at most 32 bits, for which all shifts
-- are defined.
pub pmem_free-AllocatedIn :
    (rs : List Region) (length a : ℕ) (rs' : List Region)
    → AllSound rs
    → AllocatedIn rs length a rs'
    → (rs'' : List Region) × (pmem_free rs' a length ≡ some rs'') × SameAll rs rs''
unfolding pmem_free
pmem_free-AllocatedIn [] length a rs' sound h = absurd h
pmem_free-AllocatedIn (r ∷ rest) length a [] sound h = absurd h
pmem_free-AllocatedIn (r ∷ rest) length a (r' ∷ rest') (sound, free_of, sounds) (inl (h, alike)) =
    let (low, high, bit) = place r length a r' h sound in
    let (r'', e, pages) = free_in-Allocated r length a r' h sound in
    let test : pmem_reg_contains r' a ≡ true =
      ground (arith, h.same_start, h.same_length, sound.below) in
    (r'' ∷ rest, rw (test, e, alike) refl, (pages, SameAll-refl rest))
pmem_free-AllocatedIn (r ∷ rest) length a (r' ∷ rest') (sound, free_of, sounds) (inr (alike, h)) =
    let (rs'', e, pages) = pmem_free-AllocatedIn rest length a rest' sounds h in
    let test : pmem_reg_contains r' a ≡ false =
      elim (outside r rest length a rest' free_of sounds h) [
        | inl low ↦ ground (arith, alike.start)
        | inr high ↦ ground (arith, alike.start, alike.length, sound.below)
      ] in
    (r' ∷ rs'', rw (test, e) refl, (alike, pages))
