-- ===== src/Pmem/Blocks.antt =====
-- The blocks that src/pmem.c allocates and frees.
use tachyon.Prelude.{
  ℕ, ◌+◌, ◌/◌, ◌≤◌, ◌<◌, ◌≡◌, refl, sym, ◌∙◌, subst, ◌⊎◌, inl, inr, Bool, true, false, ◌&&◌, Option,
  none, some, List, [], ◌∷◌, arith, ltb, leb, if◌then◌else◌, length,
}
use tachyon.Prelude.Words.{word_mod, add64}
use tachyon.Bmap.{
  Bitmap, bit_off, int_shift_limit, same, bmap_get, bmap_fill, SearchResult, found, absent, fatal,
  bmap_search,
}
use tachyon.Bmap.Bits.{FillEnd, bmap_fill-FillEnd}
use tachyon.Bmap.Search.{IsRun, Answer, bmap_search-Answer, SameBits, bmap_search-SameBits}
use tachyon.Pmem.{
  page_size, pages, Region, from_regbit, Outcome, done, stopped, undefined, filled, after_search,
  alloc_in, is_tried, or_next, pmem_alloc_helper,
}

-- A block at `a` of a region: its pages were free and now they are not, all others are as before, and the
-- region has a page behind the block.
pub record Allocated (r : Region) (length a : ℕ) (r' : Region) : Type 0 where
  pub first : ℕ
  pub address : a ≡ from_regbit r first
  pub inside : first + pages length < r.bmap.bits
  pub was_free : IsRun r.bmap false (pages length) first
  pub taken :
      (i : ℕ)
      → bmap_get r'.bmap i
        ≡ (if leb first i && ltb i (first + pages length) then true else bmap_get r.bmap i)
  pub same_bits : r'.bmap.bits ≡ r.bmap.bits
  pub same_start : r'.start ≡ r.start
  pub same_length : r'.length ≡ r.length

pub record SamePages (r r' : Region) : Type 0 where
  pub bits : SameBits r.bmap r'.bmap
  pub start : r'.start ≡ r.start
  pub length : r'.length ≡ r.length

-- Of one region: a block, or no change to its pages, or a bit for which the shift is not defined.
abbrev pub AllocEnd : Region → ℕ → Outcome (Option ℕ × Region) → Type 0
AllocEnd r length (done (some a, r')) = Allocated r length a r'
AllocEnd r length (done (none, r')) = SamePages r r'
AllocEnd r length stopped = ⊥
AllocEnd r length undefined = (j : ℕ) × (j < r.bmap.bits) × (int_shift_limit ≤ bit_off j)

-- The requests for which the sums do not wrap, at the alignments up to a page.
pub record IsSmall (r : Region) (length align : ℕ) : Type 0 where
  pub some_pages : 0 < pages length
  pub one_page : align / page_size ≤ 1
  pub no_wrap : r.bmap.bits + pages length + r.bmap.hint + 1 < word_mod

filled-AllocEnd :
    (r : Region) (length idx : ℕ) (b : Bitmap) (o : Option (Bool × Bitmap))
    → SameBits r.bmap b
    → (idx + pages length < r.bmap.bits → IsRun r.bmap false (pages length) idx)
    → FillEnd b true idx (idx + pages length) o
    → AllocEnd r length (filled r idx o)
filled-AllocEnd r length idx b none same run (fits, (j, le, less, off)) =
    (j, omega (arith, same.length), off)
filled-AllocEnd r length idx b (some (true, b')) same run (fits, w) = record {
  first = idx;
  address = refl;
  inside = omega (arith, same.length);
  was_free = run (omega (arith, same.length));
  taken = λ i. cc (w.bit i, same.get i);
  same_bits = w.same_bits ∙ same.length;
  same_start = refl;
  same_length = refl;
}
filled-AllocEnd r length idx b (some (false, b')) same run (unchanged, out) = record {
  bits = subst (λ (c : Bitmap). SameBits r.bmap c) (sym unchanged) same;
  start = refl;
  length = refl;
}

after_search-AllocEnd :
    (r : Region) (length : ℕ) (answer : SearchResult) (b : Bitmap)
    → r.bmap.bits + pages length < word_mod
    → SameBits r.bmap b
    → Answer r.bmap false (pages length) answer
    → AllocEnd r length (after_search r length answer b)
after_search-AllocEnd r length absent b small same h = record {
  bits = same;
  start = refl;
  length = refl;
}
after_search-AllocEnd r length fatal b small same h = h
after_search-AllocEnd r length (found idx) b small same h =
    filled-AllocEnd r length idx b (bmap_fill b true idx (add64 idx (pages length))) same (run h) (
      subst (λ (n : ℕ). FillEnd b true idx (idx + pages length) (bmap_fill b true idx n)) (inside h)
        (bmap_fill-FillEnd b true idx (idx + pages length) (omega arith)))
  where
    run :
        Answer r.bmap false (pages length) (found idx)
        → idx + pages length < r.bmap.bits
        → IsRun r.bmap false (pages length) idx
    run (inl (fits, bits)) less = bits
    run (inr (less, over)) inside = absurd (omega arith)

    inside :
        Answer r.bmap false (pages length) (found idx)
        → idx + pages length ≡ add64 idx (pages length)
    inside (inl (fits, bits)) = omega arith
    inside (inr (less, over)) = omega arith

alloc_in-AllocEnd :
    (r : Region) (length align : ℕ)
    → IsSmall r length align
    → AllocEnd r length (alloc_in r length align)
unfolding alloc_in
alloc_in-AllocEnd r length align small =
    after_search-AllocEnd r length
      ((bmap_search r.bmap false (pages length) (align / page_size) true).0)
      ((bmap_search r.bmap false (pages length) (align / page_size) true).1)
      (omega (arith, small.no_wrap))
      (bmap_search-SameBits r.bmap false (pages length) (align / page_size) true)
      (bmap_search-Answer r.bmap false (pages length) (align / page_size) true
        (omega (arith, small.no_wrap)) small.some_pages small.one_page)

-- A block of one of the regions, the pages of the others as before.
abbrev pub AllocatedIn : List Region → ℕ → ℕ → List Region → Type 0
AllocatedIn (r ∷ rest) length a (r' ∷ rest') =
    (Allocated r length a r' × (rest' ≡ rest)) ⊎ (SamePages r r' × AllocatedIn rest length a rest')
AllocatedIn rs length a rs' = ⊥

abbrev pub SameAll : List Region → List Region → Type 0
SameAll (r ∷ rest) (r' ∷ rest') = SamePages r r' × SameAll rest rest'
SameAll [] rs' = rs' ≡ []
SameAll rs [] = ⊥

-- A bitmap of one of the regions has a bit for which the shift is not defined.
abbrev pub WideMap : List Region → Type 0
WideMap [] = ⊥
WideMap (r ∷ rest) = ((j : ℕ) × (j < r.bmap.bits) × (int_shift_limit ≤ bit_off j)) ⊎ WideMap rest

abbrev pub HelperEnd : List Region → ℕ → Outcome (Option ℕ × List Region) → Type 0
HelperEnd rs length (done (some a, rs')) = AllocatedIn rs length a rs'
HelperEnd rs length (done (none, rs')) = SameAll rs rs'
HelperEnd rs length stopped = ⊥
HelperEnd rs length undefined = WideMap rs

abbrev pub AllSmall : List Region → ℕ → ℕ → Type 0
AllSmall [] length align = 0 ≤ 0
AllSmall (r ∷ rest) length align = IsSmall r length align × AllSmall rest length align

or_next-HelperEnd :
    (r : Region) (rest : List Region) (length : ℕ) (o : Outcome (Option ℕ × Region))
    (later : Outcome (Option ℕ × List Region))
    → AllocEnd r length o
    → HelperEnd rest length later
    → HelperEnd (r ∷ rest) length (or_next rest o later)
or_next-HelperEnd r rest length (done (some a, r')) later here there = inl (here, refl)
or_next-HelperEnd r rest length (done (none, r')) (done (some a, rs)) here there = inr (here, there)
or_next-HelperEnd r rest length (done (none, r')) (done (none, rs)) here there = (here, there)
or_next-HelperEnd r rest length (done (none, r')) stopped here there = there
or_next-HelperEnd r rest length (done (none, r')) undefined here there = inr there
or_next-HelperEnd r rest length stopped later here there = absurd here
or_next-HelperEnd r rest length undefined later here there = inl here

pub pmem_alloc_helper-HelperEnd :
    (rs : List Region) (length align : ℕ) (use_fdeg : Bool)
    → AllSmall rs length align
    → HelperEnd rs length (pmem_alloc_helper rs length align use_fdeg)
unfolding pmem_alloc_helper
pmem_alloc_helper-HelperEnd [] length align use_fdeg small = refl
pmem_alloc_helper-HelperEnd (r ∷ rest) length align use_fdeg (small, smalls) =
    or_next-HelperEnd r rest length
      (if is_tried r length use_fdeg then alloc_in r length align else done (none, r))
      (pmem_alloc_helper rest length align use_fdeg) (tried (is_tried r length use_fdeg))
      (pmem_alloc_helper-HelperEnd rest length align use_fdeg smalls)
  where
    tried : (t : Bool) → AllocEnd r length (if t then alloc_in r length align else done (none, r))
    tried true = alloc_in-AllocEnd r length align small
    tried false = record {
      bits = record { get = λ i. refl; length = refl };
      start = refl;
      length = refl;
    }
