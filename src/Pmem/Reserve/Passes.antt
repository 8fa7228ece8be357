-- ===== src/Pmem/Reserve/Passes.antt =====
-- pmem_reserve of src/pmem.c as a whole, for a range inside of the first region.
use tachyon.Prelude.{
  ℕ, suc, ◌+◌, ◌*◌, ◌≤◌, ◌<◌, ◌≡◌, refl, Bool, true, false, List, [], ◌∷◌, arith, ◌==◌, lt→ltb,
  length,
}
use tachyon.Prelude.Words.{add64, align_rst}
use tachyon.Bmap.{bit_off, int_shift_limit, same, bmap_get}
use tachyon.Bmap.Bits.{Written}
use tachyon.Pmem.{page_size, pages, Region}
use tachyon.Pmem.Reserve.{
  Walk, taken, pass_ok, moved, no_shift, no_fuel, region_loop, regions_loop, reserve_loop, Reserved,
  returned, misaligned, bad_shift, out_of_fuel, first_pass, pmem_reserve,
}
use tachyon.Pmem.Reserve.Inside.{
  IsWhole, Range, AllFree, CheckEnd, check_loop-CheckEnd, MarkEnd, mark_loop-MarkEnd,
}

-- Of a reservation in the first region: a page that is taken, and nothing changed; or all pages were
-- free and are taken now, no other; or a shift that is not defined.
abbrev pub ReserveEnd : Region → List Region → ℕ → ℕ → Reserved → Type 0
ReserveEnd r rest first end (returned false rs) =
    (rs ≡ r ∷ rest) × ((j : ℕ) × (first ≤ j) × (j < end) × (bmap_get r.bmap j ≡ true))
ReserveEnd r rest first end (returned true (r' ∷ rest')) =
    AllFree r.bmap first end
    × Written r.bmap true first end r'.bmap
    × (r'.start ≡ r.start)
    × (r'.length ≡ r.length)
    × (rest' ≡ rest)
ReserveEnd r rest first end (returned true []) = ⊥
ReserveEnd r rest first end bad_shift =
    AllFree r.bmap first end × ((j : ℕ) × (first ≤ j) × (j < end) × (int_shift_limit ≤ bit_off j))
ReserveEnd r rest first end misaligned = ⊥
ReserveEnd r rest first end out_of_fuel = ⊥

-- The walk through all regions, from one that ends in the first.
lift : List Region → Walk Region → Walk (List Region)
lift rest (pass_ok r) = pass_ok (r ∷ rest)
lift rest (moved c r) = moved c (r ∷ rest)
lift rest taken = taken
lift rest no_shift = no_shift
lift rest no_fuel = no_fuel

abbrev Settled : Walk Region → Type 0
Settled (moved c r) = ⊥
Settled w = 0 ≤ 0

reserve_loop-lift :
    (fuel : ℕ) (check : Bool) (r : Region) (rest : List Region) (cur top : ℕ) (w : Walk Region)
    → region_loop (suc fuel) check r cur top ≡ w
    → Settled w
    → cur < top
    → reserve_loop (suc fuel) check (r ∷ rest) cur top ≡ lift rest w
unfolding reserve_loop regions_loop lift
reserve_loop-lift fuel check r rest cur top (pass_ok r') e settled less =
    rw (lt→ltb cur top less, e) refl
reserve_loop-lift fuel check r rest cur top taken e settled less = rw (lt→ltb cur top less, e) refl
reserve_loop-lift fuel check r rest cur top (moved c r') e settled less = absurd settled
reserve_loop-lift fuel check r rest cur top no_shift e settled less =
    rw (lt→ltb cur top less, e) refl
reserve_loop-lift fuel check r rest cur top no_fuel e settled less =
    rw (lt→ltb cur top less, e) refl

CheckEnd-Settled :
    (r : Region) (first end : ℕ) (w : Walk Region) → CheckEnd r first end w → Settled w
CheckEnd-Settled r first end (moved c r') h = h
CheckEnd-Settled r first end taken h = omega arith
CheckEnd-Settled r first end (pass_ok r') h = omega arith
CheckEnd-Settled r first end no_shift h = absurd h
CheckEnd-Settled r first end no_fuel h = absurd h

MarkEnd-Settled : (r : Region) (first end : ℕ) (w : Walk Region) → MarkEnd r first end w → Settled w
MarkEnd-Settled r first end (moved c r') h = h
MarkEnd-Settled r first end taken h = absurd h
MarkEnd-Settled r first end (pass_ok r') h = omega arith
MarkEnd-Settled r first end no_shift h = omega arith
MarkEnd-Settled r first end no_fuel h = absurd h

both_passes :
    (r : Region) (rest : List Region) (first end : ℕ) (check mark : Walk Region)
    (marking : List Region → Walk (List Region))
    → marking (r ∷ rest) ≡ lift rest mark
    → CheckEnd r first end check
    → MarkEnd r first end mark
    → ReserveEnd r rest first end (first_pass (r ∷ rest) marking (lift rest check))
unfolding lift
both_passes r rest first end taken mark marking e h m = (refl, h)
both_passes r rest first end (pass_ok r') (pass_ok s) marking e (same, free) (w, st, l) =
    rw (same, e) (free, w, st, l, refl)
both_passes r rest first end (pass_ok r') no_shift marking e (same, free) m = rw (same, e) (free, m)
both_passes r rest first end (pass_ok r') taken marking e h m = absurd m
both_passes r rest first end (pass_ok r') (moved c s) marking e h m = absurd m
both_passes r rest first end (pass_ok r') no_fuel marking e h m = absurd m
both_passes r rest first end (moved c r') mark marking e h m = absurd h
both_passes r rest first end no_shift mark marking e h m = absurd h
both_passes r rest first end no_fuel mark marking e h m = absurd h

-- pmem_reserve of a range that starts at a page and lies inside of the first region, which is made of whole pages,
-- comes to an end within as many rounds as the range has pages, one at least. It returns false and
-- changes nothing if one of the pages is taken; otherwise it takes all pages of the range and no
-- other, in this region and in the others, and returns true, or comes to a bit for which the shift
-- of an `int` is not defined.
pub pmem_reserve-ReserveEnd :
    (r : Region) (rest : List Region) (idx length fuel : ℕ)
    → IsWhole r
    → 0 < length
    → idx * page_size + length ≤ r.length
    → pages length ≤ suc fuel
    → ReserveEnd r rest idx
        (idx + pages length)
        (pmem_reserve (suc fuel) (r ∷ rest) (r.start + idx * page_size) length)
unfolding pmem_reserve
pmem_reserve-ReserveEnd r rest idx length fuel sound some_bytes fits enough =
    let addr : ℕ = r.start + idx * page_size in
    let top : add64 addr length ≡ addr + length = omega (arith, sound.below) in
    let page : (align_rst addr page_size == 0) ≡ true = ground (arith, sound.aligned) in
    let range : Range r idx (pages length) addr (addr + length) = record {
      some_page = omega arith;
      at = refl;
      reached = omega (arith, sound.below);
      enough = omega (arith, sound.below);
      inside = omega arith;
    } in
    let check =
      check_loop-CheckEnd (pages length) (suc fuel) r idx addr (addr + length) sound range enough in
    let mark =
      mark_loop-MarkEnd (pages length) (suc fuel) r idx addr (addr + length) sound range enough in
    rw
      (
        page,
        top,
        reserve_loop-lift fuel true r rest addr (addr + length)
            (region_loop (suc fuel) true r addr (addr + length)) refl
            (CheckEnd-Settled r idx (idx + pages length)
              (region_loop (suc fuel) true r addr (addr + length)) check)
            (omega arith),
      )
      (both_passes r rest idx (idx + pages length)
        (region_loop (suc fuel) true r addr (addr + length))
        (region_loop (suc fuel) false r addr (addr + length))
        (λ rs'. reserve_loop (suc fuel) false rs' addr (addr + length))
        (reserve_loop-lift fuel false r rest addr (addr + length)
          (region_loop (suc fuel) false r addr (addr + length)) refl
          (MarkEnd-Settled r idx (idx + pages length)
            (region_loop (suc fuel) false r addr (addr + length)) mark)
          (omega arith))
        check mark)
