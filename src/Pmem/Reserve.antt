-- ===== src/Pmem/Reserve.antt =====
-- pmem_reserve of src/pmem.c: a pass that tests the pages and one that sets their bits.
pub mod Inside
pub mod Passes
use tachyon.Prelude.{
  ℕ, zero, suc, Bool, true, false, none, some, List, [], ◌∷◌, ltb, leb, ◌==◌, if◌then◌else◌, length,
}
use tachyon.Prelude.Words.{add64, align_rst}
use tachyon.Bmap.{bmap_get, bmap_set}
use tachyon.Pmem.{page_size, Region, to_regbit, pmem_reg_contains}

-- How a walk ends: `return false`, `goto pass_ok`, or the address behind the regions; or at a shift that
-- is not defined, or out of fuel.
pub data Walk (A : Type 0) : Type 0 where
  taken : Walk A
  pass_ok : A → Walk A
  moved : ℕ → A → Walk A
  no_shift no_fuel : Walk A

-- One page in the pass that tests or in the one that sets.
pub touch : Bool → Region → ℕ → Walk Region
touch true r cur = if bmap_get r.bmap (to_regbit r cur) then taken else pass_ok r
touch false r cur = elim (bmap_set r.bmap (to_regbit r cur) true) [
  | none ↦ no_shift
  | some b ↦ pass_ok (record r { bmap = b })
]

-- `while(pmem_reg_contains(reg, cur))`
pub region_loop : ℕ → Bool → Region → ℕ → ℕ → Walk Region
region_loop zero check r cur top = no_fuel
region_loop (suc fuel) check r cur top =
    let next = add64 cur page_size in
    if pmem_reg_contains r cur
    then elim (touch check r cur) [
      | pass_ok r' ↦
          let rest = region_loop fuel check r' next top in if leb top next then pass_ok r' else rest
      | taken ↦ taken
      | moved c r' ↦ moved c r'
      | no_shift ↦ no_shift
      | no_fuel ↦ no_fuel
    ]
    else moved cur r

abbrev pub behind : Region → Walk (List Region) → Walk (List Region)
behind r taken = taken
behind r (pass_ok rs) = pass_ok (r ∷ rs)
behind r (moved c rs) = moved c (r ∷ rs)
behind r no_shift = no_shift
behind r no_fuel = no_fuel

-- `while(reg)`
pub regions_loop : ℕ → Bool → List Region → ℕ → ℕ → Walk (List Region)
regions_loop fuel check [] cur top = moved cur []
regions_loop fuel check (r ∷ rest) cur top = elim (region_loop fuel check r cur top) [
  | moved c r' ↦ behind r' (regions_loop fuel check rest c top)
  | pass_ok r' ↦ pass_ok (r' ∷ rest)
  | taken ↦ taken
  | no_shift ↦ no_shift
  | no_fuel ↦ no_fuel
]

-- `while(top > cur)`
pub reserve_loop : ℕ → Bool → List Region → ℕ → ℕ → Walk (List Region)
reserve_loop zero check rs cur top = no_fuel
reserve_loop (suc fuel) check rs cur top =
    if ltb cur top
    then elim (regions_loop (suc fuel) check rs cur top) [
      | moved c rs' ↦ reserve_loop fuel check rs' (add64 c page_size) top
      | pass_ok rs' ↦ pass_ok rs'
      | taken ↦ taken
      | no_shift ↦ no_shift
      | no_fuel ↦ no_fuel
    ]
    else pass_ok rs

-- Both passes; a misaligned address is fatal.
pub data Reserved : Type 0 where
  returned : Bool → List Region → Reserved
  misaligned bad_shift out_of_fuel : Reserved

-- The second pass returns true at its end.
abbrev pub second_pass : List Region → Walk (List Region) → Reserved
second_pass rs (pass_ok rs') = returned true rs'
second_pass rs (moved c rs') = returned true rs'
second_pass rs taken = returned false rs
second_pass rs no_shift = bad_shift
second_pass rs no_fuel = out_of_fuel

-- From the result of the pass that tests; `mark` is what the second one makes of the regions.
abbrev pub first_pass :
    List Region → (List Region → Walk (List Region)) → Walk (List Region) → Reserved
first_pass rs mark taken = returned false rs
first_pass rs mark (pass_ok rs') = second_pass rs' (mark rs')
first_pass rs mark (moved c rs') = second_pass rs' (mark rs')
first_pass rs mark no_shift = bad_shift
first_pass rs mark no_fuel = out_of_fuel

pub pmem_reserve : ℕ → List Region → ℕ → ℕ → Reserved
pmem_reserve fuel rs addr length =
    let top = add64 addr length in
    if align_rst addr page_size == 0
    then first_pass rs (λ rs'. reserve_loop fuel false rs' addr top)
        (reserve_loop fuel true rs addr top)
    else misaligned
