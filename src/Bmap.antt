-- ===== src/Bmap.antt =====
-- src/bmap.c and src/bmap.h: bitmaps. A word of the storage is the function from its bit positions. The
-- searches of the kernel go forward; the backward one is not modelled.
mod Tests
pub mod Bits
pub mod Search
use mathlib.Core.Option
use tachyon.Prelude.{
  ℕ, zero, suc, ◌+◌, ◌-◌, ◌*◌, ◌/◌, ◌%◌, Bool, true, false, not, ◌&&◌, ◌||◌, Option, none, some,
  map, ltb, leb, ◌==◌, if◌then◌else◌,
}
use tachyon.Prelude.Words.{word_mod, add64, sub64}

-- `bitmap_t`
pub record Bitmap : Type 0 where
  pub storage : ℕ → ℕ → Bool
  pub bits : ℕ
  pub hint : ℕ
  pub allocated : Bool
  pub set_cnt : ℕ

-- BMAP_BITLOC
abbrev pub bit_idx : ℕ → ℕ
bit_idx bit = bit / 64

abbrev pub bit_off : ℕ → ℕ
bit_off bit = bit % 64

-- `1 << off` is a shift of an `int`, which C defines below 31 only; there the mask has that one bit.
abbrev pub int_shift_limit : ℕ
int_shift_limit = 31

abbrev pub same : Bool → Bool → Bool
same true b = b
same false b = not b

unfoldable pub bmap_get : Bitmap → ℕ → Bool
bmap_get b bit = if ltb b.bits bit then false else b.storage (bit_idx bit) (bit_off bit)

abbrev pub write_bit : (ℕ → ℕ → Bool) → ℕ → ℕ → Bool → ℕ → ℕ → Bool
write_bit storage idx off value i o = if (i == idx) && (o == off) then value else storage i o

-- `none` where the shift is not defined.
unfoldable pub bmap_set : Bitmap → ℕ → Bool → Option Bitmap
bmap_set b bit value =
    if ltb b.bits bit
    then some b
    else if ltb (bit_off bit) int_shift_limit
    then some (record b {
      storage = write_bit b.storage (bit_idx bit) (bit_off bit) value;
      set_cnt = if value then add64 b.set_cnt 1 else sub64 b.set_cnt 1;
    })
    else none

-- `while(start < end)` with the rounds left
unfoldable pub fill_loop : ℕ → Bitmap → Bool → ℕ → Option Bitmap
fill_loop zero b value start = some b
fill_loop (suc k) b value start = elim (bmap_set b start value) [
  | none ↦ none
  | some b' ↦ fill_loop k b' value (start + 1)
]

unfoldable pub bmap_fill : Bitmap → Bool → ℕ → ℕ → Option (Bool × Bitmap)
bmap_fill b value start end =
    if leb b.bits start || leb b.bits end
    then some (false, b)
    else Option.map (λ b'. (true, b')) (fill_loop (end - start) b value start)

pub bmap_clear : Bitmap → Bool → Option Bitmap
bmap_clear b value =
    Option.map (λ r. record (r.1) { set_cnt = 0 }) (bmap_fill b value 0 (sub64 b.bits 1))

-- The storage is what the memory holds; a NULL handle or storage is refused before.
pub bmap_init : Bitmap → (ℕ → ℕ → Bool) → ℕ → Option Bitmap
bmap_init b storage bitcnt =
    bmap_clear
      (record {
        storage = storage;
        bits = bitcnt;
        hint = 0;
        allocated = false;
        set_cnt = b.set_cnt;
      })
      false

-- BMAP_NEXT_MUL
abbrev pub next_mul : ℕ → ℕ → ℕ
next_mul x m = add64 x (m - 1) / m * m

-- The forward loop with `start` and `con`; `none` is out of fuel.
unfoldable pub search_loop : ℕ → Bitmap → Bool → ℕ → ℕ → ℕ → ℕ → Option (ℕ × ℕ)
search_loop zero b value cnt mul start con = none
search_loop (suc fuel) b value cnt mul start con =
    let next = search_loop fuel b value cnt mul (start + 1) (con + 1) in
    let again = search_loop fuel b value cnt mul (next_mul (start + 1) mul) 0 in
    if ltb start b.bits && ltb con cnt
    then if same value (bmap_get b start)
      then if con + 1 == cnt then some (start, con + 1) else next
      else again
    else some (start, con)

pub data SearchResult : Type 0 where
  found : ℕ → SearchResult
  absent fatal : SearchResult

-- `start -= (con - 1)`, the check of the multiple, and the check of the upper bound
abbrev pub conclude : Bitmap → ℕ → ℕ × ℕ → SearchResult
conclude b mul (start, con) =
    let index = sub64 start (sub64 con 1) in
    if not (index % mul == 0) then fatal else if ltb index b.bits then found index else absent

-- Each round raises `start`, so the fuel is enough; `fatal` takes the place of what cannot occur.
unfoldable pub search_from : Bitmap → Bool → ℕ → ℕ → ℕ → SearchResult
search_from b value cnt mul start = elim (search_loop (suc b.bits) b value cnt mul start 0) [
  | none ↦ fatal
  | some r ↦ conclude b mul r
]

-- The new hint, behind the run found.
abbrev pub hinted_behind : Bitmap → ℕ → SearchResult → SearchResult × Bitmap
hinted_behind b cnt (found index) = (found index, record b { hint = add64 index cnt })
hinted_behind b cnt absent = (absent, b)
hinted_behind b cnt fatal = (fatal, b)

-- A search of 0 bits fails, and the multiple 0 counts as 1.
abbrev pub multiple : ℕ → ℕ
multiple mul = if mul == 0 then 1 else mul

abbrev pub from_hint : Bitmap → Bool → ℕ → ℕ → SearchResult
from_hint b value cnt mul = elim (search_from b value cnt mul (next_mul b.hint mul)) [
  | absent ↦ search_from b value cnt mul (next_mul 0 mul)
  | found index ↦ found index
  | fatal ↦ fatal
]

unfoldable pub bmap_search : Bitmap → Bool → ℕ → ℕ → Bool → SearchResult × Bitmap
bmap_search b value cnt mul hinted =
    if cnt == 0
    then (absent, b)
    else hinted_behind b cnt (
        if hinted
        then from_hint b value cnt (multiple mul)
        else search_from b value cnt (multiple mul) (next_mul 0 (multiple mul)))

-- The percentage of the bits that are set.
unfoldable pub bmap_fdeg : Bitmap → ℕ
bmap_fdeg b = ((b.set_cnt * 100) % word_mod) / b.bits
