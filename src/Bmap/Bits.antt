-- ===== src/Bmap/Bits.antt =====
-- What setting one bit and a range of bits changes in a bitmap (src/bmap.c).
use mathlib.Core.Option
use tachyon.Prelude.{
  ℕ, zero, suc, ◌+◌, ◌-◌, ◌≤◌, ◌<◌, ◌≡◌, refl, sym, ◌∙◌, subst, ◌⊎◌, inl, inr, Bool, true, false,
  ◌&&◌, ◌||◌, Option, none, some, arith, ltb, leb, if◌then◌else◌, lt→ltb, ge→ltb, lt-or-ge,
}
use tachyon.Prelude.Words.{add64, sub64}
use tachyon.Bmap.{
  Bitmap, bit_idx, bit_off, int_shift_limit, bmap_get, write_bit, bmap_set, fill_loop, bmap_fill,
}

-- A bitmap after some bits were written: the others, the length, and the hint are as before.
pub record Written (b : Bitmap) (v : Bool) (start end : ℕ) (b' : Bitmap) : Type 0 where
  pub bit : (i : ℕ) → bmap_get b' i ≡ (if leb start i && ltb i end then v else bmap_get b i)
  pub same_bits : b'.bits ≡ b.bits
  pub same_hint : b'.hint ≡ b.hint

pub bmap_set-Written :
    (b : Bitmap) (k : ℕ) (v : Bool)
    → k ≤ b.bits
    → bit_off k < int_shift_limit
    → (b' : Bitmap) × (bmap_set b k v ≡ some b') × Written b v k (k + 1) b'
unfolding bmap_set bmap_get
bmap_set-Written b k v inside defined = (
  record b {
    storage = write_bit b.storage (bit_idx k) (bit_off k) v;
    set_cnt = if v then add64 b.set_cnt 1 else sub64 b.set_cnt 1;
  },
  rw (ge→ltb b.bits k inside, lt→ltb (bit_off k) int_shift_limit defined) refl,
  record { bit = λ i. ground arith; same_bits = refl; same_hint = refl },
)

pub bmap_set-none :
    (b : Bitmap) (k : ℕ) (v : Bool)
    → k ≤ b.bits
    → int_shift_limit ≤ bit_off k
    → bmap_set b k v ≡ none
unfolding bmap_set
bmap_set-none b k v inside undefined =
    rw (ge→ltb b.bits k inside, ge→ltb (bit_off k) int_shift_limit undefined) refl

-- Of the loop: it ends with the bits written, or at a bit for which the shift is not defined.
abbrev pub LoopEnd : Bitmap → Bool → ℕ → ℕ → Option Bitmap → Type 0
LoopEnd b v start end (some b') = Written b v start end b'
LoopEnd b v start end none = (j : ℕ) × (start ≤ j) × (j < end) × (int_shift_limit ≤ bit_off j)

pub LoopEnd-step :
    (b b' : Bitmap) (v : Bool) (start end : ℕ) (o : Option Bitmap)
    → start < end
    → Written b v start (start + 1) b'
    → LoopEnd b' v (start + 1) end o
    → LoopEnd b v start end o
LoopEnd-step b b' v start end (some c) less w rest = record {
  bit = λ i. ground (arith, rest.bit i, w.bit i);
  same_bits = rest.same_bits ∙ w.same_bits;
  same_hint = rest.same_hint ∙ w.same_hint;
}
LoopEnd-step b b' v start end none less w (j, l, h, o) = (j, omega arith, h, o)

-- A round of the loop behind `bmap_set`.
abbrev fill_rest : ℕ → Bool → ℕ → Option Bitmap → Option Bitmap
fill_rest k v start o = elim o [ none ↦ none | some b' ↦ fill_loop k b' v (start + 1) ]

fill_loop-LoopEnd :
    (k : ℕ) (b : Bitmap) (v : Bool) (start : ℕ)
    → start + k ≤ b.bits
    → LoopEnd b v start (start + k) (fill_loop k b v start)
unfolding fill_loop
fill_loop-LoopEnd zero b v start inside = record {
  bit = λ i. ground arith;
  same_bits = refl;
  same_hint = refl;
}
fill_loop-LoopEnd (suc k) b v start inside = elim (lt-or-ge (bit_off start) int_shift_limit) [
  | inl defined ↦
      let (b', e, w) = bmap_set-Written b start v (omega arith) defined in
      subst (λ (o : Option Bitmap). LoopEnd b v start (start + suc k) (fill_rest k v start o))
        (sym e)
        (LoopEnd-step b b' v start (start + suc k) (fill_loop k b' v (start + 1)) (omega arith) w (
          subst (λ (t : ℕ). LoopEnd b' v (start + 1) t (fill_loop k b' v (start + 1))) (omega arith)
            (fill_loop-LoopEnd k b' v (start + 1) (omega (arith, w.same_bits)))))
  | inr undefined ↦
      subst (λ (o : Option Bitmap). LoopEnd b v start (start + suc k) (fill_rest k v start o))
        (sym (bmap_set-none b start v (omega arith) undefined))
        (start, omega arith, omega arith, undefined)
]

-- Of a result of `bmap_fill`: the bits from `start` to before `end` are written and no other, which
-- takes an `end` below the number of bits; or nothing is, for an `end` or a start behind that; or, with
-- such an `end`, a bit is to be written for which the shift is not defined.
abbrev pub FillEnd : Bitmap → Bool → ℕ → ℕ → Option (Bool × Bitmap) → Type 0
FillEnd b v start end (some (true, b')) = (end < b.bits) × Written b v start end b'
FillEnd b v start end (some (false, b')) = (b' ≡ b) × ((b.bits ≤ start) ⊎ (b.bits ≤ end))
FillEnd b v start end none =
    (end < b.bits) × ((j : ℕ) × (start ≤ j) × (j < end) × (int_shift_limit ≤ bit_off j))

FillEnd-map :
    (b : Bitmap) (v : Bool) (start end : ℕ) (o : Option Bitmap)
    → end < b.bits
    → LoopEnd b v start end o
    → FillEnd b v start end (Option.map (λ b'. (true, b')) o)
FillEnd-map b v start end (some b') less w = (less, w)
FillEnd-map b v start end none less h = (less, h)

-- `bmap_fill` from `start` to `end`, which is not before it, writes the bits from `start` to before `end`
-- and no other, and returns true, if `end` is below the number of bits; it changes nothing and returns
-- false if one of the two is not; and it has no meaning only if `end` is below the number of bits and it
-- comes to a bit for which the shift of an `int` is not defined.
pub bmap_fill-FillEnd :
    (b : Bitmap) (v : Bool) (start end : ℕ)
    → start ≤ end
    → FillEnd b v start end (bmap_fill b v start end)
unfolding bmap_fill
bmap_fill-FillEnd b v start end order = elim (lt-or-ge end b.bits) [
  | inl less ↦
      let test : (leb b.bits start || leb b.bits end) ≡ false = ground arith in
      rw test (
        FillEnd-map b v start end (fill_loop (end - start) b v start) less (
          subst (λ (t : ℕ). LoopEnd b v start t (fill_loop (end - start) b v start)) (omega arith)
            (fill_loop-LoopEnd (end - start) b v start (omega arith))))
  | inr behind ↦
      let test : (leb b.bits start || leb b.bits end) ≡ true = ground arith in
      rw test (refl, inr behind)
]
