-- ===== src/Pmem/Reserve/Inside.antt =====
-- What pmem_reserve of src/pmem.c does to a range that lies inside of one region.
use tachyon.Prelude.{
  ℕ, zero, suc, ◌+◌, ◌*◌, ◌%◌, ◌≤◌, ◌<◌, ◌≡◌, refl, sym, ap, ◌∙◌, subst, inl, inr, true, false,
  some, arith, Bool-cases, lt-or-ge, le→leb, gt→leb,
}
use tachyon.Prelude.Words.{word_mod, add64}
use tachyon.Bmap.{Bitmap, bit_off, int_shift_limit, bmap_get}
use tachyon.Bmap.Bits.{Written, bmap_set-Written, bmap_set-none, LoopEnd-step}
use tachyon.Pmem.{page_size, Region, to_regbit, pmem_reg_contains}
use tachyon.Pmem.Reserve.{Walk, taken, pass_ok, moved, no_shift, no_fuel, touch, region_loop}

-- A region of whole pages with a bit for each, below the top of the addresses.
pub record IsWhole (r : Region) : Type 0 where
  pub aligned : r.start % page_size ≡ 0
  pub whole : r.length ≡ r.bmap.bits * page_size
  pub below : r.start + r.length + page_size < word_mod

-- A range of `k` pages, some of them, from the page `idx` of the region on.
pub record Range (r : Region) (idx k cur top : ℕ) : Type 0 where
  pub some_page : 0 < k
  pub at : cur ≡ r.start + idx * page_size
  pub reached : cur + k * page_size < top + page_size
  pub enough : top ≤ cur + k * page_size
  pub inside : top ≤ r.start + r.length

Range-contains :
    (r : Region) (idx k cur top : ℕ)
    → IsWhole r
    → Range r idx k cur top
    → pmem_reg_contains r cur ≡ true
Range-contains r idx k cur top sound range =
    ground
      (arith, range.at, range.some_page, range.reached, range.enough, range.inside, sound.below)

Range-bit :
    (r : Region) (idx k cur top : ℕ) → IsWhole r → Range r idx k cur top → to_regbit r cur ≡ idx
Range-bit r idx k cur top sound range =
    omega
      (arith, range.at, range.some_page, range.reached, range.inside, sound.aligned, sound.below)

Range-next :
    (r : Region) (idx k cur top : ℕ)
    → IsWhole r
    → Range r idx (suc k) cur top
    → add64 cur page_size < top
    → Range r (idx + 1) k (add64 cur page_size) top
Range-next r idx k cur top sound range more = record {
  some_page = omega (arith, range.enough, range.inside, sound.below);
  at = omega (arith, range.at, range.inside, sound.below, range.reached);
  reached = omega (arith, range.reached, range.inside, sound.below);
  enough = omega (arith, range.enough, range.inside, sound.below);
  inside = range.inside;
}

Range-inside :
    (r : Region) (idx k cur top : ℕ) → IsWhole r → Range r idx (suc k) cur top → idx ≤ r.bmap.bits
Range-inside r idx k cur top sound range =
    omega (arith, range.at, range.reached, range.inside, sound.whole)

-- The last round has one page left.
Range-one :
    (r : Region) (idx k cur top : ℕ)
    → IsWhole r
    → Range r idx (suc k) cur top
    → top ≤ add64 cur page_size
    → k ≡ 0
Range-one r idx k cur top sound range last =
    omega (arith, range.reached, range.at, range.inside, range.some_page, sound.below)

-- The bits of a range of pages are clear.
abbrev pub AllFree : Bitmap → ℕ → ℕ → Type 0
AllFree b first end = (j : ℕ) → first ≤ j → j < end → bmap_get b j ≡ false

-- Of the pass that tests: it stops at a page that is taken, or all pages are free.
abbrev pub CheckEnd : Region → ℕ → ℕ → Walk Region → Type 0
CheckEnd r first end taken = (j : ℕ) × (first ≤ j) × (j < end) × (bmap_get r.bmap j ≡ true)
CheckEnd r first end (pass_ok r') = (r' ≡ r) × AllFree r.bmap first end
CheckEnd r first end w = ⊥

CheckEnd-step :
    (r : Region) (first end : ℕ) (w : Walk Region)
    → bmap_get r.bmap first ≡ false
    → CheckEnd r (first + 1) end w
    → CheckEnd r first end w
CheckEnd-step r first end taken free (j, le, lt, t) = (j, omega arith, lt, t)
CheckEnd-step r first end (pass_ok r') free (e, rest) = (
  e,
  λ j le lt. elim (lt-or-ge first j) [
    | inl later ↦ rest j (omega arith) lt
    | inr at ↦ subst (λ (i : ℕ). bmap_get r.bmap i ≡ false) (omega arith) free
  ],
)
CheckEnd-step r first end (moved c r') free h = h
CheckEnd-step r first end no_shift free h = h
CheckEnd-step r first end no_fuel free h = h

pub check_loop-CheckEnd :
    (k fuel : ℕ) (r : Region) (idx cur top : ℕ)
    → IsWhole r
    → Range r idx k cur top
    → k ≤ fuel
    → CheckEnd r idx (idx + k) (region_loop fuel true r cur top)
unfolding region_loop touch
check_loop-CheckEnd zero fuel r idx cur top sound range enough =
    absurd (omega (arith, range.some_page))
check_loop-CheckEnd (suc k) zero r idx cur top sound range enough = absurd (omega arith)
check_loop-CheckEnd (suc k) (suc fuel) r idx cur top sound range enough =
    elim (Bool-cases (bmap_get r.bmap idx)) [
      | inl set ↦
          rw
            (
              Range-contains r idx (suc k) cur top sound range,
              Range-bit r idx (suc k) cur top sound range,
              set,
            )
            (idx, omega arith, omega arith, set)
      | inr free ↦ elim (lt-or-ge (add64 cur page_size) top) [
        | inl more ↦
            rw
              (
                Range-contains r idx (suc k) cur top sound range,
                Range-bit r idx (suc k) cur top sound range,
                free,
                gt→leb top (add64 cur page_size) more,
              )
              (CheckEnd-step r idx (idx + suc k) (region_loop fuel true r (add64 cur page_size) top)
                free
                (subst
                  (λ (n : ℕ).
                    CheckEnd r (idx + 1) n (region_loop fuel true r (add64 cur page_size) top))
                  (omega arith)
                  (check_loop-CheckEnd k fuel r (idx + 1) (add64 cur page_size) top sound
                    (Range-next r idx k cur top sound range more) (omega arith))))
        | inr last ↦
            rw
              (
                Range-contains r idx (suc k) cur top sound range,
                Range-bit r idx (suc k) cur top sound range,
                free,
                le→leb top (add64 cur page_size) last,
              )
              (
                refl,
                λ j le lt.
                    subst (λ (i : ℕ). bmap_get r.bmap i ≡ false)
                      (omega (arith, Range-one r idx k cur top sound range last)) free,
              )
      ]
    ]

-- Of the pass that sets: all pages of the range are taken, or it stops at a shift that is not defined.
abbrev pub MarkEnd : Region → ℕ → ℕ → Walk Region → Type 0
MarkEnd r first end (pass_ok r') =
    Written r.bmap true first end r'.bmap × (r'.start ≡ r.start) × (r'.length ≡ r.length)
MarkEnd r first end no_shift = (j : ℕ) × (first ≤ j) × (j < end) × (int_shift_limit ≤ bit_off j)
MarkEnd r first end w = ⊥

MarkEnd-step :
    (r : Region) (b : Bitmap) (first end : ℕ) (w : Walk Region)
    → first < end
    → Written r.bmap true first (first + 1) b
    → MarkEnd (record r { bmap = b }) (first + 1) end w
    → MarkEnd r first end w
MarkEnd-step r b first end (pass_ok r') less one (w, s, l) =
    (LoopEnd-step r.bmap b true first end (some r'.bmap) less one w, s, l)
MarkEnd-step r b first end taken less one h = h
MarkEnd-step r b first end (moved c r') less one h = h
MarkEnd-step r b first end no_shift less one (j, le, lt, o) = (j, omega arith, lt, o)
MarkEnd-step r b first end no_fuel less one h = h

pub mark_loop-MarkEnd :
    (k fuel : ℕ) (r : Region) (idx cur top : ℕ)
    → IsWhole r
    → Range r idx k cur top
    → k ≤ fuel
    → MarkEnd r idx (idx + k) (region_loop fuel false r cur top)
unfolding region_loop touch
mark_loop-MarkEnd zero fuel r idx cur top sound range enough =
    absurd (omega (arith, range.some_page))
mark_loop-MarkEnd (suc k) zero r idx cur top sound range enough = absurd (omega arith)
mark_loop-MarkEnd (suc k) (suc fuel) r idx cur top sound range enough =
    elim (lt-or-ge (bit_off idx) int_shift_limit) [
      | inr wide ↦
          rw
            (
              Range-contains r idx (suc k) cur top sound range,
              Range-bit r idx (suc k) cur top sound range,
              bmap_set-none r.bmap idx true (Range-inside r idx k cur top sound range) wide,
            )
            (idx, omega arith, omega arith, wide)
      | inl defined ↦
          let (b, e, w) =
            bmap_set-Written r.bmap idx true (Range-inside r idx k cur top sound range) defined in
          elim (lt-or-ge (add64 cur page_size) top) [
            | inl more ↦
                rw
                  (
                    Range-contains r idx (suc k) cur top sound range,
                    Range-bit r idx (suc k) cur top sound range,
                    e,
                    gt→leb top (add64 cur page_size) more,
                  )
                  (MarkEnd-step r b idx (idx + suc k)
                    (region_loop fuel false (record r { bmap = b }) (add64 cur page_size) top)
                    (omega arith) w
                    (subst
                      (λ (n : ℕ).
                        MarkEnd (record r { bmap = b }) (idx + 1) n
                          (region_loop fuel false (record r { bmap = b }) (add64 cur page_size)
                            top))
                      (omega arith)
                      (mark_loop-MarkEnd k fuel (record r { bmap = b }) (idx + 1)
                        (add64 cur page_size) top
                        (record {
                          aligned = sound.aligned;
                          whole = sound.whole ∙ ap (λ (n : ℕ). n * page_size) (sym w.same_bits);
                          below = sound.below;
                        })
                        (moved_on b (Range-next r idx k cur top sound range more)) (omega arith))))
            | inr last ↦
                rw
                  (
                    Range-contains r idx (suc k) cur top sound range,
                    Range-bit r idx (suc k) cur top sound range,
                    e,
                    le→leb top (add64 cur page_size) last,
                  )
                  (
                    subst (λ (n : ℕ). Written r.bmap true idx n b)
                        (omega (arith, Range-one r idx k cur top sound range last)) w,
                    refl,
                    refl,
                  )
          ]
    ]
  where
    moved_on :
        (b : Bitmap)
        → Range r (idx + 1) k (add64 cur page_size) top
        → Range (record r { bmap = b }) (idx + 1) k (add64 cur page_size) top
    moved_on b range = record {
      some_page = range.some_page;
      at = range.at;
      reached = range.reached;
      enough = range.enough;
      inside = range.inside;
    }
