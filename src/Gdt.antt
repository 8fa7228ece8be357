-- ===== src/Gdt.antt =====
-- src/dyngdt.c: descriptors in the table of a processor. A descriptor is the number with its fields at their bits.
use tachyon.Prelude.{
  ℕ, ◌+◌, ◌*◌, ◌/◌, ◌%◌, ◌<◌, ◌≡◌, refl, ap, ap₂, ◌∙◌, ◌≢◌, Bool, true, false, not, ◌&&◌, ◌||◌,
  Option, none, some, arith, ltb, ◌==◌, if◌then◌else◌, ge→ltb, eq→eqb, ne→eqb,
}

-- `selector_t` by its fields, each of the width that the bit field has
pub record Selector : Type 0 where
  pub limit_low : ℕ
  pub base_low : ℕ
  pub base_m_low : ℕ
  pub type : ℕ
  pub seg_sel : ℕ
  pub dpl : ℕ
  pub present : ℕ
  pub limit_high : ℕ
  pub large : ℕ
  pub opsz : ℕ
  pub granularity : ℕ
  pub base_m_high : ℕ

-- `selector.bytes`
abbrev pub bytes : Selector → ℕ
bytes s =
    s.limit_low
    + 65536
      * (s.base_low
          + 65536
            * (s.base_m_low
                + 256
                  * (s.type
                      + 16
                        * (s.seg_sel
                            + 2
                              * (s.dpl
                                  + 4
                                    * (s.present
                                        + 2
                                          * (s.limit_high
                                              + 16
                                                * (0
                                                    + 2
                                                      * (s.large
                                                          + 2
                                                            * (s.opsz
                                                            + 2
                                                            * (s.granularity
                                                            + 2 * s.base_m_high)))))))))))

abbrev pub bit : Bool → ℕ
bit true = 1
bit false = 0

abbrev pub selector : ℕ → ℕ → ℕ → ℕ → Bool → Bool → Selector
selector base limit type dpl large sys = record {
  limit_low = limit % 65536;
  base_low = base % 65536;
  base_m_low = base / 65536 % 256;
  type = type % 16;
  seg_sel = bit (not sys);
  dpl = dpl;
  present = 1;
  limit_high = limit / 65536 % 16;
  large = bit large;
  opsz = bit (not large);
  granularity = bit (not sys);
  base_m_high = base / 16777216 % 256;
}

-- `type & GDT_TYPE_TSS`, of the bits 0 and 3
abbrev pub has_tss : ℕ → Bool
has_tss type = (type % 2 == 1) || (type / 8 % 2 == 1)

abbrev pub written : (ℕ → ℕ) → ℕ → ℕ → ℕ → ℕ
written raw i v j = if j == i then v else raw j

-- The table after the call; `none` is a fatal error: a level above 3, or the lock not held.
pub dyngdt_set : Bool → (ℕ → ℕ) → ℕ → ℕ → ℕ → ℕ → ℕ → Bool → Bool → Option (ℕ → ℕ)
dyngdt_set locked raw sel base limit type dpl large sys =
    let low = written raw (sel / 8) (bytes (selector base limit type dpl large sys)) in
    if ltb 3 dpl
    then none
    else if not locked
    then none
    else some (
        if sys && has_tss type
        then written low (sel / 8 + 1) (base / 4294967296 % 4294967296)
        else low)

-- How the processor reads the base of a system descriptor, and a limit
abbrev pub base_of : ℕ → ℕ → ℕ
base_of low high =
    low / 65536 % 65536
    + 65536 * (low / 4294967296 % 256)
    + 16777216 * (low / 72057594037927936)
    + 4294967296 * (high % 4294967296)

abbrev pub limit_of : ℕ → ℕ
limit_of low = low % 65536 + 65536 * (low / 281474976710656 % 16)

bit_small : (b : Bool) → bit b < 2
bit_small true = omega arith
bit_small false = omega arith

selector-base_of :
    (base limit type dpl : ℕ) (large sys : Bool)
    → base < 18446744073709551616
    → dpl < 4
    → base_of (bytes (selector base limit type dpl large sys)) (base / 4294967296 % 4294967296)
      ≡ base
selector-base_of base limit type dpl large sys small level =
    omega (arith, bit_small large, bit_small (not large), bit_small (not sys))

selector-limit_of :
    (base limit type dpl : ℕ) (large sys : Bool)
    → dpl < 4
    → limit_of (bytes (selector base limit type dpl large sys)) ≡ limit % 1048576
selector-limit_of base limit type dpl large sys level =
    omega (arith, bit_small large, bit_small (not large), bit_small (not sys))

-- The two slots of a system descriptor in a table, and all others as before
pub record Described (raw : ℕ → ℕ) (slot base limit : ℕ) (raw' : ℕ → ℕ) : Type 0 where
  pub same_base : base_of (raw' slot) (raw' (slot + 1)) ≡ base
  pub same_limit : limit_of (raw' slot) ≡ limit % 1048576
  pub others : (j : ℕ) → j ≢ slot → j ≢ slot + 1 → raw' j ≡ raw j

-- dyngdt_set of the descriptor of a task state, with the lock held and a level up to 3, is not fatal: the processor
-- reads the base, of all 64 bits, and the lower 20 bits of the limit from the slot of the selector and
-- the one behind it, and no other slot changes.
pub dyngdt_set-Described :
    (raw : ℕ → ℕ) (sel base limit type dpl : ℕ) (large : Bool)
    → base < 18446744073709551616
    → dpl < 4
    → has_tss type ≡ true
    → (raw' : ℕ → ℕ) × (dyngdt_set true raw sel base limit type dpl large true ≡ some raw')
      × Described raw (sel / 8) base limit raw'
unfolding dyngdt_set
dyngdt_set-Described raw sel base limit type dpl large small level tss = (
  after,
  rw (ge→ltb 3 dpl (omega arith), tss) refl,
  record {
    same_base =
        ap₂ base_of at_slot behind_slot
        ∙ selector-base_of base limit type dpl large true small level;
    same_limit = ap limit_of at_slot ∙ selector-limit_of base limit type dpl large true level;
    others = λ j a b. rw (ne→eqb j (sel / 8 + 1) b, ne→eqb j (sel / 8) a) refl;
  },
)
  where
    word : ℕ
    word = bytes (selector base limit type dpl large true)

    after : ℕ → ℕ
    after = written (written raw (sel / 8) word) (sel / 8 + 1) (base / 4294967296 % 4294967296)

    at_slot : after (sel / 8) ≡ word
    at_slot =
        rw (ne→eqb (sel / 8) (sel / 8 + 1) (λ e. omega arith), eq→eqb (sel / 8) (sel / 8) refl) refl

    behind_slot : after (sel / 8 + 1) ≡ base / 4294967296 % 4294967296
    behind_slot = rw (eq→eqb (sel / 8 + 1) (sel / 8 + 1) refl) refl
