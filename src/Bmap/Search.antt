-- ===== src/Bmap/Search.antt =====
-- What the forward search of src/bmap.c finds, for the multiples 0 and 1.
use tachyon.Prelude.{
  ℕ, zero, suc, ◌+◌, ◌-◌, ◌%◌, ◌≤◌, ◌<◌, ◌≡◌, refl, subst, ◌⊎◌, inl, inr, Bool, true, false, Option,
  none, some, arith, ltb, ◌==◌, if◌then◌else◌, lt→ltb, ge→ltb, eqb→eq, eqb→ne, eq→eqb, ne→eqb,
  Bool-cases, lt-or-ge,
}
use tachyon.Prelude.Words.{word_mod, sub64}
use tachyon.Bmap.{
  Bitmap, same, bmap_get, next_mul, search_loop, SearchResult, found, absent, fatal, conclude,
  search_from, hinted_behind, multiple, from_hint, bmap_search,
}

-- `cnt` bits from `i` on have the value.
abbrev pub IsRun : Bitmap → Bool → ℕ → ℕ → Type 0
IsRun b v cnt i = (j : ℕ) → i ≤ j → j < i + cnt → same v (bmap_get b j) ≡ true

-- No run that fits starts at `lo` or behind it, but before `hi`.
abbrev pub NoRun : Bitmap → Bool → ℕ → ℕ → ℕ → Type 0
NoRun b v cnt lo hi = (i : ℕ) → lo ≤ i → i < hi → i + cnt ≤ b.bits → ¬ IsRun b v cnt i

-- Of the loop: it stands on the last bit of a run, or behind the bits, `con` of which fit at the end.
abbrev LoopEnd : Bitmap → Bool → ℕ → ℕ → Option (ℕ × ℕ) → Type 0
LoopEnd b v cnt lo none = ⊥
LoopEnd b v cnt lo (some (start, con)) =
    ((con ≡ cnt)
      × ((i : ℕ) × (start + 1 ≡ i + cnt)
          × (lo ≤ i)
          × (i + cnt ≤ b.bits)
          × IsRun b v cnt i
          × NoRun b v cnt lo i))
    ⊎ ((con < cnt)
        × (con ≤ start)
        × (b.bits ≤ start)
        × ((0 < con) → start ≡ b.bits)
        × (start ≤ b.bits + lo)
        × NoRun b v cnt lo b.bits)

-- `con` bits before `start` have the value, and no run stands before them.
record Inv (b : Bitmap) (v : Bool) (cnt lo r con : ℕ) : Type 0 where
  above : lo ≤ r
  near : r + con ≤ b.bits + lo
  few : con < cnt
  partial : IsRun b v con r
  before : NoRun b v cnt lo r
  inside : (0 < con) → r + con ≤ b.bits

-- The next multiple of 1 is the number itself.
next_mul_one : (x : ℕ) → x < word_mod → x + 0 ≡ next_mul x 1
next_mul_one x small = omega arith

module _ (b : Bitmap) (v : Bool) (cnt lo : ℕ) (small : b.bits + cnt + 1 < word_mod) where
  more :
      (r con : ℕ)
      → Inv b v cnt lo r con
      → same v (bmap_get b (r + con)) ≡ true
      → IsRun b v (con + 1) r
  more r con inv hit j l h = elim (lt-or-ge j (r + con)) [
    | inl old ↦ inv.partial j l old
    | inr new ↦ subst (λ (k : ℕ). same v (bmap_get b k) ≡ true) (omega arith) hit
  ]

  missed :
      (r con : ℕ)
      → Inv b v cnt lo r con
      → same v (bmap_get b (r + con)) ≡ false
      → NoRun b v cnt lo (r + con + 1)
  missed r con inv miss i l h fits run = elim (lt-or-ge i r) [
    | inl old ↦ inv.before i l old fits run
    | inr new ↦ cc (run (r + con) (omega arith) (omega (arith, inv.few)), miss)
  ]

  rest : (r con : ℕ) → Inv b v cnt lo r con → b.bits ≤ r + con → NoRun b v cnt lo b.bits
  rest r con inv out i l h fits run = elim (lt-or-ge i r) [
    | inl old ↦ inv.before i l old fits run
    | inr new ↦ absurd (omega (arith, inv.few))
  ]

  search_loop-LoopEnd :
      (fuel r con : ℕ)
      → Inv b v cnt lo r con
      → b.bits < r + con + fuel
      → 0 < fuel
      → LoopEnd b v cnt lo (search_loop fuel b v cnt 1 (r + con) con)
  unfolding search_loop
  search_loop-LoopEnd zero r con inv enough some_fuel = absurd (omega arith)
  search_loop-LoopEnd (suc fuel) r con inv enough some_fuel = elim (lt-or-ge (r + con) b.bits) [
    | inl less ↦ elim (Bool-cases (same v (bmap_get b (r + con)))) [
      | inl hit ↦ elim (Bool-cases (con + 1 == cnt)) [
        | inl full ↦
            rw (lt→ltb (r + con) b.bits less, lt→ltb con cnt inv.few, hit, full)
              (inl (
                eqb→eq (con + 1) cnt full,
                (
                  r,
                  omega (arith, eqb→eq (con + 1) cnt full),
                  inv.above,
                  omega (arith, eqb→eq (con + 1) cnt full),
                  subst (λ (n : ℕ). IsRun b v n r) (eqb→eq (con + 1) cnt full) (more r con inv hit),
                  inv.before,
                ),
              ))
        | inr few ↦
            rw (lt→ltb (r + con) b.bits less, lt→ltb con cnt inv.few, hit, few)
              (subst (λ (n : ℕ). LoopEnd b v cnt lo (search_loop fuel b v cnt 1 n (con + 1)))
                (omega arith)
                (search_loop-LoopEnd fuel r (con + 1)
                  (record {
                    above = inv.above;
                    near = omega arith;
                    few = omega (arith, inv.few, eqb→ne (con + 1) cnt few);
                    partial = more r con inv hit;
                    before = inv.before;
                    inside = λ p. omega arith;
                  })
                  (omega arith) (omega arith)))
      ]
      | inr miss ↦
          rw (lt→ltb (r + con) b.bits less, lt→ltb con cnt inv.few, miss)
            (subst (λ (n : ℕ). LoopEnd b v cnt lo (search_loop fuel b v cnt 1 n 0))
              (next_mul_one (r + con + 1) (omega arith))
              (search_loop-LoopEnd fuel (r + con + 1) 0
                (record {
                  above = omega (arith, inv.above);
                  near = omega arith;
                  few = omega (arith, inv.few);
                  partial = λ j l h. absurd (omega arith);
                  before = missed r con inv miss;
                  inside = λ p. absurd (omega arith);
                })
                (omega arith) (omega arith)))
    ]
    | inr out ↦ rw (ge→ltb (r + con) b.bits out) (
        inr (
          inv.few,
          omega arith,
          out,
          λ p. omega (arith, inv.inside p),
          inv.near,
          rest r con inv out,
        ))
  ]

-- Of a search: the index of a run that fits, the first from `lo` on; or the index of bits at the end,
-- which are fewer than asked for; or that no run of bits fits, from `lo` on; it is not fatal.
abbrev pub SearchEnd : Bitmap → Bool → ℕ → ℕ → SearchResult → Type 0
SearchEnd b v cnt lo (found i) =
    ((lo ≤ i) × (i + cnt ≤ b.bits) × IsRun b v cnt i × NoRun b v cnt lo i)
    ⊎ ((i < b.bits) × (b.bits < i + cnt) × NoRun b v cnt lo b.bits)
SearchEnd b v cnt lo absent = NoRun b v cnt lo b.bits
SearchEnd b v cnt lo fatal = ⊥

-- The check of the multiple 1 never fails.
conclude_one :
    (b : Bitmap) (start con i : ℕ)
    → sub64 start (sub64 con 1) ≡ i
    → conclude b 1 (start, con) ≡ (if ltb i b.bits then found i else absent)
conclude_one b start con i e = rw (e, eq→eqb (i % 1) 0 (omega arith)) refl

module _ (b : Bitmap) (v : Bool) (cnt lo : ℕ) (small : b.bits + cnt + lo + 1 < word_mod) where
  conclude-SearchEnd :
      (start con : ℕ)
      → LoopEnd b v cnt lo (some (start, con))
      → 0 < cnt
      → SearchEnd b v cnt lo (conclude b 1 (start, con))
  conclude-SearchEnd start con (inl (full, (i, e, l, fits, run, first))) some_cnt =
      rw (conclude_one b start con i (omega arith), lt→ltb i b.bits (omega arith))
        (inl (l, fits, run, first))
  conclude-SearchEnd start con (inr (few, le, out, at, near, no_run)) some_cnt =
      elim (lt-or-ge con 2) [
        | inl short ↦
            rw
              (
                conclude_one b start con (start + 1 - con) (omega arith),
                ge→ltb (start + 1 - con) b.bits (elim (lt-or-ge 0 con) [
                  | inl one ↦ omega (arith, at one)
                  | inr none_yet ↦ omega arith
                ]),
              )
              no_run
        | inr long ↦
            rw
              (
                conclude_one b start con (start + 1 - con) (omega arith),
                lt→ltb (start + 1 - con) b.bits (omega (arith, at (omega arith))),
              )
              (inr (omega (arith, at (omega arith)), omega (arith, at (omega arith)), no_run))
      ]

  after_loop :
      (o : Option (ℕ × ℕ))
      → LoopEnd b v cnt lo o
      → 0 < cnt
      → SearchEnd b v cnt lo (elim o [ none ↦ fatal | some r ↦ conclude b 1 r ])
  after_loop none h some_cnt = h
  after_loop (some (start, con)) h some_cnt = conclude-SearchEnd start con h some_cnt

  search_from-SearchEnd : 0 < cnt → SearchEnd b v cnt lo (search_from b v cnt 1 lo)
  unfolding search_from
  search_from-SearchEnd some_cnt =
      after_loop (search_loop (suc b.bits) b v cnt 1 lo 0)
        (subst (λ (n : ℕ). LoopEnd b v cnt lo (search_loop (suc b.bits) b v cnt 1 n 0))
          (omega arith)
          (search_loop-LoopEnd b v cnt lo (omega arith) (suc b.bits) lo 0
            (record {
              above = omega arith;
              near = omega arith;
              few = some_cnt;
              partial = λ j l h. absurd (omega arith);
              before = λ i l h. absurd (omega arith);
              inside = λ p. absurd (omega arith);
            })
            (omega arith) (omega arith)))
        some_cnt

-- Of the result: a run of the bits asked for, or fewer at the end, or that there is no run at all.
abbrev pub Answer : Bitmap → Bool → ℕ → SearchResult → Type 0
Answer b v cnt (found i) =
    ((i + cnt ≤ b.bits) × IsRun b v cnt i) ⊎ ((i < b.bits) × (b.bits < i + cnt))
Answer b v cnt absent = NoRun b v cnt 0 b.bits
Answer b v cnt fatal = ⊥

SearchEnd-Answer :
    (b : Bitmap) (v : Bool) (cnt : ℕ) (r : SearchResult) → SearchEnd b v cnt 0 r → Answer b v cnt r
SearchEnd-Answer b v cnt (found i) (inl (l, fits, run, first)) = inl (fits, run)
SearchEnd-Answer b v cnt (found i) (inr (inside, over, none_fits)) = inr (inside, over)
SearchEnd-Answer b v cnt absent h = h
SearchEnd-Answer b v cnt fatal h = h

-- The second search, from the start, counts only where the first one found nothing.
second :
    (b : Bitmap) (v : Bool) (cnt lo : ℕ) (r again : SearchResult)
    → SearchEnd b v cnt lo r
    → Answer b v cnt again
    → Answer b v cnt (elim r [ absent ↦ again | found i ↦ found i | fatal ↦ fatal ])
second b v cnt lo (found i) again (inl (l, fits, run, first)) h = inl (fits, run)
second b v cnt lo (found i) again (inr (inside, over, none_fits)) h = inr (inside, over)
second b v cnt lo absent again r h = h
second b v cnt lo fatal again r h = r

hinted_behind-Answer :
    (b : Bitmap) (v : Bool) (cnt : ℕ) (r : SearchResult)
    → Answer b v cnt r
    → Answer b v cnt ((hinted_behind b cnt r).0)
hinted_behind-Answer b v cnt (found i) h = h
hinted_behind-Answer b v cnt absent h = h
hinted_behind-Answer b v cnt fatal h = h

-- A forward search for `cnt` bits of a value, with the multiple 0 or 1 and with the hint or without, comes
-- to an end and is not fatal, if the number of bits, `cnt` and the hint are small. If it finds an index,
-- `cnt` bits from there on fit and have the value, or the index is so near the end that they do not
-- fit; if it fails, no run of `cnt` bits of the value exists.
pub bmap_search-Answer :
    (b : Bitmap) (v : Bool) (cnt mul : ℕ) (hinted : Bool)
    → b.bits + cnt + b.hint + 1 < word_mod
    → 0 < cnt
    → mul ≤ 1
    → Answer b v cnt ((bmap_search b v cnt mul hinted).0)
unfolding bmap_search
bmap_search-Answer b v cnt mul hinted small some_cnt one =
    let m : multiple mul ≡ 1 = ground arith in
    rw (ne→eqb cnt 0 (omega arith), m)
      (hinted_behind-Answer b v cnt
        (if hinted then from_hint b v cnt 1 else search_from b v cnt 1 (next_mul 0 1))
        (either hinted))
  where
    from_start : Answer b v cnt (search_from b v cnt 1 (next_mul 0 1))
    from_start =
        SearchEnd-Answer b v cnt (search_from b v cnt 1 0)
          (search_from-SearchEnd b v cnt 0 (omega arith) some_cnt)

    either :
        (h : Bool)
        → Answer b v cnt (if h then from_hint b v cnt 1 else search_from b v cnt 1 (next_mul 0 1))
    either true =
        second b v cnt b.hint (search_from b v cnt 1 (next_mul b.hint 1))
          (search_from b v cnt 1 (next_mul 0 1))
          (subst (λ (n : ℕ). SearchEnd b v cnt b.hint (search_from b v cnt 1 n)) (omega arith)
            (search_from-SearchEnd b v cnt b.hint (omega arith) some_cnt))
          from_start
    either false = from_start

-- A search changes nothing but the hint.
pub record SameBits (b b' : Bitmap) : Type 0 where
  pub get : (i : ℕ) → bmap_get b' i ≡ bmap_get b i
  pub length : b'.bits ≡ b.bits

hinted_behind-SameBits :
    (b : Bitmap) (cnt : ℕ) (r : SearchResult) → SameBits b ((hinted_behind b cnt r).1)
unfolding bmap_get
hinted_behind-SameBits b cnt (found i) = record { get = λ i. refl; length = refl }
hinted_behind-SameBits b cnt absent = record { get = λ i. refl; length = refl }
hinted_behind-SameBits b cnt fatal = record { get = λ i. refl; length = refl }

pub bmap_search-SameBits :
    (b : Bitmap) (v : Bool) (cnt mul : ℕ) (hinted : Bool)
    → SameBits b ((bmap_search b v cnt mul hinted).1)
unfolding bmap_search
bmap_search-SameBits b v cnt mul hinted = elim (Bool-cases (cnt == 0)) [
  | inl nothing ↦ rw nothing (record { get = λ i. refl; length = refl })
  | inr some_cnt ↦ rw some_cnt (
      hinted_behind-SameBits b cnt (
        if hinted
        then from_hint b v cnt (multiple mul)
        else search_from b v cnt (multiple mul) (next_mul 0 (multiple mul))))
]
