-- ===== src/Stack/Faults.antt =====
-- How the stacks of src/stka.c grow on a page fault.
use tachyon.Prelude.{
  ℕ, zero, suc, ◌+◌, ◌-◌, ◌*◌, ◌/◌, ◌%◌, ◌≤◌, ◌<◌, ◌≡◌, refl, ap, subst, true, false, ◌||◌, arith,
  leb, ge→ltb, eq→eqb,
}
use tachyon.Prelude.Words.{word_mod, sub64, align_dn, align_up}
use tachyon.Stack.{
  stk_pagesize, Stack, Page, page_mapped, page_refused, page_fatal, grow_loop, Grown, grew,
  grow_fatal, stka_grow, stka_pgflt,
}

-- The room of a stack, from its guard to its top, with the mapped part at the top.
pub record IsStack (s : Stack) : Type 0 where
  pub above_guard : s.guard ≤ s.mapped
  pub below_top : s.mapped ≤ s.top
  pub no_wrap : s.top < word_mod
  pub whole : s.mapped % stk_pagesize ≡ 0
  pub whole_guard : s.guard % stk_pagesize ≡ 0

-- The loop stops at the first page that is not mapped.
abbrev LoopEnd : ℕ → (ℕ → Page) → ℕ → Page → Type 0
LoopEnd k maps i page_mapped = (j : ℕ) → j < k → maps (i + j * stk_pagesize) ≡ page_mapped
LoopEnd k maps i page_refused = (j : ℕ) × (j < k) × (maps (i + j * stk_pagesize) ≡ page_refused)
LoopEnd k maps i page_fatal = (j : ℕ) × (j < k) × (maps (i + j * stk_pagesize) ≡ page_fatal)

-- The first page, and one behind it.
first_page : (maps : ℕ → Page) (i : ℕ) (p : Page) → maps i ≡ p → maps (i + 0 * stk_pagesize) ≡ p
first_page maps i p h = subst (λ (a : ℕ). maps a ≡ p) {y = i + 0 * stk_pagesize} (omega arith) h

later_page :
    (maps : ℕ → Page) (i j : ℕ) (p : Page)
    → maps (i + stk_pagesize + j * stk_pagesize) ≡ p
    → maps (i + suc j * stk_pagesize) ≡ p
later_page maps i j p h =
    subst (λ (a : ℕ). maps a ≡ p) {y = i + suc j * stk_pagesize} (omega arith) h

LoopEnd-step :
    (k : ℕ) (maps : ℕ → Page) (i : ℕ) (r : Page)
    → maps i ≡ page_mapped
    → LoopEnd k maps (i + stk_pagesize) r
    → LoopEnd (suc k) maps i r
LoopEnd-step k maps i page_mapped here h = steps
  where
    steps : (j : ℕ) → j < suc k → maps (i + j * stk_pagesize) ≡ page_mapped
    steps zero less = first_page maps i page_mapped here
    steps (suc j) less = later_page maps i j page_mapped (h j (omega arith))
LoopEnd-step k maps i page_refused here (j, less, h) =
    (suc j, omega arith, later_page maps i j page_refused h)
LoopEnd-step k maps i page_fatal here (j, less, h) =
    (suc j, omega arith, later_page maps i j page_fatal h)

grow_loop-LoopEnd : (k : ℕ) (maps : ℕ → Page) (i : ℕ) → LoopEnd k maps i (grow_loop k maps i)
unfolding grow_loop
grow_loop-LoopEnd zero maps i = λ j less. absurd (omega arith)
grow_loop-LoopEnd (suc k) maps i =
    by_page (maps i) refl (grow_loop k maps (i + stk_pagesize))
      (grow_loop-LoopEnd k maps (i + stk_pagesize))
  where
    by_page :
        (p : Page)
        → maps i ≡ p
        → (rest : Page) → LoopEnd k maps (i + stk_pagesize) rest
        → LoopEnd
            (suc k)
            maps
            i
            (elim p [ page_mapped ↦ rest | page_refused ↦ page_refused | page_fatal ↦ page_fatal ])
    by_page page_mapped e rest h = LoopEnd-step k maps i rest e h
    by_page page_refused e rest h = (0, omega arith, first_page maps i page_refused e)
    by_page page_fatal e rest h = (0, omega arith, first_page maps i page_fatal e)

-- How growing by an amount ends, by the end of its loop
abbrev after_loop : Stack → ℕ → Page → Grown
after_loop s amount page_mapped = grew true (record s { mapped = s.mapped - amount })
after_loop s amount page_refused = grew false s
after_loop s amount page_fatal = grow_fatal

-- The result of growing by whole pages within the room.
stka_grow_inside :
    (maps : ℕ → Page) (s : Stack) (amount : ℕ)
    → IsStack s
    → amount % stk_pagesize ≡ 0
    → s.guard + amount ≤ s.mapped
    → stka_grow maps s amount
      ≡ after_loop s amount (grow_loop (amount / stk_pagesize) maps (s.mapped - amount))
unfolding stka_grow
stka_grow_inside maps s amount ok whole room =
    let low : sub64 s.mapped amount ≡ s.mapped - amount = omega (arith, ok.below_top, ok.no_wrap) in
    let pages : (s.mapped - (s.mapped - amount)) / stk_pagesize ≡ amount / stk_pagesize =
      ap (λ (n : ℕ). n / stk_pagesize) (omega arith) in
    rw
      (
        eq→eqb (amount % stk_pagesize) 0 whole,
        low,
        ge→ltb (s.mapped - amount) s.guard (omega arith),
        pages,
      )
      (by_page low (grow_loop (amount / stk_pagesize) maps (s.mapped - amount)))
  where
    by_page :
        sub64 s.mapped amount ≡ s.mapped - amount
        → (p : Page)
        → elim p [
          | page_mapped ↦ grew true (record s { mapped = sub64 s.mapped amount })
          | page_refused ↦ grew false s
          | page_fatal ↦ grow_fatal
        ]
          ≡ after_loop s amount p
    by_page low page_mapped = ap (λ (n : ℕ). grew true (record s { mapped = n })) low
    by_page low page_refused = refl
    by_page low page_fatal = refl

-- Of a fault: the pages down to its own are mapped, no more, and the room is as it was; or one of them
-- cannot be mapped, and nothing changed, or ends with the fatal error.
abbrev pub FaultEnd : (ℕ → Page) → Stack → ℕ → Grown → Type 0
FaultEnd maps s fault (grew true s') =
    IsStack s'
    × (s'.top ≡ s.top)
    × (s'.guard ≡ s.guard)
    × (s'.mapped ≤ fault)
    × (fault < s'.mapped + stk_pagesize)
    × ((j : ℕ)
        → s'.mapped + j * stk_pagesize < s.mapped
        → maps (s'.mapped + j * stk_pagesize) ≡ page_mapped)
FaultEnd maps s fault (grew false s') =
    (s' ≡ s) × ((a : ℕ) × (fault < a + stk_pagesize) × (a < s.mapped) × (maps a ≡ page_refused))
FaultEnd maps s fault grow_fatal =
    (a : ℕ) × (fault < a + stk_pagesize) × (a < s.mapped) × (maps a ≡ page_fatal)

loop-FaultEnd :
    (maps : ℕ → Page) (s : Stack) (fault amount : ℕ) (r : Page)
    → IsStack s
    → amount % stk_pagesize ≡ 0
    → s.guard + amount ≤ s.mapped
    → s.mapped ≤ fault + amount
    → fault + amount < s.mapped + stk_pagesize
    → LoopEnd (amount / stk_pagesize) maps (s.mapped - amount) r
    → FaultEnd maps s fault (after_loop s amount r)
loop-FaultEnd maps s fault amount page_mapped ok whole room low high h = (
  record {
    above_guard = omega arith;
    below_top = omega (arith, ok.below_top);
    no_wrap = ok.no_wrap;
    whole = omega (arith, ok.whole);
    whole_guard = ok.whole_guard;
  },
  refl,
  refl,
  omega arith,
  omega arith,
  λ j less. h j (omega arith),
)
loop-FaultEnd maps s fault amount page_refused ok whole room low high (j, less, h) =
    (refl, (s.mapped - amount + j * stk_pagesize, omega arith, omega arith, h))
loop-FaultEnd maps s fault amount page_fatal ok whole room low high (j, less, h) =
    (s.mapped - amount + j * stk_pagesize, omega arith, omega arith, h)

-- stka_pgflt at a fault above the guard of a stack and below its mapped part: it returns true and maps the pages
-- from that of the fault up, all of which could be mapped, and the stack keeps its room; or one of those
-- pages cannot be mapped, and it returns false and leaves the stack as it was; or mapping one of them
-- ends with the fatal error.
pub stka_pgflt-FaultEnd :
    (maps : ℕ → Page) (s : Stack) (fault : ℕ)
    → IsStack s
    → s.guard < fault
    → fault < s.mapped
    → FaultEnd maps s fault (stka_pgflt maps s fault)
unfolding stka_pgflt
stka_pgflt-FaultEnd maps s fault ok above below =
    let test : (leb fault s.guard || leb s.top fault) ≡ false = ground (arith, ok.below_top) in
    let amount : ℕ = align_up (sub64 s.mapped fault) stk_pagesize in
    let whole : amount % stk_pagesize ≡ 0 = omega (arith, ok.below_top, ok.no_wrap) in
    let room : s.guard + amount ≤ s.mapped =
      omega (arith, ok.whole, ok.whole_guard, ok.below_top, ok.no_wrap, ok.above_guard) in
    rw (test, stka_grow_inside maps s amount ok whole room)
      (loop-FaultEnd maps s fault amount
        (grow_loop (amount / stk_pagesize) maps (s.mapped - amount)) ok whole room
        (omega (arith, ok.below_top, ok.no_wrap, ok.whole, ok.above_guard))
        (omega (arith, ok.below_top, ok.no_wrap, ok.whole, ok.above_guard))
        (grow_loop-LoopEnd (amount / stk_pagesize) maps (s.mapped - amount)))

-- stka_pgflt at a fault in the part of a stack that is mapped: the amount wraps, and it returns true, maps nothing and
-- moves the end of the mapped part up to the page of the fault, so that the pages below are forgotten.
pub stka_pgflt-align_dn :
    (maps : ℕ → Page) (s : Stack) (fault : ℕ)
    → IsStack s
    → s.mapped ≤ fault
    → s.guard < fault
    → fault < s.top
    → stka_pgflt maps s fault ≡ grew true (record s { mapped = align_dn fault stk_pagesize })
unfolding stka_pgflt stka_grow grow_loop
stka_pgflt-align_dn maps s fault ok mapped above below =
    let test : (leb fault s.guard || leb s.top fault) ≡ false = ground arith in
    let amount : ℕ = align_up (sub64 s.mapped fault) stk_pagesize in
    let whole : amount % stk_pagesize ≡ 0 = omega arith in
    let low : sub64 s.mapped amount ≡ align_dn fault stk_pagesize =
      omega (arith, ok.whole, ok.no_wrap, ok.below_top) in
    let pages : (s.mapped - align_dn fault stk_pagesize) / stk_pagesize ≡ 0 =
      omega (arith, ok.whole) in
    rw
      (
        test,
        stka_grow,
        eq→eqb (amount % stk_pagesize) 0 whole,
        low,
        ge→ltb (align_dn fault stk_pagesize) s.guard (omega (arith, ok.whole, ok.above_guard)),
        pages,
      )
      (ap (λ (n : ℕ). grew true (record s { mapped = n })) low)
