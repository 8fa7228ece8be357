-- ===== src/Stack/Layout.antt =====
-- Where src/stka.c lays its stacks.
use tachyon.Prelude.{ℕ, ◌+◌, ◌≤◌, ◌<◌, ◌≡◌, true, false, List, [], ◌∷◌, ◌++◌}
use tachyon.Stack.{
  stk_pagesize, stk_initsize, Stack, Allocator, Page, page_mapped, page_refused, page_fatal, Grown,
  grew, grow_fatal, Allocated, no_room, write_null, alloc_fatal, allocated,
}

-- The guard of every stack is a page or more above an address.
abbrev pub AllAbove : ℕ → List Stack → Type 0
AllAbove n [] = 0 ≤ 0
AllAbove n (s ∷ rest) = (n + stk_pagesize ≤ s.guard) × AllAbove n rest

-- Growing never moves the guard or the top; it is fatal only at a page.
abbrev KeepsRoom : (ℕ → Page) → Stack → Grown → Type 0
KeepsRoom maps s (grew done s') = (s'.guard ≡ s.guard) × (s'.top ≡ s.top)
KeepsRoom maps s grow_fatal = (page : ℕ) × (maps page ≡ page_fatal)

abbrev FatalAt : (ℕ → Page) → Page → Type 0
FatalAt maps page_mapped = Unit
FatalAt maps page_refused = Unit
FatalAt maps page_fatal = (page : ℕ) × (maps page ≡ page_fatal)

-- Of a new stack: its room lies a page or more below the stacks there are, and the next one goes a page or more
-- below it; without one, there is no room in the range, and the allocator stays locked, or there is no
-- memory for it, and NULL is written to, or a page ends with the fatal error.
abbrev pub LaidEnd : ℕ → (ℕ → Page) → Allocator → Allocated → Type 0
LaidEnd memory maps a (allocated s a') =
    (s.top ≡ a.next_stk)
    × (s.guard < s.top)
    × AllAbove s.top a.stacks
    × AllAbove a'.next_stk a'.stacks
    × (a'.stacks ≡ a.stacks ++ (s ∷ []))
    × (a'.locked ≡ false)
LaidEnd memory maps a (no_room a') =
    (a.next_stk < a.desc_bottom + stk_initsize) × (a' ≡ record a { locked = true })
LaidEnd memory maps a write_null = memory ≡ 0
LaidEnd memory maps a alloc_fatal = (page : ℕ) × (maps page ≡ page_fatal)
