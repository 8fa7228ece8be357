-- ===== src/Stack.antt =====
-- src/stka.c: stacks are laid out from the top of a range down, each with pages below it left unmapped. How
-- pmem_alloc, vmem_map and the global mapping end for a page is the argument `maps`.
mod Tests
pub mod Faults
pub mod Layout
use tachyon.Prelude.{
  ℕ, zero, suc, ◌+◌, ◌-◌, ◌*◌, ◌/◌, ◌%◌, Bool, true, false, not, ◌||◌, List, [], ◌∷◌, ◌++◌, ltb,
  leb, ◌==◌, if◌then◌else◌,
}
use tachyon.Prelude.Words.{sub64, align_up}

-- STK_PAGESIZE
abbrev pub stk_pagesize : ℕ
stk_pagesize = 4096

abbrev pub stk_initsize : ℕ
stk_initsize = stk_pagesize * 2

abbrev pub stk_fixedsize : ℕ
stk_fixedsize = stk_pagesize * 4

abbrev pub stk_guardsize : ℕ
stk_guardsize = stk_pagesize * 256

-- `stack_t`
pub record Stack : Type 0 where
  pub top : ℕ
  pub guard : ℕ
  pub mapped : ℕ

-- `stack_allocator_t`, with the fields of its description that count here, and whether it is locked
pub record Allocator : Type 0 where
  pub desc_top : ℕ
  pub desc_bottom : ℕ
  pub fixed : Bool
  pub next_stk : ℕ
  pub stacks : List Stack
  pub locked : Bool

pub stka_new : ℕ → ℕ → Bool → Allocator
stka_new top bottom fixed = record {
  desc_top = top;
  desc_bottom = bottom;
  fixed = fixed;
  next_stk = top;
  stacks = [];
  locked = false;
}

-- Of a page: it is mapped, vmem_map returns false, or a call ends with the fatal error, as pmem_alloc
-- does when memory is out.
pub data Page : Type 0 where
  page_mapped page_refused page_fatal : Page

-- `for(i = mapped - amount; i < mapped; i += STK_PAGESIZE)` with the pages left, up to the first page
-- that is not mapped
pub grow_loop : ℕ → (ℕ → Page) → ℕ → Page
grow_loop zero maps i = page_mapped
grow_loop (suc k) maps i =
    let rest = grow_loop k maps (i + stk_pagesize) in
    elim (maps i) [ page_mapped ↦ rest | page_refused ↦ page_refused | page_fatal ↦ page_fatal ]

-- What is returned with the stack, or the fatal error
pub data Grown : Type 0 where
  grew : Bool → Stack → Grown
  grow_fatal : Grown

-- An `amount` above `mapped` wraps.
pub stka_grow : (ℕ → Page) → Stack → ℕ → Grown
stka_grow maps stack amount =
    let low = sub64 stack.mapped amount in
    if not (amount % stk_pagesize == 0)
    then grew false stack
    else if ltb low stack.guard
    then grew false stack
    else elim (grow_loop ((stack.mapped - low) / stk_pagesize) maps low) [
      | page_mapped ↦ grew true (record stack { mapped = low })
      | page_refused ↦ grew false stack
      | page_fatal ↦ grow_fatal
    ]

-- The stack at the next place, before its first pages
abbrev pub fresh_stack : Allocator → Stack
fresh_stack a = record {
  top = a.next_stk;
  guard = sub64 a.next_stk (if a.fixed then stk_fixedsize else stk_guardsize);
  mapped = a.next_stk;
}

-- How a call ends: it returns NULL while the lock is held, it writes at NULL, it ends with the fatal
-- error, or it returns a stack.
pub data Allocated : Type 0 where
  no_room : Allocator → Allocated
  write_null alloc_fatal : Allocated
  allocated : Stack → Allocator → Allocated

-- `memory` is what kheap_alloc returns for the `stack_t`; it is written to without a test. Whether the
-- first pages could be mapped is not asked.
pub stka_alloc : ℕ → (ℕ → Page) → Allocator → Allocated
stka_alloc memory maps a =
    if leb a.next_stk a.desc_bottom || ltb (sub64 a.next_stk stk_initsize) a.desc_bottom
    then no_room (record a { locked = true })
    else if memory == 0
    then write_null
    else elim (stka_grow maps (fresh_stack a) (if a.fixed then stk_fixedsize else stk_initsize)) [
      | grow_fatal ↦ alloc_fatal
      | grew done stack ↦ allocated stack (record a {
        next_stk = sub64 stack.guard stk_pagesize;
        stacks = a.stacks ++ (stack ∷ []);
        locked = false;
      })
    ]

-- The pages from `mapped` up to `top`, which stka_free unmaps
pub free_loop : ℕ → ℕ → ℕ → List ℕ
free_loop zero m top = []
free_loop (suc k) m top =
    let rest = free_loop k (m + stk_pagesize) top in if ltb m top then m ∷ rest else []

pub stka_pgflt : (ℕ → Page) → Stack → ℕ → Grown
stka_pgflt maps stack fault =
    if leb fault stack.guard || leb stack.top fault
    then grew false stack
    else stka_grow maps stack (align_up (sub64 stack.mapped fault) stk_pagesize)
