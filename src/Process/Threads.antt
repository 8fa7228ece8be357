-- ===== src/Process/Threads.antt =====
-- What `thr_create` of src/thread.c leaves.
use tachyon.Prelude.{ℕ, ◌+◌, ◌%◌, ◌<◌, ◌≡◌, ◌⊎◌, Bool, [], ◌∷◌, ◌++◌, if◌then◌else◌}
use tachyon.Prelude.Words.{add64}
use tachyon.Sched.{runnable}
use tachyon.Stack.{stk_initsize, Stack, Allocator, Page, page_fatal}
use tachyon.Stack.Layout.{AllAbove}
use tachyon.Process.{Process, ring_userspace, Created, null, null_access, create_fatal, created}

-- The allocator that the stack of a thread comes from
abbrev pub allocator_of : Bool → Allocator → Process → Allocator
allocator_of user kstack p = if user then p.stka else kstack

abbrev pub ring_of : Bool → ℕ
ring_of user = if user then ring_userspace else 0

-- A runnable thread with the next number of its process, in the ring of its isolation, on a stack of
-- its own; or NULL, or a fault.
abbrev pub CreatedEnd : ℕ → ℕ → ℕ → (ℕ → Page) → Allocator → Process → Bool → Created → Type 0
CreatedEnd thr context memory maps kstack p user null = thr ≡ 0
CreatedEnd thr context memory maps kstack p user null_access =
    let a = allocator_of user kstack p in
    (context ≡ 0) ⊎ (memory ≡ 0) ⊎ (a.next_stk < a.desc_bottom + stk_initsize)
CreatedEnd thr context memory maps kstack p user create_fatal =
    (page : ℕ) × (maps page ≡ page_fatal)
CreatedEnd thr context memory maps kstack p user (created t p' kstack') =
    let a = allocator_of user kstack p in
    let a' = allocator_of user kstack' p' in
    (t.state ≡ runnable)
    × (t.id ≡ p.ctid)
    × (p'.ctid ≡ add64 p.ctid 1)
    × (t.cs % 4 ≡ ring_of user)
    × (t.ss % 4 ≡ ring_of user)
    × (t.stack.guard < t.stack.top)
    × (t.rsp + 16 ≡ t.stack.top)
    × AllAbove t.stack.top a.stacks
    × AllAbove a'.next_stk a'.stacks
    × (a'.stacks ≡ a.stacks ++ (t.stack ∷ []))
