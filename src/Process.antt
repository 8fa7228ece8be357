-- ===== src/Process.antt =====
-- src/process.c and the creation of threads in src/thread.c. A thread, its context and the parts of a
-- process are at the addresses that `kheap_alloc` returns, which are parameters; 0 is NULL.
pub mod Create
pub mod Threads
mod Tests
use tachyon.Prelude.{
  ℕ, ◌+◌, ◌-◌, Bool, false, not, Option, none, some, List, [], ◌∷◌, ◌++◌, ◌==◌, if◌then◌else◌,
}
use tachyon.Prelude.Words.{add64, sub64}
use tachyon.Heap.{Words, Heap, heap_init}
use tachyon.Stack.{
  Stack, Allocator, stka_new, Page, no_room, write_null, alloc_fatal, allocated, stka_alloc,
}
use tachyon.Sched.{ThreadState, runnable, remove}

-- `process_t` without its lock
pub record Process : Type 0 where
  pub id : ℕ
  pub space : ℕ
  pub priority : ℕ
  pub ctid : ℕ
  pub threads : List ℕ
  pub heap : Heap
  pub stka : Allocator

-- `current`, the next process number, and the address space that is active
pub record Kernel : Type 0 where
  pub next_pid : ℕ
  pub active : ℕ

-- What `prc_new` gets, and what its end gives back when it fails. `heap_delete` of src/heap.c gives
-- nothing back: it only clears the heap's `valid`.
pub data Resource : Type 0 where
  stack_allocator heap_page address_space thread_list process_memory : Resource

pub data Effect : Type 0 where
  gets gives : Resource → Effect
  deletes_heap : Effect

-- PHEAP_START, PHEAP_END, SHEAP_START and SHEAP_END
abbrev pub pheap_start : ℕ
pheap_start = 4194304

abbrev pub uapi_max_sz : ℕ
uapi_max_sz = 65536

abbrev pub sheap_start : ℕ
sheap_start = 123145302310912

abbrev pub sheap_end : ℕ
sheap_end = 140737488355328

-- `prc->heap` before `heap_init`
abbrev pub fresh_heap : Heap
fresh_heap = record {
  start = pheap_start;
  end = sheap_start - uapi_max_sz;
  vmem_mark = 0;
  used_bytes = 0;
  block_count = 0;
  valid = false;
}

-- What `prc_new` leaves: the process, or `none` for NULL, the kernel, the memory, and what it got and
-- gave back, in this order.
pub record Made : Type 0 where
  pub process : Option Process
  pub kernel : Kernel
  pub memory : Words
  pub effects : List Effect

-- Behind `fail`: the calls, by the fields of the process
pub fail_block : ℕ → ℕ → Bool → ℕ → List Effect
fail_block prc stka valid threads =
    let with_process = gives process_memory ∷ [] in
    let with_list = if threads == 0 then with_process else gives thread_list ∷ with_process in
    let with_heap = if valid then deletes_heap ∷ with_list else with_list in
    if prc == 0 then [] else if stka == 0 then with_heap else gives stack_allocator ∷ with_heap

-- `goto fail`, with what was got and the calls there
pub gave_up : Kernel → Words → List Effect → List Effect → Made
gave_up k m got block = record { process = none; kernel = k; memory = m; effects = got ++ block }

-- The process is finished, and the previous space is switched to.
pub prc_ready : ℕ → ℕ → Words → Heap → Kernel → Made
prc_ready space priority m heap k = record {
  process = some (record {
    id = k.next_pid;
    space = space;
    priority = priority;
    ctid = 0;
    threads = [];
    heap = heap;
    stka = stka_new sheap_end sheap_start false;
  });
  kernel = record { next_pid = add64 k.next_pid 1; active = k.active };
  memory = m;
  effects = gets process_memory ∷ gets thread_list ∷ gets heap_page ∷ gets stack_allocator ∷ [];
}

-- Before the heap's first page, and with it, if `pmem_alloc` returns one
pub got_page : ℕ → List Effect
got_page phys =
    if phys == 0
    then gets process_memory ∷ gets thread_list ∷ []
    else gets process_memory ∷ gets thread_list ∷ gets heap_page ∷ []

-- From the switch to the new space on. `mapped` and `phys` are what mapping and allocating the first
-- page of the heap return, `stka` what `stka_new` returns; `spc_switch(old)` is only on the way to
-- success. The heap has no PG_GLOBAL.
pub prc_in_space : ℕ → ℕ → ℕ → ℕ → Bool → ℕ → ℕ → Words → Kernel → Made
unfolding prc_ready gave_up fail_block got_page
prc_in_space prc list space priority mapped phys stka m k =
    let k' = record k { active = space } in
    let (ready, m', heap) = heap_init none space mapped phys m fresh_heap in
    if not ready
    then gave_up k' m' (got_page phys) (fail_block prc 0 heap.valid list)
    else if stka == 0
    then gave_up k' m' (got_page phys) (fail_block prc stka heap.valid list)
    else prc_ready space priority m' heap k

-- `prc` and `list` are what `kheap_alloc` and `list_new` return.
pub prc_new : ℕ → ℕ → ℕ → ℕ → Bool → ℕ → ℕ → Words → Kernel → Made
unfolding gave_up prc_in_space prc_ready fail_block
prc_new prc space list priority mapped phys stka m k =
    if prc == 0
    then gave_up k m [] (fail_block prc 0 false 0)
    else if space == 0
    then gave_up k m (gets process_memory ∷ []) (fail_block prc 0 false 0)
    else if list == 0
    then gave_up k m (gets process_memory ∷ []) (fail_block prc 0 false list)
    else prc_in_space prc list space priority mapped phys stka m k

-- `prc_next_tid`, `prc_add_thread` and `prc_remove_thread` without the lock
pub prc_next_tid : Process → ℕ × Process
prc_next_tid p = (p.ctid, record p { ctid = add64 p.ctid 1 })

pub prc_add_thread : ℕ → Process → Process
prc_add_thread t p = record p { threads = p.threads ++ t ∷ [] }

pub prc_remove_thread : ℕ → Process → Process
prc_remove_thread t p = record p { threads = remove t p.threads }

-- `prc_destroy` of a pointer that is not NULL stops with the fatal error while the process has threads.
pub data Destroyed : Type 0 where
  fatal : Destroyed
  destroyed : List Effect → Destroyed

pub prc_destroy : Process → Destroyed
prc_destroy p = elim p.threads [
  | [] ↦ destroyed (
      gives stack_allocator
      ∷ deletes_heap
      ∷ gives address_space
      ∷ gives thread_list
      ∷ gives process_memory
      ∷ [])
  | t ∷ ts ↦ fatal
]

-- GDT_KCODE64, GDT_KDATA64, GDT_UCODE64, GDT_UDATA64, RING_USERSPACE and FL_IF
abbrev pub kcode64 : ℕ
kcode64 = 24

abbrev pub kdata64 : ℕ
kdata64 = 32

abbrev pub ucode64 : ℕ
ucode64 = 56

abbrev pub udata64 : ℕ
udata64 = 64

abbrev pub ring_userspace : ℕ
ring_userspace = 3

abbrev pub fl_if : ℕ
fl_if = 512

-- `thread_t` and the registers of its context that are set
pub record Thr : Type 0 where
  pub id : ℕ
  pub state : ThreadState
  pub priority : ℕ
  pub ss : ℕ
  pub cs : ℕ
  pub rip : ℕ
  pub rdi : ℕ
  pub rflags : ℕ
  pub rsp : ℕ
  pub stack : Stack

-- What `thr_create` leaves: NULL, a write or read at NULL, the fatal error, or the thread, its process,
-- and the stack allocator of the kernel.
pub data Created : Type 0 where
  null null_access create_fatal : Created
  created : Thr → Process → Allocator → Created

-- The thread on its stack
pub on_stack : ℕ → ℕ → Bool → ℕ → ℕ → Stack → Thr
on_stack id priority user trampoline entry stack = record {
  id = id;
  state = runnable;
  priority = priority;
  ss = if user then udata64 + ring_userspace else kdata64;
  cs = if user then ucode64 + ring_userspace else kcode64;
  rip = trampoline;
  rdi = entry;
  rflags = fl_if;
  rsp = sub64 stack.top 16;
  stack = stack;
}

-- `thr` and `context` are what the two calls of `kheap_alloc` return, `memory` what the one in
-- `stka_alloc` returns, `maps` how mapping the pages of the stack ends, and `kstack` is
-- `kstack_allocator`.
pub thr_create : ℕ → ℕ → ℕ → (ℕ → Page) → Allocator → Process → ℕ → ℕ → Bool → Created
unfolding prc_next_tid on_stack
thr_create thr context memory maps kstack parent trampoline entry user =
    let (id, parent') = prc_next_tid parent in
    let stack = stka_alloc memory maps (if user then parent.stka else kstack) in
    if thr == 0 then null else if context == 0 then null_access else elim stack [
      | no_room used ↦ null_access
      | write_null ↦ null_access
      | alloc_fatal ↦ create_fatal
      | allocated st used ↦
          created (on_stack id parent.priority user trampoline entry st)
            (if user then record parent' { stka = used } else parent')
            (if user then kstack else used)
    ]
