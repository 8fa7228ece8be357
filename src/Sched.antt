-- ===== src/Sched.antt =====
-- src/sched.c: the scheduler. A queue is the list of its threads, which is what the functions of
-- src/list.c make of a chain; a thread is an address. The lock is not modelled: it is taken for the
-- whole of each operation.
pub mod Choice
pub mod Queues
pub mod Switch
pub mod Schedule
pub mod RoundRobin
pub mod Yields
pub mod Life
mod Tests
use tachyon.Prelude.{
  ℕ, zero, suc, Bool, true, false, not, ◌&&◌, Option, none, some, List, [], ◌∷◌, ◌++◌, ltb, ◌==◌,
  if◌then◌else◌,
}
use tachyon.Prelude.Words.{add64}

-- `thread_state_t`
pub data ThreadState : Type 0 where
  initial runnable running yielded waiting aborting aborted exited : ThreadState

-- The fields of `thread_t` that the scheduler uses. A priority is below PrioMaxPrio, which is 7.
pub record Thread : Type 0 where
  pub state : ThreadState
  pub priority : ℕ
  pub preempt_at : ℕ

-- `_sched_queues`, the threads in memory, and `thr_current()`.
pub record Sched : Type 0 where
  pub queue : ℕ → List ℕ
  pub thread : ℕ → Thread
  pub current : Option ℕ

-- PrioMaxPrio and SCHED_TIMESLICE_US
abbrev pub max_prio : ℕ
max_prio = 7

abbrev pub timeslice : ℕ
timeslice = 5000

abbrev pub is_runnable : ThreadState → Bool
is_runnable runnable = true
is_runnable _ = false

-- What `list_remove` leaves: the first entry with the thread is taken out.
abbrev pub remove : ℕ → List ℕ → List ℕ
remove t [] = []
remove t (u ∷ q) = if u == t then q else u ∷ remove t q

abbrev pub with_queue : (ℕ → List ℕ) → ℕ → List ℕ → ℕ → List ℕ
with_queue queue p q i = if i == p then q else queue i

abbrev pub with_thread : (ℕ → Thread) → ℕ → Thread → ℕ → Thread
with_thread thread t v u = if u == t then v else thread u

-- `sched_add` and `sched_remove` without the lock. A missing queue is empty.
pub sched_add : ℕ → Sched → Sched
sched_add t s =
    let p = (s.thread t).priority in record s { queue = with_queue s.queue p (s.queue p ++ t ∷ []) }

pub sched_remove : ℕ → Sched → Sched
sched_remove t s =
    let p = (s.thread t).priority in
    record s { queue = with_queue s.queue p (remove t (s.queue p)) }

-- `while(node)`: the first thread of a queue that can run. An entry that is NULL is passed.
pub choose_in : (ℕ → Thread) → List ℕ → Option ℕ
choose_in thread [] = none
choose_in thread (t ∷ q) =
    let later = choose_in thread q in
    if not (t == 0) && is_runnable (thread t).state then some t else later

-- `for(i = PrioKernel; i < PrioMaxPrio; --i)`: from the highest priority below `n` down to 0, behind
-- which the unsigned `i` is too large.
pub choose_below : ℕ → Sched → Option ℕ
unfolding choose_in
choose_below zero s = none
choose_below (suc i) s = elim (choose_in s.thread (s.queue i)) [
  | some t ↦ some t
  | none ↦ choose_below i s
]

pub sched_choose : Sched → Option ℕ
unfolding choose_below
sched_choose s = choose_below max_prio s

-- The end of `sched_schedule`; a NULL thread is read where `fault` stands.
pub data Outcome : Type 0 where
  scheduled : Sched → Outcome
  fatal fault : Outcome

-- Sets `preempt_at`, and calls `thr_switch`, `sched_remove_unlocked` and `sched_add_unlocked`.
pub switch_to : ℕ → ℕ → Sched → Sched
unfolding sched_add sched_remove
switch_to now t s =
    let v = record (s.thread t) { preempt_at = add64 now timeslice } in
    let s' = sched_remove t (record s { thread = with_thread s.thread t v; current = some t }) in
    elim s.current [ none ↦ s' | some old ↦ sched_add old s' ]

pub pick : ℕ → Sched → Outcome
unfolding sched_choose switch_to
pick now s = elim (sched_choose s) [
  | some t ↦ scheduled (switch_to now t s)
  | none ↦ elim s.current [
    | none ↦ fault
    | some old ↦ if is_runnable (s.thread old).state then scheduled s else fatal
  ]
]

-- `now` and `later` are what the two calls of `systime()` return.
pub sched_schedule : ℕ → ℕ → Sched → Outcome
unfolding pick
sched_schedule now later s = elim s.current [
  | none ↦ pick later s
  | some old ↦ elim (s.thread old).state [
    | runnable ↦ if ltb now (s.thread old).preempt_at then scheduled s else pick later s
    | yielded ↦ pick later (record s {
      thread = with_thread s.thread old (record (s.thread old) { state = runnable });
    })
    | _ ↦ pick later s
  ]
]

pub sched_yield : ℕ → ℕ → Sched → Outcome
unfolding sched_schedule
sched_yield now later s = elim s.current [
  | none ↦ fault
  | some old ↦
      sched_schedule now later
        (record s { thread = with_thread s.thread old (record (s.thread old) { state = yielded }) })
]
