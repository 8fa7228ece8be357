-- ===== src/Sched/Life.antt =====
-- The end of a thread in src/thread.c: `thr_exit` and `thr_abort`, on the state of the scheduler. The
-- trace that `thr_abort` writes to the log is left out.
pub mod Gone
pub mod Queued
use tachyon.Prelude.{ℕ, ◌≡◌, Bool, none, some, if◌then◌else◌}
use tachyon.Sched.{
  ThreadState, aborting, exited, Sched, with_thread, sched_add, sched_remove, Outcome, scheduled,
  fatal, fault, sched_schedule, sched_yield,
}

unfoldable pub with_state : ℕ → ThreadState → Sched → Sched
with_state t st s = record s {
  thread = with_thread s.thread t (record (s.thread t) { state = st });
}

unfoldable pub thr_exit : ℕ → ℕ → ℕ → Sched → Outcome
unfolding with_state
thr_exit now later t s = sched_schedule now later (with_state t exited s)

unfoldable pub thr_exit_current : ℕ → ℕ → Sched → Outcome
unfolding thr_exit
thr_exit_current now later s = elim s.current [ none ↦ fault | some t ↦ thr_exit now later t s ]

-- `in_kernel` is whether the thread's process has the number 0, for which `abort` does not return.
pub thr_abort : Bool → ℕ → ℕ → ℕ → Sched → Outcome
unfolding with_state
thr_abort in_kernel now later t s =
    let rest = sched_schedule now later (with_state t aborting s) in
    if in_kernel then fatal else rest

-- What changes the state of the scheduler, by calls that return.
pub data Step (s s' : Sched) : Type 0 where
  schedules : (now later : ℕ) → sched_schedule now later s ≡ scheduled s' → Step s s'
  yields_once : (now later : ℕ) → sched_yield now later s ≡ scheduled s' → Step s s'
  exits : (now later : ℕ) → thr_exit_current now later s ≡ scheduled s' → Step s s'
  aborts :
      (in_kernel : Bool) (now later t : ℕ)
      → thr_abort in_kernel now later t s ≡ scheduled s'
      → Step s s'
  adds : (t : ℕ) → sched_add t s ≡ s' → Step s s'
  removes : (t : ℕ) → sched_remove t s ≡ s' → Step s s'

pub data Reach (s : Sched) : Sched → Type 0 where
  here : Reach s s
  later_on : {s' s'' : Sched} → Reach s s' → Step s' s'' → Reach s s''
