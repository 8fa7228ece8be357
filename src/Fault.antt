-- ===== src/Fault.antt =====
-- src/pgflt.c: the handler of page faults, over the stacks of src/stka.c. The messages are left out.
mod Tests
use tachyon.Prelude.{ℕ, Bool, true, false, ◌&&◌, Option, none, some, leb, if◌then◌else◌}
use tachyon.Stack.{Stack, Page, Grown, grew, grow_fatal, stka_pgflt}
use tachyon.Stack.Faults.{FaultEnd}

-- How the handler ends: with `fatal()`, or it returns to the thread, or it aborts the thread.
pub data Ending : Type 0 where
  fatal : Ending
  resumed aborted : Stack → Ending

abbrev pub after_grow : Grown → Ending
after_grow (grew true stack) = resumed stack
after_grow (grew false stack) = aborted stack
after_grow grow_fatal = fatal

-- `thread` has the stack of the current thread and whether that has a process; `present` is whether a translation was
-- available. A thread without a process is not survived by the message before either.
pub pgflt_handler : (ℕ → Page) → Option (Stack × Bool) → Bool → ℕ → Ending
pgflt_handler maps none present cr2 = fatal
pgflt_handler maps (some (stack, has_parent)) present cr2 =
    if present
    then fatal
    else if leb stack.guard cr2 && leb cr2 stack.top
    then if has_parent then after_grow (stka_pgflt maps stack cr2) else fatal
    else aborted stack

-- Of a fault in the room of a stack: as the stack grows, so the thread goes on.
abbrev pub HandledEnd : (ℕ → Page) → Stack → ℕ → Ending → Type 0
HandledEnd maps s cr2 (resumed s') = FaultEnd maps s cr2 (grew true s')
HandledEnd maps s cr2 (aborted s') = FaultEnd maps s cr2 (grew false s')
HandledEnd maps s cr2 fatal = FaultEnd maps s cr2 grow_fatal
