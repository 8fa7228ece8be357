-- ===== src/Intr.antt =====
-- src/intr.c: the table of interrupt gates. A handler is an address; `answers` says which handlers
-- return true, and a dispatch lists the handlers that it calls, in order. The list of a gate is the list
-- of its entries, which is what the functions of src/list.c make of a chain.
pub mod Dispatch
pub mod Nesting
mod Tests
use tachyon.Prelude.{ℕ, Bool, true, false, not, ◌&&◌, List, [], ◌∷◌, ◌++◌, ltb, ◌==◌, if◌then◌else◌}

-- MAX_INTR
abbrev pub max_intr : ℕ
max_intr = 60

-- `gatemode_t`, a set of flags; the mode of a gate that no call has set is 0.
pub record Mode : Type 0 where
  pub single_handler : Bool
  pub multi_handler : Bool
  pub notify_all : Bool

-- The union `h`: the single handler, or the list, or NULL, which both members read as such.
pub data Handlers : Type 0 where
  empty : Handlers
  handler : ℕ → Handlers
  list : List ℕ → Handlers

pub record Gate : Type 0 where
  pub mode : Mode
  pub h : Handlers

-- How a dispatch ends: it returns, it reports an unhandled system call, or a fatal error. Reading a
-- handler as a list is a fault.
pub data Ending : Type 0 where
  handled unhandled_call fatal fault : Ending

-- `while(node)`: the handlers called, and whether the loop has returned. A NULL entry is passed.
pub call_list : (ℕ → Bool) → Bool → List ℕ → List ℕ × Bool
call_list answers all [] = ([], false)
call_list answers all (f ∷ rest) =
    let (calls, stop) = call_list answers all rest in
    if f == 0
    then (calls, stop)
    else if answers f && not all
    then (f ∷ [], true)
    else (f ∷ calls, stop)

-- SYSC_INTERRUPT
abbrev pub sysc_interrupt : ℕ
sysc_interrupt = 50

-- The check behind the handlers.
abbrev pub unhandled : ℕ → Ending
unhandled num = if num == sysc_interrupt then unhandled_call else fatal

-- What happens at a gate that exists.
pub dispatch_gate : (ℕ → Bool) → Gate → ℕ → List ℕ × Ending
unfolding call_list
dispatch_gate answers gate num =
    if gate.mode.multi_handler
    then elim gate.h [
      | empty ↦ ([], unhandled num)
      | handler f ↦ ([], fault)
      | list fs ↦ (
        (call_list answers gate.mode.notify_all fs).0,
        if (call_list answers gate.mode.notify_all fs).1 then handled else unhandled num,
      )
    ]
    else elim gate.h [
      | empty ↦ ([], unhandled num)
      | list fs ↦ ([], fault)
      | handler f ↦ (f ∷ [], if answers f then handled else unhandled num)
    ]

pub intr_dispatch : (ℕ → Bool) → (ℕ → Gate) → ℕ → List ℕ × Ending
intr_dispatch answers table num =
    if not (ltb num max_intr) then ([], fatal) else dispatch_gate answers (table num) num

-- What a call that adds or removes a handler makes of the table; `refused` is the fatal error, and
-- `wrong_kind` an entry read as what it is not.
pub data Change : Type 0 where
  changed : (ℕ → Gate) → Change
  refused wrong_kind : Change

abbrev pub with_gate : (ℕ → Gate) → ℕ → Gate → ℕ → Gate
with_gate table num gate i = if i == num then gate else table i

-- A list that does not exist is made first.
pub intr_add : (ℕ → Gate) → ℕ → ℕ → Change
intr_add table num f =
    let gate = table num in
    if not (ltb num max_intr)
    then refused
    else if gate.mode.multi_handler
    then elim gate.h [
      | empty ↦ changed (with_gate table num (record gate { h = list (f ∷ []) }))
      | handler g ↦ wrong_kind
      | list fs ↦ changed (with_gate table num (record gate { h = list (fs ++ f ∷ []) }))
    ]
    else changed (with_gate table num (record gate { h = handler f }))

abbrev pub remove_handler : ℕ → List ℕ → List ℕ
remove_handler f [] = []
remove_handler f (g ∷ fs) = if g == f then fs else g ∷ remove_handler f fs

pub intr_remove : (ℕ → Gate) → ℕ → ℕ → Change
intr_remove table num f =
    let gate = table num in
    if not (ltb num max_intr)
    then refused
    else if gate.mode.multi_handler
    then elim gate.h [
      | empty ↦ changed table
      | handler g ↦ wrong_kind
      | list fs ↦ changed (with_gate table num (record gate { h = list (remove_handler f fs) }))
    ]
    else elim gate.h [
      | empty ↦
          if f == 0 then changed (with_gate table num (record gate { h = empty })) else refused
      | handler g ↦
          if g == f then changed (with_gate table num (record gate { h = empty })) else refused
      | list fs ↦ wrong_kind
    ]
