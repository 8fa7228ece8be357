-- ===== src/Symbols.antt =====
-- src/ksym.c: the lookup in the table of symbols, and the trace of the stack. The table and the memory
-- that the frames lie in are parameters.
pub mod Lookup
pub mod Trace
mod Tests
use tachyon.Prelude.{
  ℕ, zero, suc, ◌+◌, Bool, not, ◌&&◌, Option, none, some, List, [], ◌∷◌, ◌++◌, leb, ◌==◌,
  if◌then◌else◌, length,
}

-- `ksym_t` without the name
pub record Symbol : Type 0 where
  pub addr : ℕ
  pub size : ℕ

-- The condition of `ksym_get`
abbrev pub covers : Symbol → ℕ → Bool
covers s a = leb s.addr a && leb a (s.addr + s.size)

-- `ksym_get`: the table ends at an address 0.
pub ksym_get : List Symbol → ℕ → Option Symbol
ksym_get [] a = none
ksym_get (p ∷ table) a =
    let rest = ksym_get table a in if p.addr == 0 then none else if covers p a then some p else rest

-- `ksym_node_t`: `intr_magic_frame`, `stack_corruption`, or what `ksym_get` finds.
pub data TraceNode : Type 0 where
  interrupt : TraceNode
  corrupted : ℕ → TraceNode
  frame : Option Symbol → ℕ → TraceNode

-- KSYM_TRACE_MAX_LEN and INTR_MAGIC_FRAME
abbrev pub trace_max_len : ℕ
trace_max_len = 256

abbrev pub intr_magic_frame : ℕ
intr_magic_frame = 40547309003538414

-- What a frame adds to the trace, `word` being the memory
pub frame_nodes : List Symbol → (ℕ → ℕ) → ℕ → List TraceNode
frame_nodes table word basep =
    if word (basep + 8) == intr_magic_frame
    then interrupt ∷ frame (ksym_get table (word (basep + 16))) (word (basep + 16)) ∷ []
    else frame (ksym_get table (word (basep + 8))) (word (basep + 8)) ∷ []

-- How the loop of `ksym_trace` ends
pub data Traced : Type 0 where
  traced : List TraceNode → Traced
  no_fuel : Traced

-- `while(basep)` with the nodes so far; `resolves` is whether the address is mapped.
pub trace_loop : ℕ → List Symbol → (ℕ → ℕ) → (ℕ → Bool) → ℕ → List TraceNode → Traced
unfolding frame_nodes
trace_loop zero table word resolves basep trace = no_fuel
trace_loop (suc fuel) table word resolves basep trace =
    let longer = trace ++ frame_nodes table word basep in
    let rest = trace_loop fuel table word resolves (word basep) longer in
    if basep == 0
    then traced trace
    else if not (resolves basep)
    then traced (trace ++ corrupted basep ∷ [])
    else if leb trace_max_len (length longer)
    then traced longer
    else rest

pub ksym_trace : ℕ → List Symbol → (ℕ → ℕ) → (ℕ → Bool) → ℕ → Traced
unfolding trace_loop
ksym_trace fuel table word resolves basep = trace_loop fuel table word resolves basep []
