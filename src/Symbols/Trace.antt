-- ===== src/Symbols/Trace.antt =====
-- The trace of `ksym_trace` (src/ksym.c) ends, whatever the memory holds.
use tachyon.Prelude.{
  ℕ, zero, suc, ◌+◌, ◌≤◌, ◌<◌, inl, inr, Bool, List, [], ◌∷◌, ◌++◌, arith, ◌==◌, Bool-cases,
  lt-or-ge, le→leb, gt→leb, length, length-append,
}
use tachyon.Symbols.{
  Symbol, TraceNode, corrupted, trace_max_len, intr_magic_frame, frame_nodes, Traced, traced,
  no_fuel, trace_loop, ksym_trace,
}

-- Of a trace: it ended, with at most two nodes more than the limit less one.
abbrev pub Bounded : Traced → Type 0
Bounded no_fuel = ⊥
Bounded (traced nodes) = length nodes ≤ trace_max_len + 1

-- A frame adds one node or two.
frame_nodes-length :
    (table : List Symbol) (word : ℕ → ℕ) (basep : ℕ)
    → (0 < length (frame_nodes table word basep)) × (length (frame_nodes table word basep) ≤ 2)
unfolding frame_nodes
frame_nodes-length table word basep = elim (Bool-cases (word (basep + 8) == intr_magic_frame)) [
  | inl magic ↦ rw (frame_nodes, magic) ((omega arith, omega arith))
  | inr plain ↦ rw (frame_nodes, plain) ((omega arith, omega arith))
]

trace_loop-Bounded :
    (fuel : ℕ) (table : List Symbol) (word : ℕ → ℕ) (resolves : ℕ → Bool) (basep : ℕ)
    (trace : List TraceNode)
    → length trace < trace_max_len
    → trace_max_len ≤ length trace + fuel
    → Bounded (trace_loop fuel table word resolves basep trace)
unfolding trace_loop
trace_loop-Bounded zero table word resolves basep trace short enough = absurd (omega arith)
trace_loop-Bounded (suc fuel) table word resolves basep trace short enough =
    let adds = frame_nodes-length table word basep in
    let longer = length-append trace (frame_nodes table word basep) in
    elim (Bool-cases (basep == 0)) [
      | inl a ↦ rw (trace_loop, a) (omega arith)
      | inr a ↦ elim (Bool-cases (resolves basep)) [
        | inr b ↦ rw (trace_loop, a, b) (omega (arith, length-append trace (corrupted basep ∷ [])))
        | inl b ↦ elim (lt-or-ge (length (trace ++ frame_nodes table word basep)) trace_max_len) [
          | inr full ↦
              rw
                (
                  trace_loop,
                  a,
                  b,
                  le→leb trace_max_len (length (trace ++ frame_nodes table word basep)) full,
                )
                (omega (arith, adds.1, longer))
          | inl room ↦
              rw
                (
                  trace_loop,
                  a,
                  b,
                  gt→leb trace_max_len (length (trace ++ frame_nodes table word basep)) room,
                )
                (trace_loop-Bounded fuel table word resolves (word basep)
                  (trace ++ frame_nodes table word basep) room (omega (arith, adds.0, longer)))
        ]
      ]
    ]

-- `ksym_trace` ends within 256 frames, also where the frames form a ring or point anywhere, and the
-- trace has at most 257 nodes.
pub ksym_trace-Bounded :
    (table : List Symbol) (word : ℕ → ℕ) (resolves : ℕ → Bool) (basep : ℕ)
    → Bounded (ksym_trace trace_max_len table word resolves basep)
unfolding ksym_trace
ksym_trace-Bounded table word resolves basep =
    trace_loop-Bounded trace_max_len table word resolves basep [] (omega arith) (omega arith)
