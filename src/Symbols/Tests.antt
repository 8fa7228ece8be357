-- ===== src/Symbols/Tests.antt =====
-- The theorems on src/ksym.c at concrete values.
use tachyon.Prelude.{ℕ, true, []}
use tachyon.Symbols.{Symbol, trace_max_len, ksym_trace}
use tachyon.Symbols.Trace.{Bounded, ksym_trace-Bounded}

abbrev symbol : ℕ → ℕ → Symbol
symbol a n = record { addr = a; size = n }

-- A frame that points to itself
ksym_trace-Bounded_example : Bounded (ksym_trace trace_max_len [] (λ a. 64) (λ a. true) 64)
ksym_trace-Bounded_example = ksym_trace-Bounded [] (λ a. 64) (λ a. true) 64
