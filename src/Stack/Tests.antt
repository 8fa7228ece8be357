-- ===== src/Stack/Tests.antt =====
-- Runs of src/stka.c at concrete inputs.
use tachyon.Prelude.{ℕ, false, [], ◌∷◌, arith}
use tachyon.Stack.{Stack, Allocator, Page, page_mapped}
use tachyon.Stack.Faults.{IsStack}

abbrev all_pages : ℕ → Page
all_pages a = page_mapped

abbrev thread_stack : Stack
thread_stack = record { top = 4194304; guard = 3145728; mapped = 4186112 }

abbrev thread_stack-IsStack : IsStack thread_stack
thread_stack-IsStack = record {
  above_guard = omega arith;
  below_top = omega arith;
  no_wrap = omega arith;
  whole = omega arith;
  whole_guard = omega arith;
}

abbrev one_stack : Allocator
one_stack = record {
  desc_top = 4194304;
  desc_bottom = 1052672;
  fixed = false;
  next_stk = 3141632;
  stacks = thread_stack ∷ [];
  locked = false;
}
