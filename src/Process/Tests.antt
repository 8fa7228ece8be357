-- ===== src/Process/Tests.antt =====
-- The theorems on processes and threads at concrete values.
use tachyon.Prelude.{true, false, []}
use tachyon.Stack.{Allocator}
use tachyon.Process.{Process, Kernel, fresh_heap, prc_new}
use tachyon.Process.Create.{MadeEnd, prc_new-MadeEnd}

abbrev kernel : Kernel
kernel = record { next_pid = 5; active = 4096 }

prc_new-MadeEnd_example :
    MadeEnd 8192 3 12288 kernel (prc_new 64 8192 128 3 true 12288 0 (λ a. 0) kernel)
prc_new-MadeEnd_example = prc_new-MadeEnd 64 8192 128 3 true 12288 0 (λ a. 0) kernel

abbrev user_stacks : Allocator
user_stacks = record {
  desc_top = 4194304;
  desc_bottom = 1052672;
  fixed = false;
  next_stk = 4194304;
  stacks = [];
  locked = false;
}

abbrev shell : Process
shell = record {
  id = 5;
  space = 8192;
  priority = 3;
  ctid = 7;
  threads = [];
  heap = fresh_heap;
  stka = user_stacks;
}
