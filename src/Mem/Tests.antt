-- ===== src/Mem/Tests.antt =====
-- The theorems on src/mem.c at concrete buffers.
use tachyon.Prelude.{◌%◌, ◌≡◌}
use tachyon.Mem.{Memory, memmove}
use tachyon.Mem.Moves.{moved, memmove-moved}

-- Each byte holds its address.
abbrev numbered : Memory
numbered a = a % 256

memmove-moved_example : memmove numbered 12 10 4 14 ≡ moved numbered 12 10 4 14
memmove-moved_example = memmove-moved numbered 12 10 4 14
