-- ===== src/Fault/Tests.antt =====
-- The handler of src/pgflt.c at a concrete fault.
use tachyon.Prelude.{ℕ, ◌==◌, if◌then◌else◌}
use tachyon.Stack.{Stack, Page, page_mapped, page_refused}

-- The page at 4177920 cannot be mapped.
abbrev most_pages : ℕ → Page
most_pages a = if a == 4177920 then page_refused else page_mapped

abbrev stack : Stack
stack = record { top = 4194304; guard = 3145728; mapped = 4186112 }
