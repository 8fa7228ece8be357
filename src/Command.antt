-- ===== src/Command.antt =====
-- The kernel command line: how src/mboot.c cuts it into arguments, and the table of src/cmd.c.
pub mod Pieces
mod Tests
use tachyon.Prelude.{ℕ, Bool, true, false, not, List, [], ◌∷◌, ◌++◌, ◌==◌, if◌then◌else◌, length}
use tachyon.Text.{Text, strncpy, strlen, isspace}
use tachyon.Text.Trim.{trim}

-- The character that opens quotes
abbrev pub quote : ℕ
quote = 34

-- `while(*walk)` on the text from `walk` on, with the text from `base` up to there: the texts that
-- mboot_cmd_alloc is called with. Behind a break, `base` is at the white space.
pub walk_loop : Text → Bool → Text → List Text
walk_loop [] in_quotes base = if length base == 0 then [] else base ∷ []
walk_loop (c ∷ walk) in_quotes base =
    let quoted = walk_loop walk true (base ++ (c ∷ [])) in
    let break_here = walk_loop walk in_quotes (c ∷ []) in
    let on = walk_loop walk in_quotes (base ++ (c ∷ [])) in
    if c == quote
    then quoted
    else if isspace c
    then if not in_quotes then base ∷ break_here else on
    else on

pub command_pieces : Text → List Text
command_pieces mc = walk_loop mc false []

-- mboot_cmd_alloc, on the text that is to be cut: the buffer has room for len + 1 characters, and the terminator goes
-- behind them, so that the text ends where the memory, `garbage` behind the last character, has a zero.
pub mboot_cmd_alloc : Text → Text → Text
mboot_cmd_alloc base garbage = trim (strncpy base (strlen base) ++ garbage)

-- cmd_add: the table with the new pointer at its end; nothing is copied to the memory that it points at. NULL is
-- skipped.
pub cmd_add : List ℕ → ℕ → ℕ → List ℕ
cmd_add table argument target = if argument == 0 then table else table ++ (target ∷ [])
