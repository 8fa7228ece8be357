-- ===== src/Command/Tests.antt =====
-- Runs of the splitting of src/mboot.c at concrete command lines.
use tachyon.Prelude.{◌≡◌, [], ◌∷◌, arith}
use tachyon.Text.{Text}
use tachyon.Command.{command_pieces}
use tachyon.Command.Pieces.{joined, AllPieces, command_pieces-joined}

-- "a b"
abbrev two_words : Text
two_words = 97 ∷ 32 ∷ 98 ∷ []

command_pieces-joined_example :
    (joined (command_pieces two_words) ≡ two_words) × AllPieces (command_pieces two_words)
command_pieces-joined_example =
    command_pieces-joined two_words (omega arith, (omega arith, (omega arith, omega arith)))
