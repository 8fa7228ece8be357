-- ===== src/Log/Tests.antt =====
-- The theorems on src/log.c at concrete numbers, formats and tables.
use tachyon.Prelude.{◌≡◌, some, List, [], ◌∷◌, arith}
use tachyon.Text.{Text}
use tachyon.Log.{done, log_format_u, log_parse_number}
use tachyon.Log.Digits.{AllDigits, log_parse_number-log_format_u}
use tachyon.Log.Format.{Arg, number, str}
use tachyon.Log.Writers.{Destination}

log_parse_number-log_format_u_example :
    (s : Text) × (log_format_u 1203 10 0 5 ≡ done s) × AllDigits s × (log_parse_number s ≡ 1203)
log_parse_number-log_format_u_example = log_parse_number-log_format_u 1203 5 (omega arith)

-- "%3uok%s!"
abbrev formats : Text
formats = 37 ∷ 51 ∷ 117 ∷ 111 ∷ 107 ∷ 37 ∷ 115 ∷ 33 ∷ []

-- " 42" has lost its first character, and "abcdef" its first five.
abbrev whole : Text
whole = 52 ∷ 50 ∷ 111 ∷ 107 ∷ 102 ∷ 33 ∷ []

abbrev values : List Arg
values = number 42 ∷ str (some (97 ∷ 98 ∷ 99 ∷ 100 ∷ 101 ∷ 102 ∷ [])) ∷ []

abbrev unused : Destination
unused = record { writer = 0; level = 0; name = [] }

abbrev serial : Destination
serial = record { writer = 64; level = 5; name = 115 ∷ [] }
