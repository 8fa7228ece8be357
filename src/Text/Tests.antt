-- ===== src/Text/Tests.antt =====
-- The theorems on src/string.c and src/trim.c at concrete strings.
use tachyon.Prelude.{◌≡◌, [], ◌∷◌, ◌++◌, arith}
use tachyon.Text.{Text, IsText}
use tachyon.Text.Trim.{trim}
use tachyon.Text.Trim.Edges.{AllSpace, IsTrimmed, trim-IsTrimmed}

-- "abc", "abd", and " ab " with a tab at the end
abbrev abc : Text
abc = 97 ∷ 98 ∷ 99 ∷ []

abbrev abd : Text
abd = 97 ∷ 98 ∷ 100 ∷ []

abbrev padded : Text
padded = 32 ∷ 97 ∷ 98 ∷ 9 ∷ []

abc-IsText : IsText abc
abc-IsText = (omega arith, (omega arith, (omega arith, tt)))

abd-IsText : IsText abd
abd-IsText = (omega arith, (omega arith, (omega arith, tt)))

trim-IsTrimmed_example :
    IsTrimmed (trim padded)
    × ((pre : Text) × (post : Text) × (padded ≡ pre ++ (trim padded ++ post))
        × AllSpace pre
        × AllSpace post)
trim-IsTrimmed_example = trim-IsTrimmed padded
