-- ===== src/Path/Tests.antt =====
-- The theorems on src/path.c at concrete paths.
use tachyon.Prelude.{◌≡◌, none, some, List, [], ◌∷◌, arith, ◌==◌, if◌then◌else◌}
use tachyon.Text.{Text, peek, next}
use tachyon.Path.{path_create, path_string}
use tachyon.Path.Split.{first, rest, split, path_of, path_create-split}
use tachyon.Path.RoundTrip.{Overrun, path_string-path_create}

-- "/a/b"
abbrev a_b : Text
a_b = 47 ∷ 97 ∷ 47 ∷ 98 ∷ []

abbrev parts : List Text
parts = (97 ∷ []) ∷ (98 ∷ []) ∷ []

path_create-split_example :
    path_create a_b ≡ (if peek a_b == 47 then some (path_of (split (next a_b))) else none)
path_create-split_example = path_create-split a_b

path_string-path_create_example : Overrun a_b (path_of parts) (path_string (path_of parts))
unfolding tachyon.Path.Split.first tachyon.Path.Split.rest
path_string-path_create_example =
    path_string-path_create a_b (path_of parts)
      (omega arith, (omega arith, (omega arith, (omega arith, tt)))) (path_create-split a_b)
