-- ===== src/Timer/Tests.antt =====
-- The theorem on src/tmr.c at three generators, of which the last can be used.
use tachyon.Prelude.{ℕ, Bool, true, false, Option, none, some, List, [], ◌∷◌}
use tachyon.Text.{Text}
use tachyon.Time.{Extension, extp_iterate}
use tachyon.Timer.Generators.{Generator, tmr_init, FirstUsable, tmr_init-FirstUsable}

abbrev tag : Text
tag = 116 ∷ 46 ∷ 103 ∷ []

abbrev extension : ℕ → Bool → Bool → Option (Extension (Option Generator))
extension n supported init = some (record {
  ext_tag = tag;
  ext_func = some (record { number = n; supported = supported; init = init });
})

abbrev extensions : List (Option (Extension (Option Generator)))
extensions =
    some (record { ext_tag = tag; ext_func = none })
    ∷ extension 1 false true
    ∷ extension 2 true false
    ∷ extension 3 true true
    ∷ extension 4 true true
    ∷ none
    ∷ []

tmr_init-FirstUsable_example :
    FirstUsable [] (extp_iterate tag extensions) (tmr_init tag extensions)
tmr_init-FirstUsable_example = tmr_init-FirstUsable tag extensions
