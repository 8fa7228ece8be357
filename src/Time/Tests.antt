-- ===== src/Time/Tests.antt =====
-- The theorems on the system time at concrete values.
use tachyon.Prelude.{ℕ, ◌-◌, ◌*◌, ◌≡◌, false, Option, none, some, List, [], ◌∷◌, arith}
use tachyon.Text.{Text}
use tachyon.Time.{Extension, extp_iterate, Source, systime_init, Rtc, calibrate_loop}
use tachyon.Time.Choice.{InitEnd, systime_init-InitEnd}
use tachyon.Time.Calibration.{uncalibrated, calibrate_loop-hz}

abbrev tag_of : Text
tag_of = 115 ∷ 116 ∷ []

abbrev source : ℕ → ℕ → Option (Extension Source)
source f accuracy =
    some
      (record { ext_tag = tag_of; ext_func = record { systime_us_func = f; accuracy = accuracy } })

abbrev sources : List (Option (Extension Source))
sources = source 8 0 ∷ source 16 1 ∷ source 24 1 ∷ none ∷ source 32 2 ∷ []

systime_init-InitEnd_example : InitEnd (extp_iterate tag_of sources) (systime_init tag_of sources)
systime_init-InitEnd_example = systime_init-InitEnd tag_of sources

abbrev clock : Rtc
clock = record { systime = 500000; increment = 125000; tsc_at_tick = 1000; tsc_hz = 2000000 }

-- A thousand counts per tick of 7812 microseconds
calibrate_loop-hz_example :
    calibrate_loop 9 (λ i. 9000 - i * 1000) 7812 uncalibrated
    ≡ (false, record { ltsc = 8000; avg = 128000; turns = 8; hz = 128000 })
calibrate_loop-hz_example =
    calibrate_loop-hz (λ i. 9000 - i * 1000) 1000 7812
      (omega arith, (λ i l. omega (arith, l)), omega arith) (omega arith) (omega arith)
