-- ===== src/Time.antt =====
-- src/systime.c, src/rtc.c and src/tsc.c: the sources of the system time and how they are chosen, and
-- src/extp.c, by which they are found. What the hardware counts is a parameter.
pub mod Choice
pub mod Clock
pub mod Calibration
mod Tests
use tachyon.Prelude.{
  ℕ, zero, suc, ◌+◌, ◌-◌, ◌*◌, ◌/◌, ◌%◌, ◌^◌, Bool, true, false, not, ◌&&◌, ◌||◌, Option, none,
  some, List, [], ◌∷◌, ltb, ◌==◌, if◌then◌else◌,
}
use tachyon.Prelude.Words.{word_mod, add64, sub64}
use tachyon.Text.{Text, Sign, equal, strcmp}

-- `extension_point_t`; what its function returns when it is called stands for the function.
pub record Extension {ℓ} (A : Type ℓ) : Type ℓ where
  pub ext_tag : Text
  pub ext_func : A

abbrev pub is_equal : Sign → Bool
is_equal equal = true
is_equal _ = false

-- `extp_iterate` for a tag: the functions that the callback gets, from a table that ends at the first
-- NULL. All callers give a tag.
pub extp_iterate {ℓ} : {A : Type ℓ} → Text → List (Option (Extension A)) → List A
extp_iterate tag [] = []
extp_iterate tag (none ∷ table) = []
extp_iterate tag (some e ∷ table) =
    let rest = extp_iterate tag table in
    if is_equal (strcmp e.ext_tag tag) then e.ext_func ∷ rest else rest

-- `systime_desc_t`: the accuracy is the number of `systime_accuracy_t`, and the function is named by a
-- number, which is 0 for NULL.
pub record Source : Type 0 where
  pub systime_us_func : ℕ
  pub accuracy : ℕ

-- `systime_extp_init` on `the_timesource`
pub systime_extp_init : Option Source → Source → Option Source
systime_extp_init none desc = some desc
systime_extp_init (some t) desc = if ltb t.accuracy desc.accuracy then some desc else some t

pub choose_loop : Option Source → List Source → Option Source
unfolding systime_extp_init
choose_loop t [] = t
choose_loop t (desc ∷ descs) = choose_loop (systime_extp_init t desc) descs

-- `systime_init`: the source, or `none` where it ends with the fatal error
pub systime_init : Text → List (Option (Extension Source)) → Option Source
unfolding choose_loop extp_iterate
systime_init tag table = elim (choose_loop none (extp_iterate tag table)) [
  | none ↦ none
  | some t ↦ if t.systime_us_func == 0 then none else some t
]

-- The static variables of src/rtc.c that the time depends on
pub record Rtc : Type 0 where
  pub systime : ℕ
  pub increment : ℕ
  pub tsc_at_tick : ℕ
  pub tsc_hz : ℕ

-- RTC_RATE_8192HZ, RTC_RATE_2HZ and RTC_INCREMENT_US
abbrev pub rate_8192hz : ℕ
rate_8192hz = 3

abbrev pub rate_2hz : ℕ
rate_2hz = 15

abbrev pub frequency : ℕ → ℕ
frequency rate = 32768 / 2 ^ (rate - 1)

abbrev pub increment_us : ℕ → ℕ
increment_us rate = 1000000 / frequency rate

-- `rtc_set_rate`, or `none` for the fatal error
pub rtc_set_rate : ℕ → Rtc → Option Rtc
rtc_set_rate rate r =
    if ltb rate rate_8192hz || ltb rate_2hz rate
    then none
    else some (record r { increment = increment_us rate })

-- `rtc_tick_handler` when the counter shows `tsc`
pub rtc_tick : ℕ → Rtc → Rtc
rtc_tick tsc r = record r { systime = add64 r.systime r.increment; tsc_at_tick = tsc }

-- `rtc_systime` when the counter shows `tsc`. The difference is an `int64_t`, and so is its product.
pub rtc_systime : ℕ → Rtc → ℕ
rtc_systime tsc r =
    let diff = sub64 tsc r.tsc_at_tick in
    if not (r.tsc_hz == 0) && (ltb 0 diff && ltb diff 9223372036854775808)
    then add64 r.systime (diff * 1000000 % word_mod / r.tsc_hz)
    else r.systime

-- The static variables of `tsc_calibrate`, and `_tsc_hz`
pub record Calibrating : Type 0 where
  pub ltsc : ℕ
  pub avg : ℕ
  pub turns : ℕ
  pub hz : ℕ

-- CALIBRATE_TURNS
abbrev pub calibrate_turns : ℕ
calibrate_turns = 8

-- TICKS_INCR_2_HZ
abbrev pub ticks_incr_2_hz : ℕ → ℕ → ℕ
ticks_incr_2_hz ticks incr = ticks * (1000000 / incr) % word_mod

-- `tsc_calibrate` when the counter shows `tsc`: whether it goes on
pub tsc_calibrate : ℕ → ℕ → Calibrating → Bool × Calibrating
tsc_calibrate tsc incr c =
    let ticks = ticks_incr_2_hz (sub64 tsc c.ltsc) incr in
    let avg = if c.avg == 0 then ticks else add64 c.avg ticks / 2 in
    if c.ltsc == 0
    then (true, record c { turns = c.turns + 1; ltsc = tsc })
    else if c.turns == calibrate_turns
    then (false, record c { avg = avg; hz = avg })
    else (true, record c { avg = avg; turns = c.turns + 1; ltsc = tsc })

-- The ticks until it ends, when the counter shows `tsc i` at the tick with `i` more to come; the rest
-- of `n` ticks do not call it.
pub calibrate_loop : ℕ → (ℕ → ℕ) → ℕ → Calibrating → Bool × Calibrating
unfolding tsc_calibrate
calibrate_loop zero tsc incr c = (true, c)
calibrate_loop (suc n) tsc incr c =
    let out = tsc_calibrate (tsc n) incr c in
    let rest = calibrate_loop n tsc incr out.1 in if out.0 then rest else out
