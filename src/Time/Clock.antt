-- ===== src/Time/Clock.antt =====
-- The clock of src/rtc.c between its ticks, and the rate of the ticks.
use native.Mathlib.Nat.{div-mul-le_self, le-div_iff_mul-le, div-le_self}
use tachyon.Prelude.{
  ℕ, ◌+◌, ◌-◌, ◌*◌, ◌/◌, ◌%◌, ◌≤◌, ◌<◌, ◌≡◌, ap, ◌∙◌, ◌≢◌, inl, inr, arith, lt→ltb, ge→ltb, ne→eqb,
  lt-or-ge,
}
use tachyon.Prelude.Words.{word_mod, sub64}
use tachyon.Time.{Rtc, rtc_systime}

-- A quotient does not go down when the number goes up.
quotient_mono : (n a b : ℕ) → 0 < n → a ≤ b → a / n ≤ b / n
quotient_mono n a b pos le = (le-div_iff_mul-le pos).1 (omega (arith, div-mul-le_self a n, le))

-- Since the tick the counter has gone on, by less than the 63 bits of the product.
abbrev pub Since : Rtc → ℕ → Type 0
Since r tsc =
    (r.tsc_at_tick ≤ tsc)
    × (tsc < word_mod)
    × ((tsc - r.tsc_at_tick) * 1000000 < 9223372036854775808)
    × (r.systime + (tsc - r.tsc_at_tick) * 1000000 / r.tsc_hz < word_mod)

rtc_systime-value :
    (r : Rtc) (tsc : ℕ)
    → r.tsc_hz ≢ 0
    → Since r tsc
    → rtc_systime tsc r ≡ r.systime + (tsc - r.tsc_at_tick) * 1000000 / r.tsc_hz
unfolding rtc_systime
rtc_systime-value r tsc known (after, fits, small, room) =
    let product : (tsc - r.tsc_at_tick) * 1000000 % word_mod ≡ (tsc - r.tsc_at_tick) * 1000000 =
      omega arith in
    let diff : sub64 tsc r.tsc_at_tick ≡ tsc - r.tsc_at_tick = omega arith in
    elim (lt-or-ge 0 (tsc - r.tsc_at_tick)) [
      | inl some_time ↦
          rw
            (
              rtc_systime,
              diff,
              ne→eqb r.tsc_hz 0 known,
              lt→ltb 0 (tsc - r.tsc_at_tick) some_time,
              lt→ltb (tsc - r.tsc_at_tick) 9223372036854775808 (omega arith),
            )
            (ap (λ (n : ℕ). (r.systime + n / r.tsc_hz) % word_mod) product ∙ omega arith)
      | inr none_yet ↦
          rw (rtc_systime, diff, ne→eqb r.tsc_hz 0 known, ge→ltb 0 (tsc - r.tsc_at_tick) none_yet)
            (omega (arith, div-le_self ((tsc - r.tsc_at_tick) * 1000000) r.tsc_hz))
    ]

-- Between two ticks, when the frequency of the counter is known, the time does not go back as long as
-- the counter does not, and it is the time of the tick and the microseconds since then, rounded down.
-- The counter may go on by 2 ^ 63 / 1000000 from the tick, and the time does not wrap.
pub rtc_systime_mono :
    (r : Rtc) (tsc tsc' : ℕ)
    → r.tsc_hz ≢ 0
    → Since r tsc
    → Since r tsc'
    → tsc ≤ tsc'
    → rtc_systime tsc r ≤ rtc_systime tsc' r
rtc_systime_mono r tsc tsc' known s s' le = omega (
  arith,
  rtc_systime-value r tsc known s,
  rtc_systime-value r tsc' known s',
  quotient_mono r.tsc_hz ((tsc - r.tsc_at_tick) * 1000000) ((tsc' - r.tsc_at_tick) * 1000000)
      (omega (arith, known)) (omega (arith, le)),
)
