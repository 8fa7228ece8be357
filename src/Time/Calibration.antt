-- ===== src/Time/Calibration.antt =====
-- The frequency that `tsc_calibrate` of src/tsc.c measures.
use tachyon.Prelude.{
  ℕ, zero, suc, ◌+◌, ◌-◌, ◌*◌, ◌/◌, ◌%◌, ◌≤◌, ◌<◌, ◌≡◌, refl, sym, ap, ap₂, ◌∙◌, subst, ◌⊎◌, inl,
  inr, true, false, arith, ◌==◌, if◌then◌else◌, eq→eqb, ne→eqb,
}
use tachyon.Prelude.Words.{word_mod, add64, sub64}
use tachyon.Time.{Calibrating, calibrate_turns, ticks_incr_2_hz, tsc_calibrate, calibrate_loop}

-- The counter goes on by `t` from one tick to the next, and does not wrap.
abbrev pub Steady : (ℕ → ℕ) → ℕ → Type 0
Steady tsc t =
    (0 < tsc calibrate_turns)
    × ((i : ℕ) → i < calibrate_turns → tsc i ≡ tsc (suc i) + t)
    × (tsc 0 < word_mod)

-- Before the first tick
abbrev pub uncalibrated : Calibrating
uncalibrated = record { ltsc = 0; avg = 0; turns = 0; hz = 0 }

below : (tsc : ℕ → ℕ) (t i : ℕ) → Steady tsc t → i < 9 → tsc i ≤ tsc 0
below tsc t zero s l = omega arith
below tsc t (suc i) s l = omega (arith, s.1 i (omega arith), below tsc t i s (omega arith))

above : (tsc : ℕ → ℕ) (t i k : ℕ) → Steady tsc t → i + k ≡ 8 → 0 < tsc i
above tsc t i zero s e = subst (λ (j : ℕ). 0 < tsc j) (omega arith) s.0
above tsc t i (suc k) s e =
    omega (arith, s.1 i (omega arith), above tsc t (suc i) k s (omega arith))

-- One tick when the last one was seen, and the average is not there or is that of `k` per second.
calibrate_step :
    (tsc t incr k : ℕ) (c : Calibrating)
    → 0 < c.ltsc
    → tsc ≡ c.ltsc + t
    → tsc < word_mod
    → t * (1000000 / incr) ≡ k
    → 0 < k
    → k < 9223372036854775808
    → (c.avg ≡ 0) ⊎ (c.avg ≡ k)
    → tsc_calibrate tsc incr c ≡ (
        if c.turns == calibrate_turns
        then (false, record c { avg = k; hz = k })
        else (true, record c { avg = k; turns = c.turns + 1; ltsc = tsc }))
unfolding tsc_calibrate
calibrate_step tsc t incr k c seen on fits rate pos small avg =
    rw (tsc_calibrate, ne→eqb c.ltsc 0 (omega arith), average) refl
  where
    ticks : ticks_incr_2_hz (sub64 tsc c.ltsc) incr ≡ k
    ticks =
        ap (λ (n : ℕ). n * (1000000 / incr) % word_mod) (omega arith)
        ∙ ap (λ (n : ℕ). n % word_mod) rate
        ∙ omega arith

    average :
        (if c.avg == 0
          then ticks_incr_2_hz (sub64 tsc c.ltsc) incr
          else add64 c.avg (ticks_incr_2_hz (sub64 tsc c.ltsc) incr) / 2)
        ≡ k
    average = elim avg [
      | inl none_yet ↦ rw (none_yet, ticks) refl
      | inr there ↦ rw (ticks, there, ne→eqb k 0 (omega arith)) (omega arith)
    ]

abbrev calibrated : ℕ → ℕ → Calibrating
calibrated ltsc k = record { ltsc = ltsc; avg = k; turns = calibrate_turns; hz = k }

-- The ticks when the last one was seen: `n` more come after this one.
calibrate_loop-rest :
    (n : ℕ) (tsc : ℕ → ℕ) (t incr k : ℕ) (c : Calibrating)
    → Steady tsc t
    → t * (1000000 / incr) ≡ k
    → 0 < k
    → k < 9223372036854775808
    → c.turns + n ≡ 8
    → c.ltsc ≡ tsc (suc n)
    → n < 8
    → (c.avg ≡ 0) ⊎ (c.avg ≡ k)
    → calibrate_loop (suc n) tsc incr c ≡ (false, calibrated (tsc 1) k)
unfolding calibrate_loop
calibrate_loop-rest zero tsc t incr k c s rate pos small turns last less avg =
    let step =
      calibrate_step (tsc 0) t incr k c
        (subst (λ (x : ℕ). 0 < x) (sym last) (above tsc t 1 7 s refl))
        (s.1 0 (omega arith) ∙ ap (λ (x : ℕ). x + t) (sym last)) s.2 rate pos small avg in
    rw (calibrate_loop, step, eq→eqb c.turns 8 (omega (arith, turns)))
      (ap₂ (λ (x y : ℕ). (false, record { ltsc = x; avg = k; turns = y; hz = k })) last
        (omega (arith, turns)))
calibrate_loop-rest (suc n) tsc t incr k c s rate pos small turns last less avg =
    let step =
      calibrate_step (tsc (suc n)) t incr k c
        (subst (λ (x : ℕ). 0 < x) (sym last)
          (above tsc t (suc (suc n)) (6 - n) s (omega (arith, less))))
        (s.1 (suc n) (omega (arith, less)) ∙ ap (λ (x : ℕ). x + t) (sym last))
        (omega (arith, below tsc t (suc n) s (omega (arith, less)), s.2)) rate pos small avg in
    rw (calibrate_loop, step, ne→eqb c.turns 8 (omega (arith, turns)))
      (calibrate_loop-rest n tsc t incr k
        (record c { avg = k; turns = c.turns + 1; ltsc = tsc (suc n) }) s rate pos small
        (omega (arith, turns)) refl (omega (arith, less)) (inr refl))

-- When the counter goes on by `t` from tick to tick, is not 0 at the first one and does not wrap,
-- `tsc_calibrate` ends at the ninth tick, and the frequency is exactly `t` times the number of ticks
-- in a second, rounded down, when that is not 0 and below 2 ^ 63.
pub calibrate_loop-hz :
    (tsc : ℕ → ℕ) (t incr : ℕ)
    → Steady tsc t
    → 0 < t * (1000000 / incr)
    → t * (1000000 / incr) < 9223372036854775808
    → calibrate_loop 9 tsc incr uncalibrated ≡ (
      false,
      record {
        ltsc = tsc 1;
        avg = t * (1000000 / incr);
        turns = calibrate_turns;
        hz = t * (1000000 / incr);
      },
    )
unfolding calibrate_loop tsc_calibrate
calibrate_loop-hz tsc t incr s pos small =
    calibrate_loop-rest 7 tsc t incr (t * (1000000 / incr))
      (record { ltsc = tsc 8; avg = 0; turns = 1; hz = 0 }) s refl pos small refl refl (omega arith)
      (inl refl)
