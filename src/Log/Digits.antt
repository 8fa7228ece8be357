-- ===== src/Log/Digits.antt =====
-- The digits that `log_format_u` of src/log.c writes, and what `log_parse_number` reads from them.
use tachyon.Prelude.{
  ℕ, zero, suc, ◌+◌, ◌-◌, ◌*◌, ◌/◌, ◌%◌, ◌≤◌, ◌<◌, ◌≡◌, refl, ap, ◌∙◌, ◌≢◌, inl, inr, true, [], ◌∷◌,
  ◌++◌, arith, eq→eqb, ne→eqb, lt-or-ge, length, replicate, length-append, All,
}
use tachyon.Text.{Text}
use tachyon.Log.{
  Outcome, done, fatal, fault, no_fuel, and_then, digit_char, digit_loop, fill_up, reversed,
  log_format_u, is_digit, parse_loop, log_parse_number,
}

abbrev pub pow2 : ℕ → ℕ
pow2 zero = 1
pow2 (suc k) = 2 * pow2 k

abbrev pub AllDigits : Text → Type 0
AllDigits = All λ c. is_digit c ≡ true

parse_loop-snoc :
    (s : Text) (val c : ℕ)
    → All (λ d. is_digit d ≡ true) s
    → is_digit c ≡ true
    → parse_loop val (s ++ c ∷ []) ≡ (parse_loop val s * 10 + (c - 48)) % 18446744073709551616
unfolding parse_loop
parse_loop-snoc [] val c hs hc = rw hc (omega arith)
parse_loop-snoc (d ∷ s) val c hs hc = rw (hs.0) (parse_loop-snoc s _ c hs.1 hc)

AllDigits-append :
    (s : Text) (c : ℕ)
    → All (λ d. is_digit d ≡ true) s
    → is_digit c ≡ true
    → All (λ d. is_digit d ≡ true) (s ++ c ∷ [])
AllDigits-append [] c hs hc = (hc, tt)
AllDigits-append (d ∷ s) c hs hc = (hs.0, AllDigits-append s c hs.1 hc)

digit_char-is_digit : (r : ℕ) → r < 10 → is_digit (digit_char r) ≡ true
digit_char-is_digit r h = ground arith

digit_char-value : (r : ℕ) → r < 10 → digit_char r - 48 ≡ r
digit_char-value r h = ground arith

-- With room for its digits, the loop ends, and its digits read backwards give the number.
abbrev Reads : ℕ → Outcome Text → Type 0
Reads n (done ds) = All (λ d. is_digit d ≡ true) (reversed ds) × (parse_loop 0 (reversed ds) ≡ n)
Reads n _ = ⊥

Reads-step :
    (n : ℕ) (o : Outcome Text)
    → n < 18446744073709551616
    → Reads (n / 10) o
    → Reads n (and_then o (λ ds. done (digit_char (n % 10) ∷ ds)))
unfolding reversed
Reads-step n (done ds) wide (all, value) =
    let r = n % 10 in
    let small : r < 10 = omega arith in
    (
      AllDigits-append (reversed ds) (digit_char r) all (digit_char-is_digit r small),
      parse_loop-snoc (reversed ds) 0 (digit_char r) all (digit_char-is_digit r small)
          ∙ omega (arith, value, digit_char-value r small),
    )
Reads-step n fatal wide h = h
Reads-step n fault wide h = h
Reads-step n no_fuel wide h = h

digit_loop-Reads :
    (k n : ℕ) → n < pow2 (suc k) → n < 18446744073709551616 → Reads n (digit_loop (suc k) n 10)
unfolding digit_loop reversed parse_loop
digit_loop-Reads zero n small wide =
    rw (eq→eqb (n / 10) 0 (omega arith))
      ((digit_char-is_digit (n % 10) (omega arith), tt), ground arith)
digit_loop-Reads (suc k) n small wide = elim (lt-or-ge n 10) [
  | inl one ↦
      rw (eq→eqb (n / 10) 0 (omega arith))
        ((digit_char-is_digit (n % 10) (omega arith), tt), ground arith)
  | inr more ↦ rw (ne→eqb (n / 10) 0 (λ e. omega arith)) (
      Reads-step n (digit_loop (suc k) (n / 10) 10) wide
        (digit_loop-Reads k (n / 10) (omega arith) (omega arith)))
]

-- For every number below 2 ^ 64, `log_format_u` in base 10 without a fill character ends with a text of
-- decimal digits, and `log_parse_number` of that text is the number.
pub log_parse_number-log_format_u :
    (n width : ℕ)
    → n < 18446744073709551616
    → (s : Text) × (log_format_u n 10 0 width ≡ done s) × AllDigits s × (log_parse_number s ≡ n)
unfolding log_format_u log_parse_number
log_parse_number-log_format_u n width wide =
    found (digit_loop 64 n 10) (digit_loop-Reads 63 n wide wide)
  where
    found :
        (o : Outcome Text)
        → Reads n o
        → (s : Text) × (and_then o (λ ds. done (reversed ds)) ≡ done s)
          × AllDigits s
          × (parse_loop 0 s ≡ n)
    found (done ds) (all, value) = (reversed ds, refl, all, value)
    found fatal h = absurd h
    found fault h = absurd h
    found no_fuel h = absurd h

length-reversed : (s : Text) → length (reversed s) ≡ length s
unfolding reversed
length-reversed [] = refl
length-reversed (c ∷ s) = omega (arith, length-append (reversed s) (c ∷ []), length-reversed s)

length-replicate : (k c : ℕ) → length (replicate k c) ≡ k
length-replicate zero c = refl
length-replicate (suc k) c = ap suc (length-replicate k c)

fill_up_wide :
    (ds : Text) (fill width : ℕ) → fill ≢ 0 → width ≤ length (reversed (fill_up ds fill width))
fill_up_wide ds fill width ne =
    rw (length-reversed, ne→eqb fill 0 ne)
      (omega (
        arith,
        length-append ds (replicate (width - length ds) fill),
        length-replicate (width - length ds) fill,
      ))

-- With a fill character, `log_format_u` in base 10 writes at least `width` characters.
pub log_format_u_wide :
    (n fill width : ℕ)
    → n < 18446744073709551616
    → fill ≢ 0
    → (s : Text) × (log_format_u n 10 fill width ≡ done s) × (width ≤ length s)
unfolding log_format_u
log_format_u_wide n fill width wide ne =
    found (digit_loop 64 n 10) (digit_loop-Reads 63 n wide wide)
  where
    found :
        (o : Outcome Text)
        → Reads n o
        → (s : Text) × (and_then o (λ ds. done (reversed (fill_up ds fill width))) ≡ done s)
          × (width ≤ length s)
    found (done ds) h = (reversed (fill_up ds fill width), refl, fill_up_wide ds fill width ne)
    found fatal h = absurd h
    found fault h = absurd h
    found no_fuel h = absurd h
