-- ===== src/Log.antt =====
-- src/log.c: numbers to text and back, the format scanner, and the table of destinations. A buffer
-- is the list of the characters written to it; writing behind its end, reading behind the format's
-- terminator, and an argument of the wrong kind are faults.
pub mod Digits
pub mod Format
pub mod Writers
mod Tests
use tachyon.Prelude.{
  ℕ, zero, suc, ◌+◌, ◌-◌, ◌*◌, ◌/◌, ◌%◌, Bool, ◌&&◌, [], ◌∷◌, ◌++◌, ltb, leb, ◌==◌, if◌then◌else◌,
  length, replicate,
}
use tachyon.Text.{Text}

-- `fatal` is the call of that name, and `no_fuel` a loop that would go on.
pub data Outcome {ℓ} (A : Type ℓ) : Type ℓ where
  done : A → Outcome A
  fatal : Outcome A
  fault : Outcome A
  no_fuel : Outcome A

abbrev pub and_then {ℓ κ} : {A : Type ℓ} {B : Type κ} → Outcome A → (A → Outcome B) → Outcome B
and_then (done a) k = k a
and_then fatal k = fatal
and_then fault k = fault
and_then no_fuel k = no_fuel

-- `(rem < 10) ? rem + '0' : rem + 'a' - 10` in a `char`
abbrev pub digit_char : ℕ → ℕ
digit_char rem = (if ltb rem 10 then rem + 48 else rem + 87) % 256

-- `do { … } while(number /= base)`, from the lowest digit on
pub digit_loop : ℕ → ℕ → ℕ → Outcome Text
digit_loop zero number base = no_fuel
digit_loop (suc fuel) number base =
    let more = digit_loop fuel (number / base) base in
    let digit = digit_char (number % base) in
    if number / base == 0 then done (digit ∷ []) else and_then more (λ ds. done (digit ∷ ds))

abbrev pub fill_up : Text → ℕ → ℕ → Text
fill_up ds fill width = if fill == 0 then ds else ds ++ replicate (width - length ds) fill

-- The swaps from both ends turn the buffer round.
pub reversed : Text → Text
reversed [] = []
reversed (c ∷ s) = reversed s ++ c ∷ []

-- Each round halves a number below 2 ^ 64 at least, unless the base is 1.
pub log_format_u : ℕ → ℕ → ℕ → ℕ → Outcome Text
unfolding digit_loop reversed
log_format_u number base fill width =
    if base == 0
    then fatal
    else and_then (digit_loop 64 number base) (λ ds. done (reversed (fill_up ds fill width)))

-- The number is an `intmax_t` in two's complement.
pub log_format_s : ℕ → ℕ → ℕ → ℕ → Outcome Text
unfolding log_format_u
log_format_s number base fill width =
    if leb 9223372036854775808 number
    then and_then (log_format_u (18446744073709551616 - number) base fill width)
        (λ s. done (45 ∷ s))
    else log_format_u number base fill width

abbrev pub is_digit : ℕ → Bool
is_digit c = leb 48 c && leb c 57

-- `val *= 10; val += *str - '0'; ++str;`
pub parse_loop : ℕ → Text → ℕ
parse_loop val [] = val
parse_loop val (c ∷ str) =
    let rest =
      parse_loop (((val * 10) % 18446744073709551616 + (c - 48)) % 18446744073709551616) str in
    if is_digit c then rest else val

pub log_parse_number : Text → ℕ
unfolding parse_loop
log_parse_number str = parse_loop 0 str
