-- ===== src/Log/Format.antt =====
-- `log_format_message` of src/log.c: the format scanner. The buffer `temp` has 32 characters.
pub mod Cut
pub mod Temp
use tachyon.Prelude.{
  ℕ, zero, suc, ◌+◌, ◌-◌, ◌%◌, Bool, true, false, ◌||◌, Option, none, some, List, [], ◌∷◌, ◌++◌,
  ltb, leb, ◌==◌, if◌then◌else◌, length,
}
use tachyon.Text.{Text}
use tachyon.Log.{
  Outcome, done, fatal, fault, no_fuel, and_then, log_format_u, log_format_s, is_digit,
  log_parse_number,
}

-- What `va_arg` finds: an integer of 64 bits, of which a shorter type takes the low ones, or a string
-- pointer, which may be NULL.
pub data Arg : Type 0 where
  number : ℕ → Arg
  str : Option Text → Arg

-- The pointer `fmt`; `none` is behind the terminator.
abbrev pub Cursor : Type 0
Cursor = Option Text

-- `c = *fmt++`. Behind the terminator nothing is read any more.
abbrev pub fetch : Cursor → ℕ × Cursor
fetch none = (0, none)
fetch (some []) = (0, none)
fetch (some (c ∷ fmt)) = (c, some fmt)

-- `while(c >= '0' && c <= '9') { c = *fmt++; }`
unfoldable pub skip_digits : ℕ → Text → ℕ × Cursor
skip_digits c [] = if is_digit c then (0, none) else (c, some [])
skip_digits c (d ∷ fmt) =
    let later = skip_digits d fmt in if is_digit c then later else (c, some (d ∷ fmt))

-- Width, `lng`, the conversion character, and where the format goes on.
pub record Directive : Type 0 where
  pub width : ℕ
  pub lng : Bool
  pub conversion : ℕ
  pub rest : Cursor

-- `if(c == 'l') { lng = true; c = *fmt++; }`
abbrev pub long_switch : ℕ → ℕ × Cursor → Directive
long_switch width (c, fmt) =
    if c == 108
    then record { width = width; lng = true; conversion = (fetch fmt).0; rest = (fetch fmt).1 }
    else record { width = width; lng = false; conversion = c; rest = fmt }

-- What stands behind a `%`. The width is a `uint32_t`.
unfoldable pub directive : Text → Directive
unfolding skip_digits log_parse_number
directive [] = long_switch 0 (0, none)
directive (c ∷ fmt) =
    if is_digit c
    then long_switch (log_parse_number (c ∷ fmt) % 4294967296) (skip_digits c fmt)
    else long_switch 0 (c, some fmt)

-- `int32_t` and `uint32_t` widened to 64 bits
abbrev pub int32 : ℕ → ℕ
int32 n = let low = n % 4294967296 in if leb 2147483648 low then low + 18446744069414584320 else low

abbrev pub uint32 : ℕ → ℕ
uint32 n = n % 4294967296

-- DO_NUMBER writes the text and its terminator to `temp`, behind what is there.
abbrev pub in_temp : ℕ → Outcome Text → Outcome Text
in_temp before o = and_then o (λ s. if leb (before + length s + 1) 32 then done s else fault)

-- The next argument, as a number or as a string.
abbrev pub va_number : List Arg → (ℕ → Outcome Text) → Outcome (Text × List Arg)
va_number (number n ∷ args) k = and_then (k n) (λ s. done (s, args))
va_number _ k = fault

abbrev pub null_text : Text
null_text = 40 ∷ 110 ∷ 117 ∷ 108 ∷ 108 ∷ 41 ∷ []

abbrev pub va_string : List Arg → Outcome (Text × List Arg)
va_string (str (some s) ∷ args) = done (s, args)
va_string (str none ∷ args) = done (null_text, args)
va_string _ = fault

-- "(unknown format)"
abbrev pub unknown_text : Text
unknown_text =
    40 ∷ 117 ∷ 110 ∷ 107 ∷ 110 ∷ 111 ∷ 119 ∷ 110 ∷ 32 ∷ 102 ∷ 111 ∷ 114 ∷ 109 ∷ 97 ∷ 116 ∷ 41 ∷ []

-- `temp[0] = c; temp[1] = 0;`, so the character 0 gives the empty text.
abbrev pub char_text : ℕ → Text
char_text n = if n % 256 == 0 then [] else (n % 256) ∷ []

-- The switch on the conversion character: i or d, u, x, p, c, s.
unfoldable pub convert : Directive → List Arg → Outcome (Text × List Arg)
unfolding log_format_s log_format_u
convert d args =
    if (d.conversion == 105) || (d.conversion == 100)
    then va_number args (λ n. in_temp 0 (log_format_s (if d.lng then n else int32 n) 10 32 d.width))
    else if d.conversion == 117
    then va_number args
        (λ n. in_temp 0 (log_format_u (if d.lng then n else uint32 n) 10 32 d.width))
    else if d.conversion == 120
    then va_number args
        (λ n. in_temp 0 (log_format_u (if d.lng then n else uint32 n) 16 48 d.width))
    else if d.conversion == 112
    then va_number args
        (λ n. and_then (in_temp 2 (log_format_u n 16 48 16)) (λ s. done (48 ∷ 120 ∷ s)))
    else if d.conversion == 99
    then va_number args (λ n. done (char_text n))
    else if d.conversion == 115
    then va_string args
    else done (unknown_text, args)

-- CHECKED_APPEND, with the variable `len` that is in scope where it stands
abbrev pub checked_append : ℕ → Text → ℕ → Text
checked_append len buf c = if ltb (length buf) len then buf ++ c ∷ [] else buf

-- `while(*append) { CHECKED_APPEND(*append++); len++; }`, where `len` is the counter of the block, which
-- hides the length of the buffer.
pub append_all : ℕ → Text → Text → Text
append_all len buf [] = buf
append_all len buf (c ∷ s) = append_all (len + 1) (checked_append len buf c) s

-- `while(len++ < width) { CHECKED_APPEND(' '); }` with the rounds left
pub pad_all : ℕ → ℕ → Text → Text
pad_all zero len buf = buf
pad_all (suc k) len buf = pad_all k (len + 1) (checked_append (len + 1) buf 32)

-- The block behind the label `string`
pub padded : Text → Text → ℕ → Text
unfolding append_all pad_all
padded buf s width = pad_all (width - length s) (length s) (append_all 0 buf s)

-- `if((size_t)(p - buf) >= len) break;`, and the later rounds. None of them may start behind the
-- terminator.
abbrev pub go_on : ℕ → Text → Cursor → (Text → Outcome Text) → Outcome Text
go_on len buf none later = if leb len (length buf) then done buf else fault
go_on len buf (some fmt) later =
    let more = later fmt in if leb len (length buf) then done buf else more

-- `while((c = *fmt++) != 0)`; each round passes a character.
pub message_loop : ℕ → ℕ → Text → Text → List Arg → Outcome Text
unfolding directive convert padded
message_loop zero len buf fmt args = no_fuel
message_loop (suc fuel) len buf [] args = done buf
message_loop (suc fuel) len buf (c ∷ fmt) args =
    if c == 37
    then and_then (convert (directive fmt) args) (λ (s, args').
      let buf' = padded buf s (directive fmt).width in
      go_on len buf' (directive fmt).rest (λ f. message_loop fuel len buf' f args'))
    else (let buf' = checked_append len buf c in
        go_on len buf' (some fmt) (λ f. message_loop fuel len buf' f args))

-- All that is written to the buffer, which has `len` bytes, the terminator too. What is written only
-- grows, so a write behind the buffer, of a character or of the terminator, shows at the end.
pub log_format_message : ℕ → Option Text → List Arg → Outcome (List ℕ)
unfolding message_loop
log_format_message len none args = fatal
log_format_message len (some fmt) args =
    and_then (message_loop (suc (length fmt)) len [] fmt args)
      (λ buf. if ltb (length buf) len then done (buf ++ 0 ∷ []) else fault)
