-- ===== src/Log/Format/Temp.antt =====
-- The buffer for one number in `log_format_message` of src/log.c.
use tachyon.Prelude.{
  ℕ, ◌+◌, ◌<◌, ◌≡◌, refl, Bool, true, false, List, ◌∷◌, arith, leb, if◌then◌else◌, length,
}
use tachyon.Log.{fault}
use tachyon.Log.Digits.{log_format_u_wide}
use tachyon.Log.Format.{Arg, number, Cursor, uint32, convert}

below :
    (n : ℕ) (lng : Bool)
    → n < 18446744073709551616
    → (if lng then n else uint32 n) < 18446744073709551616
below n true h = h
below n false h = omega arith

too_long : (k : ℕ) → 31 < k → leb (0 + k + 1) 32 ≡ false
too_long k h = ground arith

-- A conversion `u` with a width of 32 or more writes behind the end of `temp`, whatever the number.
pub convert_overflow :
    (width n : ℕ) (lng : Bool) (rest : Cursor) (args : List Arg)
    → 31 < width
    → n < 18446744073709551616
    → convert (record { width = width; lng = lng; conversion = 117; rest = rest }) (number n ∷ args)
      ≡ fault
unfolding convert
convert_overflow width n lng rest args wide small =
    let value = if lng then n else uint32 n in
    let (s, e, long) = log_format_u_wide value 32 width (below n lng small) (omega arith) in
    let out : leb (0 + length s + 1) 32 ≡ false = too_long (length s) (omega arith) in
    rw e (rw out refl)
