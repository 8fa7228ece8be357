-- ===== src/Log/Format/Cut.antt =====
-- What `log_format_message` of src/log.c writes, and when that fits into the buffer.
use tachyon.Prelude.{
  ℕ, zero, suc, ◌+◌, ◌-◌, ◌≤◌, ◌≡◌, refl, ◌⊎◌, none, some, List, [], ◌∷◌, ◌++◌, arith, ◌==◌,
  if◌then◌else◌, length, drop, replicate,
}
use tachyon.Text.{Text}
use tachyon.Log.{Outcome, done, fatal, fault, no_fuel, and_then}
use tachyon.Log.Format.{Arg, Cursor, directive, convert}

-- What is written of a conversion behind `q` characters: its text without the first `q` + 1 characters,
-- and blanks up to the width, which count from `q` if the text is shorter.
abbrev pub shadowed : ℕ → Text → ℕ → Text
shadowed q s width = drop (q + 1) s ++ replicate (width - length s - (q - length s)) 32

abbrev pub render_rest : Cursor → (Text → Outcome Text) → Outcome Text
render_rest none later = fault
render_rest (some f) later = later f

-- What is written of a format behind `q` characters, without a bound.
unfoldable pub render : ℕ → ℕ → Text → List Arg → Outcome Text
render zero q fmt args = no_fuel
render (suc fuel) q [] args = done []
render (suc fuel) q (c ∷ fmt) args =
    if c == 37
    then and_then (convert (directive fmt) args) (λ (s, args').
      let t = shadowed q s (directive fmt).width in
      and_then (render_rest (directive fmt).rest (λ f. render fuel (q + length t) f args'))
        (λ u. done (t ++ u)))
    else and_then (render fuel (q + 1) fmt args) (λ u. done (c ∷ u))

length-replicate : (n c : ℕ) → length (replicate n c) ≡ n
length-replicate zero c = refl
length-replicate (suc n) c = omega (arith, length-replicate n c)

-- Where what is to be written is `t`, the loop that has written `buf` ends with both, or stops with no
-- room left, since both have none.
abbrev pub Writes : ℕ → Text → Outcome Text → Outcome Text → Type 0
Writes len buf (done t) o =
    (o ≡ done (buf ++ t))
    ⊎ ((b : Text) × (o ≡ done b) × (len ≤ length b) × (len ≤ length (buf ++ t)))
Writes len buf fatal o = Unit
Writes len buf fault o = Unit
Writes len buf no_fuel o = Unit
