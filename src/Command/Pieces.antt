-- ===== src/Command/Pieces.antt =====
-- The pieces of the kernel command line (src/mboot.c).
use tachyon.Prelude.{
  ℕ, ◌≤◌, ◌<◌, ◌≡◌, refl, sym, ap, ◌∙◌, ◌≢◌, inl, inr, Bool, true, false, not, List, [], ◌∷◌, ◌++◌,
  arith, ◌==◌, if◌then◌else◌, eq→eqb, ne→eqb, Bool-cases, length,
}
use tachyon.Text.{Text, isspace}
use tachyon.Command.{quote, walk_loop, command_pieces}

abbrev pub joined : List Text → Text
joined [] = []
joined (p ∷ ps) = p ++ joined ps

-- A text without quotes or white space, but for its first character
abbrev pub IsPlain : Text → Type 0
IsPlain [] = 0 ≤ 0
IsPlain (c ∷ s) = (c ≢ quote) × (isspace c ≡ false) × IsPlain s

append_nil : (s : Text) → s ++ [] ≡ s
append_nil [] = refl
append_nil (c ∷ s) = ap (λ (t : Text). c ∷ t) (append_nil s)

append_assoc : (s t u : Text) → (s ++ t) ++ u ≡ s ++ (t ++ u)
append_assoc [] t u = refl
append_assoc (c ∷ s) t u = ap (λ (v : Text). c ∷ v) (append_assoc s t u)

-- The last piece
last_piece : (base : Text) → joined (if length base == 0 then [] else base ∷ []) ≡ base
last_piece [] = refl
last_piece (c ∷ s) = rw (ne→eqb (length (c ∷ s)) 0 (omega arith)) (append_nil (c ∷ s))

-- What a round makes of the pieces, given the rounds behind it.
abbrev round_pieces : ℕ → Text → Bool → Bool → Bool → Text → List Text
round_pieces c walk opens space in_quotes base =
    if opens
    then walk_loop walk true (base ++ (c ∷ []))
    else if space
    then if not in_quotes
      then base ∷ walk_loop walk in_quotes (c ∷ [])
      else walk_loop walk in_quotes (base ++ (c ∷ []))
    else walk_loop walk in_quotes (base ++ (c ∷ []))

round-joined :
    (c : ℕ) (walk : Text) (opens space q : Bool) (base : Text)
    → ((r : Bool) (b : Text) → joined (walk_loop walk r b) ≡ b ++ walk)
    → joined (round_pieces c walk opens space q base) ≡ base ++ c ∷ walk
round-joined c walk true space q base h =
    h true (base ++ (c ∷ [])) ∙ append_assoc base (c ∷ []) walk
round-joined c walk false true true base h =
    h true (base ++ (c ∷ [])) ∙ append_assoc base (c ∷ []) walk
round-joined c walk false true false base h = ap (λ (t : Text). base ++ t) (h false (c ∷ []))
round-joined c walk false false q base h = h q (base ++ (c ∷ [])) ∙ append_assoc base (c ∷ []) walk

walk_loop-joined :
    (walk : Text) (in_quotes : Bool) (base : Text)
    → joined (walk_loop walk in_quotes base) ≡ base ++ walk
unfolding walk_loop
walk_loop-joined [] in_quotes base = last_piece base ∙ sym (append_nil base)
walk_loop-joined (c ∷ walk) in_quotes base =
    round-joined c walk (c == quote) (isspace c) in_quotes base (walk_loop-joined walk)

-- A text without an opening quote
abbrev pub NoQuote : Text → Type 0
NoQuote [] = 0 ≤ 0
NoQuote (c ∷ s) = (c ≢ quote) × NoQuote s

-- White space stands at the start of a piece only.
abbrev pub IsPiece : Text → Type 0
IsPiece [] = 0 ≤ 0
IsPiece (c ∷ s) = IsPlain s

abbrev pub AllPieces : List Text → Type 0
AllPieces [] = 0 ≤ 0
AllPieces (p ∷ ps) = IsPiece p × AllPieces ps

IsPlain-append :
    (s : Text) (c : ℕ) → IsPlain s → c ≢ quote → isspace c ≡ false → IsPlain (s ++ (c ∷ []))
IsPlain-append [] c plain ne letter = (ne, letter, omega arith)
IsPlain-append (d ∷ s) c (nd, sd, plain) ne letter = (nd, sd, IsPlain-append s c plain ne letter)

IsPiece-append :
    (s : Text) (c : ℕ) → IsPiece s → c ≢ quote → isspace c ≡ false → IsPiece (s ++ (c ∷ []))
IsPiece-append [] c piece ne letter = omega arith
IsPiece-append (d ∷ s) c piece ne letter = IsPlain-append s c piece ne letter

last-AllPieces :
    (base : Text) → IsPiece base → AllPieces (if length base == 0 then [] else base ∷ [])
last-AllPieces [] piece = omega arith
last-AllPieces (c ∷ s) piece = rw (ne→eqb (length (c ∷ s)) 0 (omega arith)) (piece, omega arith)

walk_loop-AllPieces :
    (walk base : Text) → NoQuote walk → IsPiece base → AllPieces (walk_loop walk false base)
unfolding walk_loop
walk_loop-AllPieces [] base none_opens piece = last-AllPieces base piece
walk_loop-AllPieces (c ∷ walk) base (ne, none_opens) piece = elim (Bool-cases (isspace c)) [
  | inl space ↦
      rw (ne→eqb c quote ne, space)
        (piece, walk_loop-AllPieces walk (c ∷ []) none_opens (omega arith))
  | inr letter ↦
      rw (ne→eqb c quote ne, letter)
        (walk_loop-AllPieces walk (base ++ (c ∷ [])) none_opens
          (IsPiece-append base c piece ne letter))
]

-- A command line without quotes is cut at its white space: the pieces give the text again when they are joined, and
-- white space stands only at the start of a piece.
pub command_pieces-joined :
    (t : Text) → NoQuote t → (joined (command_pieces t) ≡ t) × AllPieces (command_pieces t)
unfolding command_pieces
command_pieces-joined t none_opens =
    (walk_loop-joined t false [], walk_loop-AllPieces t [] none_opens (omega arith))

longer : (b : Text) (c : ℕ) → 0 < length (b ++ (c ∷ []))
longer [] c = omega arith
longer (d ∷ s) c = omega arith

-- Behind an opening quote, nothing is cut any more.
walk_loop_quoted :
    (walk base : Text) → 0 < length base → walk_loop walk true base ≡ (base ++ walk) ∷ []
unfolding walk_loop
walk_loop_quoted [] base some_text =
    rw (ne→eqb (length base) 0 (omega arith)) (ap (λ (t : Text). t ∷ []) (sym (append_nil base)))
walk_loop_quoted (c ∷ walk) base some_text = round_quoted (c == quote) (isspace c) (
    walk_loop_quoted walk (base ++ (c ∷ [])) (longer base c)
    ∙ ap (λ (t : Text). t ∷ []) (append_assoc base (c ∷ []) walk))
  where
    round_quoted :
        (opens space : Bool)
        → walk_loop walk true (base ++ (c ∷ [])) ≡ (base ++ c ∷ walk) ∷ []
        → round_pieces c walk opens space true base ≡ (base ++ c ∷ walk) ∷ []
    round_quoted true space e = e
    round_quoted false true e = e
    round_quoted false false e = e

walk_loop_opened :
    (s t base : Text)
    → IsPlain s
    → walk_loop (s ++ quote ∷ t) false base ≡ (base ++ (s ++ quote ∷ t)) ∷ []
unfolding walk_loop
walk_loop_opened [] t base plain = rw (eq→eqb quote quote refl) (
    walk_loop_quoted t (base ++ (quote ∷ [])) (longer base quote)
    ∙ ap (λ (u : Text). u ∷ []) (append_assoc base (quote ∷ []) t))
walk_loop_opened (c ∷ s) t base (ne, letter, plain) =
    rw (ne→eqb c quote ne, letter)
      (walk_loop_opened s t (base ++ (c ∷ [])) plain
        ∙ ap (λ (u : Text). u ∷ []) (append_assoc base (c ∷ []) (s ++ quote ∷ t)))

-- Quotes are never closed: a command line with a quote is not cut any more from the piece of the quote on, closing
-- quotes and white space included. Here `s` is the text before the quote, without white space.
pub command_pieces-quote :
    (s t : Text) → IsPlain s → command_pieces (s ++ quote ∷ t) ≡ (s ++ quote ∷ t) ∷ []
unfolding command_pieces
command_pieces-quote s t plain = walk_loop_opened s t [] plain
