-- ===== src/RamDisk/Bytes.antt =====
-- The headers of src/rd.h as bytes, and how they are read back.
use tachyon.Prelude.{
  ℕ, zero, suc, ◌/◌, ◌%◌, ◌≤◌, ◌<◌, ◌≡◌, refl, ap, ◌≢◌, inl, inr, Option, none, some, List, [], ◌∷◌,
  ◌++◌, arith, ◌==◌, if◌then◌else◌, ne→eqb, Bool-cases, length, take, drop, replicate,
  length-append, length-take, All,
}
use tachyon.Text.{Text}
use tachyon.RamDisk.{
  RdFile, rd_magic, sizeof_header, sizeof_file, sizeof_name, from_bytes, strrchr, basename,
  padded_name, header_bytes, file_bytes, file_header, text_of, word_at, file_of,
}

pub drop-length {ℓ} : {A : Type ℓ} (xs ys : List A) → drop (length xs) (xs ++ ys) ≡ ys
drop-length [] ys = refl
drop-length (x ∷ xs) ys = drop-length xs ys

pub take-length {ℓ} : {A : Type ℓ} (xs ys : List A) → take (length xs) (xs ++ ys) ≡ xs
take-length [] ys = refl
take-length (x ∷ xs) ys = ap (◌∷◌ x) (take-length xs ys)

-- A number is read back from its bytes.
from_bytes-to_bytes :
    (n : ℕ)
    → n < 4294967296
    → from_bytes (n % 256) (n / 256 % 256) (n / 65536 % 256) (n / 16777216 % 256) ≡ n
from_bytes-to_bytes n h = omega arith

-- The fields of a header fit into their bytes.
abbrev pub Fits : RdFile → Type 0
Fits f = (f.hdr_size < 4294967296) × (f.start < 4294967296) × (f.size < 4294967296)

pub file_of-file_bytes : (f : RdFile) → Fits f → file_of (file_bytes f) ≡ f
unfolding file_of file_bytes
file_of-file_bytes f (a, b, c) =
    rw
      (
        from_bytes-to_bytes f.hdr_size a,
        from_bytes-to_bytes f.start b,
        from_bytes-to_bytes f.size c,
      )
      refl

pub word_at-header :
    (n : ℕ)
    → n < 4294967296
    → (word_at (header_bytes n) 0 ≡ rd_magic)
      × (word_at (header_bytes n) 4 ≡ sizeof_header)
      × (word_at (header_bytes n) 8 ≡ n)
unfolding header_bytes
word_at-header n h = (refl, refl, from_bytes-to_bytes n h)

pub length-header_bytes : (n : ℕ) → length (header_bytes n) ≡ sizeof_header
unfolding header_bytes
length-header_bytes n = refl

-- The characters of a text are not zero.
abbrev pub IsText : Text → Type 0
IsText s = All (λ c. c ≢ 0) s

text_of-padded :
    (s : Text) (k m : ℕ) → IsText s → length s < k → text_of (take k (s ++ replicate (suc m) 0)) ≡ s
text_of-padded s zero m h l = absurd (omega arith)
text_of-padded [] (suc k) m h l = refl
text_of-padded (c ∷ s) (suc k) m h l =
    rw (ne→eqb c 0 h.0) (ap (◌∷◌ c) (text_of-padded s k m h.1 (omega arith)))

pub text_of-padded_name :
    (s : Text) → IsText s → length s < sizeof_name → text_of (padded_name s) ≡ s
text_of-padded_name s h l = text_of-padded s sizeof_name 63 h l

pub length-padded_name : (s : Text) → length (padded_name s) ≡ sizeof_name
length-padded_name s =
    length-take sizeof_name (s ++ replicate sizeof_name 0)
      (omega (arith, length-append s (replicate sizeof_name 0)))

-- What stands behind the last slash is a text, and no longer.
Suffix : Text → Option Text → Type 0
Suffix s none = Unit
Suffix s (some t) = IsText t × (length t ≤ length s)

strrchr-Suffix : (s : Text) (c : ℕ) → IsText s → Suffix s (strrchr s c)
unfolding Suffix
strrchr-Suffix [] c h = tt
strrchr-Suffix (x ∷ s) c h = longer (strrchr s c) (strrchr-Suffix s c h.1)
  where
    longer :
        (o : Option Text)
        → Suffix s o
        → Suffix (x ∷ s) (elim o [ some t ↦ some t | none ↦ if x == c then some (x ∷ s) else none ])
    longer (some t) (is_text, le) = (is_text, omega arith)
    longer none u = elim (Bool-cases (x == c)) [
      | inl here ↦ rw here ((h, omega arith))
      | inr away ↦ rw away tt
    ]

pub basename-IsText : (s : Text) → IsText s → IsText (basename s) × (length (basename s) ≤ length s)
unfolding Suffix
basename-IsText s h = cut (strrchr s 47) (strrchr-Suffix s 47 h)
  where
    cut :
        (o : Option Text)
        → Suffix s o
        → IsText (elim o [ some t ↦ drop 1 t | none ↦ s ])
          × (length (elim o [ some t ↦ drop 1 t | none ↦ s ]) ≤ length s)
    cut none u = (h, omega arith)
    cut (some []) f = (tt, omega arith)
    cut (some (x ∷ t)) f = (f.0.1, omega (arith, f.1))

pub length-file_bytes :
    (pos size : ℕ) (path : Text) → length (file_bytes (file_header pos size path)) ≡ sizeof_file
unfolding file_bytes
length-file_bytes pos size path = omega (arith, length-padded_name (basename path))
