-- ===== src/Text/Search.antt =====
-- What `strstr` finds, and what `strrstr` does not (src/string.c).
use tachyon.Prelude.{
  ℕ, zero, suc, ◌<◌, ◌≡◌, refl, sym, ap, ◌∙◌, ◌≢◌, inl, inr, Bool, true, ◌&&◌, Option, none, some,
  [], ◌∷◌, arith, ◌==◌, Bool-cases, length, take, drop,
}
use tachyon.Text.{
  Text, IsText, peek, Sign, minus, equal, plus, strncmp, strlen, is_equal, strstr_loop, strstr,
  strrstr,
}
use tachyon.Text.Compare.{strncmp_iff, strlen-length}

-- `t` starts with `p`.
abbrev pub StartsWith : Text → Text → Type 0
StartsWith p t = take (length p) t ≡ p

take_self : (p : Text) → take (length p) p ≡ p
take_self [] = refl
take_self (c ∷ p) = ap (◌∷◌ c) (take_self p)

abbrev hit : Text → Text → ℕ → Bool
hit t p n = (peek t == peek p) && is_equal (strncmp t p n)

is_equal-equal : (s : Sign) → is_equal s ≡ true → s ≡ equal
unfolding is_equal
is_equal-equal minus e = cc
is_equal-equal equal e = refl
is_equal-equal plus e = cc

hit_sound : (t p : Text) → IsText t → IsText p → hit t p (strlen p) ≡ true → StartsWith p t
hit_sound t p ht hp e =
    let same : strncmp t p (strlen p) ≡ equal = is_equal-equal _ (ground arith) in
    let front : take (strlen p) t ≡ take (strlen p) p = (strncmp_iff t p (strlen p) ht hp).0 same in
    rw strlen-length at front ∙ take_self p

hit_complete :
    (t p : Text) → IsText t → IsText p → p ≢ [] → StartsWith p t → hit t p (strlen p) ≡ true
unfolding is_equal
hit_complete t [] ht hp ne e = absurd (ne refl)
hit_complete [] (c ∷ p) ht hp ne e = cc
hit_complete (d ∷ t) (c ∷ p) ht hp ne e =
    let whole : take (strlen (c ∷ p)) (c ∷ p) ≡ c ∷ p = rw strlen-length (take_self (c ∷ p)) in
    let front : take (strlen (c ∷ p)) (d ∷ t) ≡ c ∷ p = rw strlen-length e in
    let same : strncmp (d ∷ t) (c ∷ p) (strlen (c ∷ p)) ≡ equal =
      (strncmp_iff (d ∷ t) (c ∷ p) _ ht hp).1 (front ∙ sym whole) in
    ground (arith, same)

IsText-drop : (n : ℕ) (s : Text) → IsText s → IsText (drop n s)
IsText-drop zero s h = h
IsText-drop (suc n) [] h = tt
IsText-drop (suc n) (c ∷ s) h = IsText-drop n s h.1

-- A pointer that `strstr` returns points into the string, at a place where the pattern stands,
-- and the pattern stands at no earlier place.
abbrev pub IsFirst : Text → Text → ℕ → Type 0
IsFirst s p i =
    (i < length s) × StartsWith p (drop i s) × ((j : ℕ) → j < i → ¬ StartsWith p (drop j s))

abbrev pub Found : Text → Text → Option Text → Type 0
Found s p none = (j : ℕ) → j < length s → ¬ StartsWith p (drop j s)
Found s p (some t) = (i : ℕ) × (t ≡ drop i s) × IsFirst s p i

Found-later :
    (c : ℕ) (s p : Text) (o : Option Text)
    → ¬ StartsWith p (c ∷ s)
    → Found s p o
    → Found (c ∷ s) p o
Found-later c s p none miss f = later
  where
    later : (j : ℕ) → j < suc (length s) → ¬ StartsWith p (drop j (c ∷ s))
    later zero h = miss
    later (suc j) h = f j (omega arith)
Found-later c s p (some t) miss (i, e, f) = (suc i, e, (omega (arith, f.0), f.1, earlier))
  where
    earlier : (j : ℕ) → j < suc i → ¬ StartsWith p (drop j (c ∷ s))
    earlier zero h = miss
    earlier (suc j) h = f.2 j (omega arith)

strstr_loop-Found :
    (s p : Text) → IsText s → IsText p → p ≢ [] → Found s p (strstr_loop s p (strlen p))
unfolding strstr_loop
strstr_loop-Found [] p hs hp ne = λ j h. absurd (omega arith)
strstr_loop-Found (c ∷ s) p hs hp ne = elim (Bool-cases (hit (c ∷ s) p (strlen p))) [
  | inl yes' ↦
      rw yes' (0, refl, (omega arith, hit_sound (c ∷ s) p hs hp yes', λ j h. absurd (omega arith)))
  | inr no' ↦ rw no' (
      Found-later c s p _ (λ starts. cc (hit_complete (c ∷ s) p hs hp ne starts))
        (strstr_loop-Found s p hs.1 hp ne))
]

-- For strings `s` and `p` without a terminator inside, of which `p` has at least one character:
-- `strstr` returns NULL only where `p` stands nowhere in `s`, and otherwise a pointer into `s` to a
-- place where `p` stands, and `p` stands at no earlier place.
pub strstr-Found : (s p : Text) → IsText s → IsText p → p ≢ [] → Found s p (strstr s p)
unfolding strstr
strstr-Found s p hs hp ne = strstr_loop-Found s p hs hp ne

-- `strrstr` returns NULL for every string and pattern, also where the pattern stands in the string.
pub strrstr_never : (s p : Text) → strrstr s p ≡ none
unfolding strrstr
strrstr_never s p = refl
