-- ===== src/Text/Compare.antt =====
-- What `strcmp` and `strncmp` of src/string.c decide.
use tachyon.Prelude.{ℕ, zero, suc, ◌≤◌, ◌<◌, ◌≡◌, refl, ap, ◌↔◌, [], ◌∷◌, arith, length, take, All}
use tachyon.Text.{Text, IsText, Sign, minus, equal, plus, strncmp, strcmp, strncpy, strlen}

strcmp_sound : (p q : Text) → IsText p → IsText q → strcmp p q ≡ equal → p ≡ q
unfolding strcmp
strcmp_sound [] [] hp hq e = refl
strcmp_sound [] (d ∷ q) hp hq e = ground arith
strcmp_sound (c ∷ p) [] hp hq e = ground arith
strcmp_sound (c ∷ p) (d ∷ q) hp hq e = ground (arith, strcmp_sound p q hp.1 hq.1)

strcmp_self : (p : Text) → strcmp p p ≡ equal
unfolding strcmp
strcmp_self [] = refl
strcmp_self (c ∷ p) = ground (arith, strcmp_self p)

-- `strcmp` of two strings without a terminator inside returns 0 exactly where they are equal.
pub strcmp_iff : (p q : Text) → IsText p → IsText q → (strcmp p q ≡ equal) ↔ (p ≡ q)
strcmp_iff p q hp hq = (strcmp_sound p q hp hq, λ e. rw e (strcmp_self q))

abbrev pub opposite : Sign → Sign
opposite minus = plus
opposite equal = equal
opposite plus = minus

-- Exchanging the arguments of `strcmp`, two strings of bytes, turns its sign round.
pub strcmp-opposite :
    (p q : Text) → All (λ c. c < 256) p → All (λ c. c < 256) q → strcmp q p ≡ opposite (strcmp p q)
unfolding strcmp
strcmp-opposite [] [] hp hq = refl
strcmp-opposite [] (d ∷ q) hp hq = ground (arith, strcmp-opposite [] q hp hq.1)
strcmp-opposite (c ∷ p) [] hp hq = ground (arith, strcmp-opposite p [] hp.1 hq)
strcmp-opposite (c ∷ p) (d ∷ q) hp hq = ground (arith, strcmp-opposite p q hp.1 hq.1)

strncmp_sound :
    (p q : Text) (n : ℕ) → IsText p → IsText q → strncmp p q n ≡ equal → take n p ≡ take n q
unfolding strncmp
strncmp_sound p q zero hp hq e = refl
strncmp_sound [] [] (suc n) hp hq e = refl
strncmp_sound [] (d ∷ q) (suc n) hp hq e = ground arith
strncmp_sound (c ∷ p) [] (suc n) hp hq e = ground arith
strncmp_sound (c ∷ p) (d ∷ q) (suc n) hp hq e = ground (arith, strncmp_sound p q n hp.1 hq.1)

strncmp_complete : (p q : Text) (n : ℕ) → take n p ≡ take n q → strncmp p q n ≡ equal
unfolding strncmp
strncmp_complete p q zero e = refl
strncmp_complete [] [] (suc n) e = refl
strncmp_complete [] (d ∷ q) (suc n) e = cc
strncmp_complete (c ∷ p) [] (suc n) e = cc
strncmp_complete (c ∷ p) (d ∷ q) (suc n) e = ground (arith, strncmp_complete p q n)

-- `strncmp` of two strings without a terminator inside returns 0 exactly where their first `n` characters
-- agree, or all of them where a string is shorter.
pub strncmp_iff :
    (p q : Text) (n : ℕ) → IsText p → IsText q → (strncmp p q n ≡ equal) ↔ (take n p ≡ take n q)
strncmp_iff p q n hp hq = (strncmp_sound p q n hp hq, strncmp_complete p q n)

pub strlen-length : (s : Text) → strlen s ≡ length s
unfolding strlen
strlen-length [] = refl
strlen-length (c ∷ s) = ap suc (strlen-length s)

-- `strncpy` of `n` bytes, not more than the string has, writes its first `n` bytes and no terminator.
pub strncpy-take : (t : Text) (n : ℕ) → n ≤ length t → strncpy t n ≡ take n t
unfolding strncpy
strncpy-take t zero h = refl
strncpy-take [] (suc n) h = elim h [ ]
strncpy-take (c ∷ t) (suc n) h = ap (◌∷◌ c) (strncpy-take t n (omega arith))
