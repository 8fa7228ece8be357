-- ===== src/Path/RoundTrip.antt =====
-- Text to path and back (src/path.c), and the size of the buffer that `path_string` asks for.
use mathlib.Core.List.{append-nil, append_assoc}
use tachyon.Prelude.{
  ℕ, ◌+◌, ◌≡◌, refl, ap, ◌∙◌, subst, ◌≢◌, inl, inr, some, List, [], ◌∷◌, ◌++◌, map, arith, ◌==◌,
  Bool-cases, gt→leb, length, length-append, All,
}
use tachyon.Text.{Text, IsText, strncpy, strlen}
use tachyon.Text.Compare.{strlen-length}
use tachyon.Path.{
  FilePath, text, path_create, total_length, string_loop, Written, in_room, overrun, path_string,
}
use tachyon.Path.Split.{first, rest, boxed, split, path_of, path_create-split}

-- Each component behind a separator.
join : List Text → Text
join [] = []
join (t ∷ ts) = 47 ∷ (t ++ join ts)

text-append : (t : Text) (bytes : List ℕ) → IsText t → text (t ++ bytes) ≡ t ++ text bytes
unfolding text
text-append [] bytes h = refl
text-append (c ∷ t) bytes h = ground (arith, text-append t bytes h.1)

text-boxed : (t : Text) → IsText t → text (boxed t).bytes ≡ t
unfolding text
text-boxed t h = text-append t (0 ∷ []) h ∙ append-nil t

strncpy-strlen : (t : Text) → strncpy t (strlen t) ≡ t
unfolding strncpy strlen
strncpy-strlen [] = refl
strncpy-strlen (c ∷ t) = ap (◌∷◌ c) (strncpy-strlen t)

string_loop-join : (ts : List Text) → All IsText ts → string_loop (map boxed ts) ≡ join ts ++ 0 ∷ []
unfolding string_loop join strlen strncpy
string_loop-join [] h = refl
string_loop-join (t ∷ ts) h =
    rw (text-boxed t h.0, strncpy-strlen, string_loop-join ts h.1, append_assoc)

IsText-append : (s t : Text) → IsText s → IsText t → IsText (s ++ t)
IsText-append [] t hs ht = ht
IsText-append (c ∷ s) t hs ht = (hs.0, IsText-append s t hs.1 ht)

join-IsText : (ts : List Text) → All IsText ts → IsText (join ts)
unfolding join
join-IsText [] h = tt
join-IsText (t ∷ ts) h = (omega arith, IsText-append t (join ts) h.0 (join-IsText ts h.1))

join-split : (s : Text) → join (split s) ≡ 47 ∷ s
unfolding join first rest
join-split [] = refl
join-split (c ∷ s) = ground (arith, join-split s)

split-IsText : (s : Text) → IsText s → All IsText (split s)
unfolding first rest
split-IsText [] h = (tt, tt)
split-IsText (c ∷ s) h = ground (arith, split-IsText s h.1)

string_loop-text : (ts : List Text) → All IsText ts → text (string_loop (map boxed ts)) ≡ join ts
unfolding text
string_loop-text ts h =
    ap text (string_loop-join ts h)
    ∙ text-append (join ts) (0 ∷ []) (join-IsText ts h)
    ∙ append-nil (join ts)

length-join :
    (ts : List Text) → All IsText ts → length (join ts) ≡ total_length (map boxed ts) + length ts
unfolding join total_length
length-join [] h = refl
length-join (t ∷ ts) h =
    rw (text-boxed t h.0, strlen-length)
      (omega (arith, length-append t (join ts), length-join ts h.1))

-- What `path_string` writes is longer than what it asks for.
length-string_loop :
    (ts : List Text)
    → All IsText ts
    → length (string_loop (map boxed ts)) ≡ total_length (map boxed ts) + length ts + 1
length-string_loop ts h =
    rw (string_loop-join ts h) (omega (arith, length-append (join ts) (0 ∷ []), length-join ts h))

-- Of `path_string`: a write behind the bytes asked for, of the text `p` and its terminator, one byte
-- more than the path has components too many.
abbrev pub Overrun : Text → FilePath → Written → Type 0
Overrun p path (in_room b) = ⊥
Overrun p path (overrun room bytes) = (text bytes ≡ p) × (length bytes ≡ room + path.count + 1)

path_string-Overrun :
    (ts : List Text) → All IsText ts → Overrun (join ts) (path_of ts) (path_string (path_of ts))
unfolding path_string
path_string-Overrun ts h =
    let long = length-string_loop ts h in
    rw (gt→leb (length (string_loop (map boxed ts))) (total_length (map boxed ts)) (omega arith))
      (string_loop-text ts h, long)

-- When `path_create` makes a path from a text without a terminator inside, `path_string` of that path
-- writes behind the bytes that it asks for: what it writes is the text that the path was made from, and
-- its terminator, and of these bytes as many are behind the buffer as the path has components, and one.
pub path_string-path_create :
    (p : Text) (path : FilePath)
    → IsText p
    → path_create p ≡ some path
    → Overrun p path (path_string path)
path_string-path_create [] path h e = cc (path_create-split [])
path_string-path_create (c ∷ q) path h e = elim (Bool-cases (c == 47)) [
  | inl hit ↦
      let made : path_of (split q) ≡ path = ground (arith, path_create-split (c ∷ q)) in
      let same : join (split q) ≡ c ∷ q = join-split q ∙ ap (λ (x : ℕ). x ∷ q) (ground arith) in
      subst (λ (x : FilePath). Overrun (c ∷ q) x (path_string x)) made
        (subst (λ (t : Text). Overrun t (path_of (split q)) (path_string (path_of (split q)))) same
          (path_string-Overrun (split q) (split-IsText q h.1)))
  | inr miss ↦ cc (path_create-split (c ∷ q), miss)
]

-- A component without separator and terminator.
abbrev pub IsComponent : Text → Type 0
IsComponent = All λ c. (c ≢ 0) × (c ≢ 47)

IsComponent-IsText : (ts : List Text) → All IsComponent ts → All IsText ts
IsComponent-IsText [] h = tt
IsComponent-IsText (t ∷ ts) h = (plain t h.0, IsComponent-IsText ts h.1)
  where
    plain : (s : Text) → IsComponent s → IsText s
    plain [] k = tt
    plain (c ∷ s) k = (k.0.0, plain s k.1)

split-append :
    (t : Text) (ts : List Text) → IsComponent t → All IsComponent ts → split (t ++ join ts) ≡ t ∷ ts
unfolding first rest join
split-append [] [] h k = refl
split-append [] (s ∷ ts) h k = ap (◌∷◌ []) (split-append s ts k.0 k.1)
split-append (c ∷ t) ts h k = ground (arith, split-append t ts h.1 k)

-- For components that hold neither separator nor terminator, at least one: `path_create` makes from the
-- text that the loop of `path_string` writes for them the same path again.
pub path_create-path_string :
    (t : Text) (ts : List Text)
    → All IsComponent (t ∷ ts)
    → path_create (text (string_loop (map boxed (t ∷ ts)))) ≡ some (path_of (t ∷ ts))
path_create-path_string t ts h =
    rw
      (string_loop-text (t ∷ ts) (IsComponent-IsText (t ∷ ts) h), path_create-split (join (t ∷ ts)))
      (unfold join in ap (λ l. some (path_of l)) (split-append t ts h.0 h.1))
