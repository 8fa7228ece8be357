-- ===== src/Path/Split.antt =====
-- The components that `path_create` of src/path.c makes, against a split of the text.
use mathlib.Core.List.{append-nil, append_assoc}
use tachyon.Prelude.{
  ℕ, zero, suc, ◌+◌, ◌-◌, ◌≤◌, ◌<◌, ◌≡◌, refl, sym, ap, ◌∙◌, inl, inr, none, some, List, [], ◌∷◌,
  ◌++◌, map, arith, ◌==◌, if◌then◌else◌, Bool-cases, Option-cases, length, take, drop,
}
use tachyon.Text.{Text, peek, next, strstr}
use tachyon.Text.Compare.{strlen-length, strncpy-take}
use tachyon.Path.{
  separator, Buffer, FilePath, count_loop, component_length, component, create_loop, path_create,
}

-- The text before the first separator, and the components behind it.
unfoldable pub first : Text → Text
first [] = []
first (c ∷ s) = if c == 47 then [] else c ∷ first s

unfoldable pub rest : Text → List Text
unfolding first
rest [] = []
rest (c ∷ s) = if c == 47 then first s ∷ rest s else rest s

pub strstr_cons :
    (c : ℕ) (s : Text)
    → strstr (c ∷ s) separator ≡ (if c == 47 then some (c ∷ s) else strstr s separator)
unfolding strstr
strstr_cons c s = ground arith

find_none : (s : Text) → strstr s separator ≡ none → (first s ≡ s) × (rest s ≡ [])
unfolding first rest
find_none [] e = (refl, refl)
find_none (c ∷ s) e = ground (arith, strstr_cons c s, find_none s)

take-cons : (n c : ℕ) (s : Text) → 0 < n → take n (c ∷ s) ≡ c ∷ take (n - 1) s
take-cons zero c s h = elim h [ ]
take-cons (suc n) c s h = ap (λ k. c ∷ take k s) (omega arith)

-- A search stops at a separator; before it stands the first component, behind it the others.
find_some :
    (s found : Text)
    → strstr s separator ≡ some found
    → (found ≡ 47 ∷ drop 1 found)
      × (rest s ≡ first (drop 1 found) ∷ rest (drop 1 found))
      × (first s ≡ take (length s - length found) s)
      × (length s ≡ length (first s) + length found)
unfolding first rest strstr
find_some [] found e = cc
find_some (c ∷ s) found e = elim (Bool-cases (c == 47)) [
  | inl hit ↦
      let same : c ∷ s ≡ found = ground (arith, strstr_cons c s) in
      rw (← same) (ground arith, ground arith, ground arith, ground arith)
  | inr miss ↦
      let (a, b, d, l) = find_some s found (ground (arith, strstr_cons c s)) in
      (a, ground arith, ground (arith, take-cons (length (c ∷ s) - length found) c s), ground arith)
]

component_length-first : (comp : Text) → component_length comp ≡ length (first comp)
unfolding component_length
component_length-first comp = elim (Option-cases (strstr comp separator)) [
  | inl e ↦ rw (e, component_length) (strlen-length comp ∙ ap length (sym (find_none comp e).0))
  | inr (later, e) ↦ rw (e, component_length) (omega (arith, (find_some comp later e).3))
]

take-first : (comp : Text) → take (length (first comp)) comp ≡ first comp
unfolding first
take-first [] = refl
take-first (c ∷ comp) = ground (arith, take-first comp)

length-first : (comp : Text) → length (first comp) ≤ length comp
unfolding first
length-first [] = omega arith
length-first (c ∷ comp) = ground (arith, length-first comp)

-- A component in its buffer.
abbrev pub boxed : Text → Buffer
boxed t = record { room = length t + 1; bytes = t ++ 0 ∷ [] }

-- The bytes that `path_create` copies for the component at `comp`.
component-first : (comp : Text) → component comp ≡ boxed (first comp)
unfolding component
component-first comp = rw (
  component_length-first comp,
  strncpy-take comp (length (first comp)) (length-first comp),
  take-first comp,
)

pub create_loop-rest :
    (fuel : ℕ) (comp : Text) (done : List Buffer)
    → length comp < fuel
    → create_loop fuel comp done ≡ some (done ++ map boxed (rest comp))
unfolding create_loop
create_loop-rest zero comp done h = elim h [ ]
create_loop-rest (suc fuel) comp done h = elim (Option-cases (strstr comp separator)) [
  | inl e ↦ rw (e, create_loop) (rw ((find_none comp e).1, append-nil))
  | inr (found, e) ↦
      let (a, b, d, l) = find_some comp found e in
      let l' : length found ≡ suc (length (drop 1 found)) = ap length a in
      rw (e, create_loop)
        (rw (
          b,
          create_loop-rest fuel (drop 1 found) (done ++ component (drop 1 found) ∷ [])
              (omega (arith, l, l')),
          component-first,
          append_assoc,
        ))
]

pub count_loop-rest :
    (fuel : ℕ) (comp : Text) (count : ℕ)
    → length comp < fuel
    → count_loop fuel comp count ≡ some (count + length (rest comp))
unfolding count_loop
count_loop-rest zero comp count h = elim h [ ]
count_loop-rest (suc fuel) comp count h = elim (Option-cases (strstr comp separator)) [
  | inl e ↦ rw (e, count_loop) (rw (find_none comp e).1 (ground arith))
  | inr (found, e) ↦
      let (a, b, d, l) = find_some comp found e in
      let l' : length found ≡ suc (length (drop 1 found)) = ap length a in
      rw (e, count_loop)
        (rw (b, count_loop-rest fuel (drop 1 found) (count + 1) (omega (arith, l, l')))
          (ground arith))
]

-- The text behind the leading separator, cut at the separators.
abbrev pub split : Text → List Text
split s = first s ∷ rest s

abbrev pub path_of : List Text → FilePath
path_of ts = record { count = length ts; components = map boxed ts }

-- `path_create` returns NULL unless the text begins with the separator; else it makes a component
-- of each part between separators, each in a buffer for its text and the terminator, and counts
-- them.
pub path_create-split :
    (p : Text) → path_create p ≡ (if peek p == 47 then some (path_of (split (next p))) else none)
unfolding path_create rest
path_create-split [] = refl
path_create-split (c ∷ q) = ground (
  arith,
  count_loop-rest (suc (length (c ∷ q))) (c ∷ q) 0 (omega arith),
  create_loop-rest (suc (length (c ∷ q))) (c ∷ q) [] (omega arith),
)
