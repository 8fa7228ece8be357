-- ===== src/Time/Choice.antt =====
-- Which source of the system time src/systime.c chooses.
use tachyon.Prelude.{
  ◌≤◌, ◌<◌, ◌≡◌, refl, sym, subst, ◌≢◌, ◌⊎◌, inl, inr, Option, none, some, List, [], ◌∷◌, arith,
  ◌==◌, if◌then◌else◌, lt→ltb, ge→ltb, eqb→eq, eqb→ne, Bool-cases, lt-or-ge, All,
}
use tachyon.Text.{Text}
use tachyon.Time.{Extension, extp_iterate, Source, systime_extp_init, choose_loop, systime_init}

-- The source is the first of the greatest accuracy in the list.
abbrev pub FirstBest : List Source → Source → Type 0
FirstBest [] d = ⊥
FirstBest (x ∷ xs) d =
    ((x ≡ d) × All (λ y. y.accuracy ≤ d.accuracy) xs) ⊎ ((x.accuracy < d.accuracy) × FirstBest xs d)

abbrev pub ChosenFrom : List Source → Option Source → Type 0
ChosenFrom descs none = descs ≡ []
ChosenFrom descs (some d) = FirstBest descs d

-- What is at least as good as the head of the list.
at_most : (x d : Source) (xs : List Source) → FirstBest (x ∷ xs) d → x.accuracy ≤ d.accuracy
at_most x d xs (inl (same, rest)) =
    subst (λ (y : Source). x.accuracy ≤ y.accuracy) same (omega arith)
at_most x d xs (inr (less, rest)) = omega arith

skip :
    (x y d : Source) (xs : List Source)
    → y.accuracy ≤ x.accuracy
    → FirstBest (x ∷ xs) d
    → FirstBest (x ∷ y ∷ xs) d
skip x y d xs worse (inl (same, rest)) =
    inl (same, (subst (λ (z : Source). y.accuracy ≤ z.accuracy) same worse, rest))
skip x y d xs worse (inr (less, rest)) = inr (less, inr (omega arith, rest))

choose_loop-ChosenFrom :
    (t : Source) (descs : List Source)
    → (d : Source) × (choose_loop (some t) descs ≡ some d) × FirstBest (t ∷ descs) d
unfolding choose_loop systime_extp_init
choose_loop-ChosenFrom t [] = (t, refl, inl (refl, tt))
choose_loop-ChosenFrom t (desc ∷ descs) = elim (lt-or-ge t.accuracy desc.accuracy) [
  | inl less ↦
      let (d, e, best) = choose_loop-ChosenFrom desc descs in
      (
        d,
        rw (choose_loop, systime_extp_init, lt→ltb t.accuracy desc.accuracy less) e,
        inr (omega (arith, less, at_most desc d descs best), best),
      )
  | inr worse ↦
      let (d, e, best) = choose_loop-ChosenFrom t descs in
      (
        d,
        rw (choose_loop, systime_extp_init, ge→ltb t.accuracy desc.accuracy worse) e,
        skip t desc d descs worse best,
      )
]

from_none : (descs : List Source) → ChosenFrom descs (choose_loop none descs)
unfolding choose_loop systime_extp_init
from_none [] = refl
from_none (desc ∷ descs) =
    let (d, e, best) = choose_loop-ChosenFrom desc descs in
    subst (ChosenFrom (desc ∷ descs)) (sym e) best

-- Of a result of `systime_init`, with the sources of the tag: the first of the greatest accuracy, which
-- has a function; or the fatal error, because there is no source or the first of the greatest accuracy
-- has no function.
abbrev pub InitEnd : List Source → Option Source → Type 0
InitEnd descs none = (descs ≡ []) ⊎ ((d : Source) × FirstBest descs d × (d.systime_us_func ≡ 0))
InitEnd descs (some d) = FirstBest descs d × (d.systime_us_func ≢ 0)

-- `systime_init` takes, of the sources that `extp_iterate` finds for the tag, the first of the greatest
-- accuracy if it has a function for the time, and ends with the fatal error exactly if there is no
-- source or that one has none, whatever the other sources have.
pub systime_init-InitEnd :
    (tag : Text) (table : List (Option (Extension Source)))
    → InitEnd (extp_iterate tag table) (systime_init tag table)
unfolding systime_init
systime_init-InitEnd tag table =
    by_choice (choose_loop none (extp_iterate tag table)) (from_none (extp_iterate tag table))
  where
    by_choice :
        (o : Option Source)
        → ChosenFrom (extp_iterate tag table) o
        → InitEnd
            (extp_iterate tag table)
            (elim o [ none ↦ none | some t ↦ if t.systime_us_func == 0 then none else some t ])
    by_choice none e = inl e
    by_choice (some t) best = elim (Bool-cases (t.systime_us_func == 0)) [
      | inl null ↦ rw null (inr (t, best, eqb→eq t.systime_us_func 0 null))
      | inr there ↦ rw there ((best, eqb→ne t.systime_us_func 0 there))
    ]
