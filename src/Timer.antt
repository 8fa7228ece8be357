-- ===== src/Timer.antt =====
-- src/tmr.c: the list of timers, as what is reached from the head of the list of src/list.c, where a node that is
-- inserted at NULL becomes the head and the others are lost.
pub mod Generators
mod Tests
use tachyon.Prelude.{
  ℕ, ◌≤◌, ◌<◌, ◌≡◌, refl, ap, ◌⊎◌, inl, inr, Option, none, some, List, [], ◌∷◌, ◌++◌, arith, leb,
  if◌then◌else◌, lt-or-ge, le→leb, gt→leb,
}
use tachyon.Prelude.Words.{add64, sub64}

-- `tmr_t`; a callback is an address.
pub record Timer : Type 0 where
  pub expire : ℕ
  pub period : ℕ
  pub callback : ℕ

-- TMR_MAX_TIMEOUT
abbrev pub tmr_max_timeout : ℕ
tmr_max_timeout = 10000

-- TMR_MIN_TIMEOUT
abbrev pub tmr_min_timeout : ℕ
tmr_min_timeout = 50

-- The loop over `preceeding` with the insertion behind the timer that it stops at; `none` where it stops at NULL.
pub insert_behind : List Timer → Timer → Option (List Timer)
insert_behind [] tmr = none
insert_behind (other ∷ rest) tmr =
    let later = insert_behind rest tmr in
    if leb tmr.expire other.expire
    then some (other ∷ tmr ∷ rest)
    else elim later [ none ↦ none | some l ↦ some (other ∷ l) ]

pub tmr_resched_sorted : List Timer → Timer → List Timer
tmr_resched_sorted timers tmr = elim (insert_behind timers tmr) [ none ↦ tmr ∷ [] | some l ↦ l ]

-- What tmr_set_next_tick asks of the generator, with the time that it read before the expired timers were handled
pub next_timeout : List Timer → ℕ → ℕ
next_timeout [] current = tmr_max_timeout
next_timeout (tmr ∷ rest) current =
    if leb tmr.expire (add64 current tmr_min_timeout)
    then tmr_min_timeout
    else sub64 tmr.expire current

-- All timers of a list expire before a time.
abbrev pub AllBefore : ℕ → List Timer → Type 0
AllBefore time [] = 0 ≤ 0
AllBefore time (t ∷ rest) = (t.expire < time) × AllBefore time rest

-- Of an insertion: all timers expire before the new one, or the first that does not is at a place.
abbrev pub PlacedEnd : List Timer → Timer → Option (List Timer) → Type 0
PlacedEnd timers tmr none = AllBefore tmr.expire timers
PlacedEnd timers tmr (some l) =
    (before : List Timer) × (other : Timer) × (rest : List Timer) × (timers
      ≡ before ++ other ∷ rest)
    × AllBefore tmr.expire before
    × (tmr.expire ≤ other.expire)
    × (l ≡ before ++ other ∷ tmr ∷ rest)

PlacedEnd-step :
    (other : Timer) (rest : List Timer) (tmr : Timer) (o : Option (List Timer))
    → other.expire < tmr.expire
    → PlacedEnd rest tmr o
    → PlacedEnd (other ∷ rest) tmr (elim o [ none ↦ none | some l ↦ some (other ∷ l) ])
PlacedEnd-step other rest tmr none less h = (less, h)
PlacedEnd-step other rest tmr (some l) less (before, o, behind, e, all, le, r) = (
  other ∷ before,
  o,
  behind,
  ap (λ (x : List Timer). other ∷ x) e,
  (less, all),
  le,
  ap (λ (x : List Timer). other ∷ x) r,
)

insert_behind-PlacedEnd :
    (timers : List Timer) (tmr : Timer) → PlacedEnd timers tmr (insert_behind timers tmr)
unfolding insert_behind
insert_behind-PlacedEnd [] tmr = omega arith
insert_behind-PlacedEnd (other ∷ rest) tmr = elim (lt-or-ge other.expire tmr.expire) [
  | inl before ↦ rw (gt→leb tmr.expire other.expire before) (
      PlacedEnd-step other rest tmr (insert_behind rest tmr) before
        (insert_behind-PlacedEnd rest tmr))
  | inr behind ↦
      rw (le→leb tmr.expire other.expire behind) ([], other, rest, refl, omega arith, behind, refl)
]

-- The timers `l` after the insertion
abbrev pub Placed : List Timer → Timer → List Timer → Type 0
Placed timers tmr l =
    ((before : List Timer) × (other : Timer) × (rest : List Timer) × (timers
        ≡ before ++ other ∷ rest)
      × AllBefore tmr.expire before
      × (tmr.expire ≤ other.expire)
      × (l ≡ before ++ other ∷ tmr ∷ rest))
    ⊎ (AllBefore tmr.expire timers × (l ≡ tmr ∷ []))

PlacedEnd-Placed :
    (timers : List Timer) (tmr : Timer) (o : Option (List Timer))
    → PlacedEnd timers tmr o
    → Placed timers tmr (elim o [ none ↦ tmr ∷ [] | some l ↦ l ])
PlacedEnd-Placed timers tmr none h = inr (h, refl)
PlacedEnd-Placed timers tmr (some l) h = inl h

-- tmr_resched_sorted puts a timer directly behind the first one that does not expire before it, and not in front of
-- it; if all others expire before it, they are lost, and it is the only one left.
pub tmr_resched_sorted-Placed :
    (timers : List Timer) (tmr : Timer) → Placed timers tmr (tmr_resched_sorted timers tmr)
unfolding tmr_resched_sorted
tmr_resched_sorted-Placed timers tmr =
    PlacedEnd-Placed timers tmr (insert_behind timers tmr) (insert_behind-PlacedEnd timers tmr)
