-- ===== src/Sched/Choice.antt =====
-- Which thread `sched_choose` of src/sched.c takes.
use tachyon.Prelude.{
  ℕ, zero, suc, ◌<◌, ◌≡◌, refl, sym, ap, subst, ◌≢◌, inl, inr, Bool, true, false, not, ◌&&◌, Option,
  none, some, List, [], ◌∷◌, ◌++◌, arith, ◌==◌, eqb→eq, Bool-cases, All,
}
use tachyon.Sched.{Sched, max_prio, is_runnable, choose_in, choose_below, sched_choose}

-- A thread that can run, which the address NULL cannot.
abbrev pub CanRun : Sched → ℕ → Type 0
CanRun s t = (t ≢ 0) × (is_runnable (s.thread t).state ≡ true)

-- No thread in the queue can run.
abbrev pub NoneRuns : Sched → List ℕ → Type 0
NoneRuns s q = All (λ t. ¬ CanRun s t) q

abbrev pub FirstIn : Sched → List ℕ → Option ℕ → Type 0
FirstIn s q none = NoneRuns s q
FirstIn s q (some t) =
    CanRun s t
    × ((before : List ℕ) × (after : List ℕ) × (q ≡ before ++ t ∷ after) × NoneRuns s before)

blocked : (t : ℕ) (b : Bool) → t ≢ 0 → b ≡ true → (not (t == 0) && b) ≡ false → ⊥
blocked t true ne e h = ground arith
blocked t false ne e h = ground arith

choose_in-FirstIn : (s : Sched) (q : List ℕ) → FirstIn s q (choose_in s.thread q)
unfolding choose_in
choose_in-FirstIn s [] = tt
choose_in-FirstIn s (t ∷ q) = elim (Bool-cases (not (t == 0) && is_runnable (s.thread t).state)) [
  | inl can ↦ rw can ((ground arith, ground arith), ([], q, refl, tt))
  | inr cannot ↦ rw cannot (
      passed (choose_in s.thread q) (choose_in-FirstIn s q)
        (λ can. blocked t (is_runnable (s.thread t).state) can.0 can.1 cannot))
]
  where
    passed : (o : Option ℕ) → FirstIn s q o → ¬ CanRun s t → FirstIn s (t ∷ q) o
    passed none f ne = (ne, f)
    passed (some u) (can, (before, after, e, clear)) ne =
        (can, (t ∷ before, after, ap (◌∷◌ t) e, (ne, clear)))

-- What is true of the choice among the queues below `n`.
abbrev pub Best : Sched → ℕ → Option ℕ → Type 0
Best s n none = (i : ℕ) → i < n → NoneRuns s (s.queue i)
Best s n (some t) =
    (i : ℕ) × (i < n)
    × FirstIn s (s.queue i) (some t)
    × ((j : ℕ) → i < j → j < n → NoneRuns s (s.queue j))

Best-suc :
    (s : Sched) (i : ℕ) (o o' : Option ℕ)
    → FirstIn s (s.queue i) o
    → Best s i o'
    → Best s (suc i) (elim o [ some t ↦ some t | none ↦ o' ])
Best-suc s i (some t) o' f best = (i, omega arith, f, λ j l h. absurd (omega arith))
Best-suc s i none none f best = λ j h. elim (Bool-cases (j == i)) [
  | inl same ↦ subst (λ (k : ℕ). NoneRuns s (s.queue k)) (sym (eqb→eq j i same)) f
  | inr differ ↦ best j (ground arith)
]
Best-suc s i none (some u) f (k, less, first, above) = (
  k,
  omega arith,
  first,
  λ j l h. elim (Bool-cases (j == i)) [
    | inl same ↦ subst (λ (k : ℕ). NoneRuns s (s.queue k)) (sym (eqb→eq j i same)) f
    | inr differ ↦ above j l (ground arith)
  ],
)

choose_below-Best : (n : ℕ) (s : Sched) → Best s n (choose_below n s)
unfolding choose_below
choose_below-Best zero s = λ i h. absurd (omega arith)
choose_below-Best (suc i) s =
    Best-suc s i (choose_in s.thread (s.queue i)) (choose_below i s)
      (choose_in-FirstIn s (s.queue i)) (choose_below-Best i s)

-- If `sched_choose` returns NULL, no thread in a queue can run. Otherwise it returns a thread that can
-- run, from a queue in which none before it can, and none in a queue of a higher priority can.
pub sched_choose-Best : (s : Sched) → Best s max_prio (sched_choose s)
unfolding sched_choose
sched_choose-Best s = choose_below-Best max_prio s
