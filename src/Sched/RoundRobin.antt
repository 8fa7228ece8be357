-- ===== src/Sched/RoundRobin.antt =====
-- Round robin among the threads of one priority of src/sched.c: a thread that yields goes to the end
-- of its queue, and the one at the head runs.
use tachyon.Prelude.{
  ℕ, ◌<◌, ◌≡◌, refl, sym, ap, ◌∙◌, subst, inl, inr, Bool, true, false, Option, none, some, List, [],
  ◌∷◌, ◌++◌, arith, ◌==◌, if◌then◌else◌, eqb→eq, eq→eqb, ne→eqb, Bool-cases, lt-or-ge, All,
}
use tachyon.Prelude.Words.{add64}
use tachyon.Sched.{
  Thread, Sched, max_prio, timeslice, is_runnable, remove, with_queue, with_thread, sched_add,
  sched_remove, sched_choose, scheduled, switch_to, pick,
}
use tachyon.Sched.Queues.{count, count-append, WellQueued}
use tachyon.Sched.Switch.{priority_kept}
use tachyon.Sched.Choice.{CanRun, NoneRuns, Best, sched_choose-Best}

-- Two states whose threads differ at most in `preempt_at`.
abbrev pub Alike : (ℕ → Thread) → (ℕ → Thread) → Type 0
Alike thread thread' =
    (u : ℕ) → ((thread' u).state ≡ (thread u).state) × ((thread' u).priority ≡ (thread u).priority)

pub Alike-with :
    (thread : ℕ → Thread) (t : ℕ) (v : Thread)
    → v.state ≡ (thread t).state
    → v.priority ≡ (thread t).priority
    → Alike thread (with_thread thread t v)
Alike-with thread t v e f u = elim (Bool-cases (u == t)) [
  | inl same ↦ rw same (
      (
        e ∙ ap (λ (w : ℕ). (thread w).state) (sym (eqb→eq u t same)),
        f ∙ ap (λ (w : ℕ). (thread w).priority) (sym (eqb→eq u t same)),
      ))
  | inr differ ↦ rw differ ((refl, refl))
]

-- The current thread `c` and the queue `q` of its priority `p`, all of which can run, while no thread
-- of a higher priority can. Each queued thread has the priority of its queue.
abbrev pub Rotation : ℕ → ℕ → List ℕ → Sched → Type 0
Rotation p c q s =
    (s.current ≡ some c)
    × (s.queue p ≡ q)
    × (CanRun s c × All (CanRun s) q)
    × ((s.thread c).priority ≡ p)
    × (p < max_prio)
    × WellQueued s
    × ((j : ℕ) → p < j → j < max_prio → NoneRuns s (s.queue j))

CanRun-Alike : (s s' : Sched) (u : ℕ) → Alike s.thread s'.thread → CanRun s u → CanRun s' u
CanRun-Alike s s' u alike can = (can.0, ap is_runnable (alike u).0 ∙ can.1)

All-CanRun-Alike :
    (s s' : Sched) (q : List ℕ) → Alike s.thread s'.thread → All (CanRun s) q → All (CanRun s') q
All-CanRun-Alike s s' [] alike h = tt
All-CanRun-Alike s s' (u ∷ q) alike h =
    (CanRun-Alike s s' u alike h.0, All-CanRun-Alike s s' q alike h.1)

NoneRuns-Alike :
    (s s' : Sched) (q : List ℕ) → Alike s.thread s'.thread → NoneRuns s q → NoneRuns s' q
NoneRuns-Alike s s' [] alike h = tt
NoneRuns-Alike s s' (u ∷ q) alike h = (
  (λ can. h.0 (can.0, ap is_runnable (sym (alike u).0) ∙ can.1)),
  NoneRuns-Alike s s' q alike h.1,
)

head_or : ℕ → List ℕ → ℕ
head_or t [] = t
head_or t (u ∷ q) = u

pub Rotation-Alike :
    (p c : ℕ) (q : List ℕ) (s : Sched) (thread : ℕ → Thread)
    → Alike s.thread thread
    → Rotation p c q s
    → Rotation p c q (record s { thread = thread })
Rotation-Alike p c q s thread alike (e, f, (can, all), pc, less, well, above) =
    let s' = record s { thread = thread } in
    (
      e,
      f,
      (CanRun-Alike s s' c alike can, All-CanRun-Alike s s' q alike all),
      (alike c).1 ∙ pc,
      less,
      λ i u h. (alike u).1 ∙ well i u h,
      λ j l h. NoneRuns-Alike s s' (s.queue j) alike (above j l h),
    )

-- The choice when the head of the queue can run and nothing above it can.
head_first :
    (s : Sched) (t u : ℕ) (q before after : List ℕ)
    → CanRun s t
    → t ∷ q ≡ before ++ u ∷ after
    → NoneRuns s before
    → u ≡ t
unfolding head_or
head_first s t u q [] after can e clear = sym (ap (head_or 0) e)
head_first s t u q (v ∷ before) after can e clear =
    absurd (clear.0 (subst (CanRun s) (ap (head_or 0) e) can))

none_within :
    (s : Sched) (u : ℕ) (before after : List ℕ) → NoneRuns s (before ++ u ∷ after) → ¬ CanRun s u
none_within s u [] after h = h.0
none_within s u (v ∷ before) after h = none_within s u before after h.1

sched_choose-head :
    (p t : ℕ) (q : List ℕ) (s : Sched)
    → p < max_prio
    → s.queue p ≡ t ∷ q
    → CanRun s t
    → ((j : ℕ) → p < j → j < max_prio → NoneRuns s (s.queue j))
    → sched_choose s ≡ some t
sched_choose-head p t q s less e can above = by_choice (sched_choose s) (sched_choose-Best s)
  where
    runs : ¬ NoneRuns s (s.queue p)
    runs none_runs = (subst (NoneRuns s) e none_runs).0 can

    by_choice : (o : Option ℕ) → Best s max_prio o → o ≡ some t
    by_choice none best = absurd (runs (best p less))
    by_choice (some u) (i, small, (ok, (before, after, f, clear)), higher) = elim (lt-or-ge i p) [
      | inl low ↦ absurd (runs (higher p low less))
      | inr up ↦ elim (lt-or-ge p i) [
        | inl high ↦
            absurd (none_within s u before after (subst (NoneRuns s) f (above i high small)) ok)
        | inr down ↦
            let same : p ≡ i = omega arith in
            ap some (head_first s t u q before after can (sym e ∙ ap s.queue same ∙ f) clear)
      ]
    ]

-- The queue of the priority after a change of threads: the head is taken out and `c` added.
queues_after :
    (queue : ℕ → List ℕ) (pt pc p c t : ℕ) (q : List ℕ)
    → pt ≡ p
    → pc ≡ p
    → queue p ≡ t ∷ q
    → (j : ℕ)
    → with_queue
        (with_queue queue pt (remove t (queue pt)))
        pc
        (with_queue queue pt (remove t (queue pt)) pc ++ c ∷ [])
        j
      ≡ (if j == p then q ++ c ∷ [] else queue j)
queues_after queue pt pc p c t q e f g j =
    rw (e, f, g, eq→eqb p p refl, eq→eqb t t refl) (by_test (j == p))
  where
    by_test :
        (b : Bool)
        → (if b then q ++ c ∷ [] else if b then q else queue j)
          ≡ (if b then q ++ c ∷ [] else queue j)
    by_test true = refl
    by_test false = refl

pick-switch :
    (later t : ℕ) (s : Sched)
    → sched_choose s ≡ some t
    → pick later s ≡ scheduled (switch_to later t s)
unfolding pick switch_to
pick-switch later t s e = rw (pick, e) refl

-- The parts of the state after a change of threads.
switch_to-parts :
    (later p c t : ℕ) (q : List ℕ) (s : Sched)
    → s.current ≡ some c
    → s.queue p ≡ t ∷ q
    → (s.thread c).priority ≡ p
    → (s.thread t).priority ≡ p
    → ((switch_to later t s).current ≡ some t)
      × Alike s.thread (switch_to later t s).thread
      × ((j : ℕ) → (switch_to later t s).queue j ≡ (if j == p then q ++ c ∷ [] else s.queue j))
unfolding switch_to sched_add sched_remove
switch_to-parts later p c t q s e f pc pt =
    let v = record (s.thread t) { preempt_at = add64 later timeslice } in
    rw e (
      (
        refl,
        Alike-with s.thread t v refl refl,
        queues_after s.queue (with_thread s.thread t v t).priority
            (with_thread s.thread t v c).priority p c t q (priority_kept s.thread t v t refl ∙ pt)
            (priority_kept s.thread t v c refl ∙ pc) f,
      ))

All-append :
    (s : Sched) (q : List ℕ) (c : ℕ) → All (CanRun s) q → CanRun s c → All (CanRun s) (q ++ c ∷ [])
All-append s [] c h can = (can, tt)
All-append s (u ∷ q) c h can = (h.0, All-append s q c h.1 can)

-- One change of threads: the head of the queue runs and the thread that ran goes to the end.
pub pick-Rotation :
    (later p c t : ℕ) (q : List ℕ) (s : Sched)
    → Rotation p c (t ∷ q) s
    → (s' : Sched) × (pick later s ≡ scheduled s') × Rotation p t (q ++ c ∷ []) s'
pick-Rotation later p c t q s (e, f, (can, all), pc, less, well, above) =
    let s' = switch_to later t s in
    let queued : 0 < count t (s.queue p) = rw (f, eq→eqb t t refl) (omega arith) in
    let pt = well p t queued in
    let parts = switch_to-parts later p c t q s e f pc pt in
    let alike = parts.1 in
    (
      s',
      pick-switch later t s (sched_choose-head p t q s less f all.0 above),
      (
        parts.0,
        parts.2 p ∙ rw (eq→eqb p p refl) refl,
        (
          CanRun-Alike s s' t alike all.0,
          All-append s' q c (All-CanRun-Alike s s' q alike all.1) (CanRun-Alike s s' c alike can),
        ),
        (alike t).1 ∙ pt,
        less,
        λ i u h. (alike u).1 ∙ at_home i u (subst (λ (l : List ℕ). 0 < count u l) (parts.2 i) h),
        λ j l h. NoneRuns-Alike s s' (s'.queue j) alike (
            subst (NoneRuns s) (sym (parts.2 j ∙ rw (ne→eqb j p (omega arith)) refl))
              (above j l h)),
      ),
    )
  where
    at_end : (u : ℕ) → 0 < count u (q ++ c ∷ []) → (s.thread u).priority ≡ p
    at_end u h = elim (Bool-cases (c == u)) [
      | inl same ↦ subst (λ (w : ℕ). (s.thread w).priority ≡ p) (eqb→eq c u same) pc
      | inr differ ↦
          let sum = count-append u q (c ∷ []) in
          let one : count u (c ∷ []) ≡ 0 = rw differ refl in well p u (rw f (ground arith))
    ]

    at_home :
        (i u : ℕ)
        → 0 < count u (if i == p then q ++ c ∷ [] else s.queue i)
        → (s.thread u).priority ≡ i
    at_home i u h = elim (Bool-cases (i == p)) [
      | inl same ↦
          at_end u (subst (λ (b : Bool). 0 < count u (if b then q ++ c ∷ [] else s.queue i)) same h)
          ∙ sym (eqb→eq i p same)
      | inr differ ↦
          well i u
            (subst (λ (b : Bool). 0 < count u (if b then q ++ c ∷ [] else s.queue i)) differ h)
    ]
