-- ===== src/Sched/Yields.antt =====
-- The threads of one priority of src/sched.c take turns when each gives its timeslice up.
use mathlib.Core.List.{append_assoc}
use tachyon.Prelude.{
  ℕ, zero, suc, ◌≡◌, refl, sym, ap, ◌∙◌, subst, inl, inr, true, some, List, [], ◌∷◌, ◌++◌, ◌==◌,
  eqb→eq, eq→eqb, Bool-cases, length,
}
use tachyon.Sched.{
  ThreadState, initial, runnable, running, yielded, waiting, aborting, aborted, exited, Thread,
  Sched, is_runnable, with_thread, Outcome, scheduled, fatal, fault, pick, sched_schedule,
  sched_yield,
}
use tachyon.Sched.Choice.{CanRun}
use tachyon.Sched.RoundRobin.{Alike, Rotation, Rotation-Alike, pick-Rotation}

-- `n` calls of `sched_yield`, each by the thread that is current then; `now i` and `later i` are what
-- the calls of `systime()` return when `i` yields are left after this one.
pub yields : (ℕ → ℕ) → (ℕ → ℕ) → ℕ → Sched → Outcome
unfolding sched_yield
yields now later zero s = scheduled s
yields now later (suc n) s = elim (sched_yield (now n) (later n) s) [
  | scheduled s' ↦ yields now later n s'
  | fatal ↦ fatal
  | fault ↦ fault
]

is_runnable→runnable : (st : ThreadState) → is_runnable st ≡ true → runnable ≡ st
is_runnable→runnable initial h = absurd (cc)
is_runnable→runnable runnable h = refl
is_runnable→runnable running h = absurd (cc)
is_runnable→runnable yielded h = absurd (cc)
is_runnable→runnable waiting h = absurd (cc)
is_runnable→runnable aborting h = absurd (cc)
is_runnable→runnable aborted h = absurd (cc)
is_runnable→runnable exited h = absurd (cc)

-- The threads when `sched_yield` chooses: the state of one was set to yielded and back.
abbrev first_set : ℕ → Sched → ℕ → Thread
first_set c s = with_thread s.thread c (record (s.thread c) { state = yielded })

abbrev offered : ℕ → Sched → ℕ → Thread
offered c s = with_thread (first_set c s) c (record (first_set c s c) { state = runnable })

sched_schedule-yielded :
    (now later c : ℕ) (s : Sched)
    → s.current ≡ some c
    → (s.thread c).state ≡ yielded
    → sched_schedule now later s
      ≡ pick later
          (record s { thread = with_thread s.thread c (record (s.thread c) { state = runnable }) })
unfolding sched_schedule
sched_schedule-yielded now later c s e f = simp (sched_schedule, e, f)

sched_yield-schedule :
    (now later c : ℕ) (s : Sched)
    → s.current ≡ some c
    → sched_yield now later s ≡ sched_schedule now later (record s { thread = first_set c s })
unfolding sched_yield sched_schedule
sched_yield-schedule now later c s e = simp (sched_yield, e)

sched_yield-pick :
    (now later c : ℕ) (s : Sched)
    → s.current ≡ some c
    → sched_yield now later s ≡ pick later (record s { thread = offered c s })
sched_yield-pick now later c s e =
    sched_yield-schedule now later c s e
    ∙ sched_schedule-yielded now later c (record s { thread = first_set c s }) e
        (rw (eq→eqb c c refl) refl)

offered-Alike : (c : ℕ) (s : Sched) → CanRun s c → Alike s.thread (offered c s)
offered-Alike c s can u = elim (Bool-cases (u == c)) [
  | inl same ↦
      rw (same, eq→eqb c c refl)
        ((
          is_runnable→runnable (s.thread c).state can.1
              ∙ ap (λ (w : ℕ). (s.thread w).state) (sym (eqb→eq u c same)),
          ap (λ (w : ℕ). (s.thread w).priority) (sym (eqb→eq u c same)),
        ))
  | inr differ ↦ rw differ ((refl, refl))
]

-- One yield among the threads of a priority.
sched_yield-Rotation :
    (now later p c t : ℕ) (q : List ℕ) (s : Sched)
    → Rotation p c (t ∷ q) s
    → (s' : Sched) × (sched_yield now later s ≡ scheduled s') × Rotation p t (q ++ c ∷ []) s'
sched_yield-Rotation now later p c t q s r =
    let done =
      pick-Rotation later p c t q (record s { thread = offered c s })
        (Rotation-Alike p c (t ∷ q) s (offered c s) (offered-Alike c s r.2.0) r) in
    (done.0, sched_yield-pick now later c s r.0 ∙ done.1, done.2)

-- When each queued thread, in every queue, has the priority of its queue, the current thread `c` and
-- the threads queued with its priority can run and are not NULL, and no queued thread of a higher
-- priority can run, the thread behind `before` in the queue runs after one yield more than `before` has
-- threads, whatever the clock shows; those before it then stand behind `c`, in their order.
pub yields-Turn :
    (now later : ℕ → ℕ) (p c t : ℕ) (before after : List ℕ) (s : Sched)
    → Rotation p c (before ++ t ∷ after) s
    → (s' : Sched) × (yields now later (suc (length before)) s ≡ scheduled s')
      × Rotation p t (after ++ c ∷ before) s'
unfolding yields
yields-Turn now later p c t [] after s r =
    let done = sched_yield-Rotation (now 0) (later 0) p c t after s r in
    (done.0, rw (yields, done.1) refl, done.2)
yields-Turn now later p c t (u ∷ before) after s r =
    let n = suc (length before) in
    let done = sched_yield-Rotation (now n) (later n) p c u (before ++ t ∷ after) s r in
    let rest = yields-Turn now later p u t before (after ++ c ∷ []) done.0 (
      subst (λ (l : List ℕ). Rotation p u l done.0) (append_assoc before (t ∷ after) (c ∷ []))
        done.2) in
    (
      rest.0,
      rw (yields, done.1) rest.1,
      subst (λ (l : List ℕ). Rotation p t l rest.0) (append_assoc after (c ∷ []) (u ∷ before))
          rest.2,
    )
