-- ===== src/Sched/Switch.antt =====
-- `sched_schedule` of src/sched.c neither loses nor doubles a thread.
use tachyon.Prelude.{
  ℕ, ◌+◌, ◌<◌, ◌≡◌, refl, sym, ap, ◌∙◌, subst, inl, inr, Bool, true, false, List, [], ◌∷◌, arith,
  ◌==◌, if◌then◌else◌, eqb→eq, eqb→ne, eq→eqb, Bool-cases,
}
use tachyon.Sched.{Thread, Sched, remove, with_thread, sched_add, sched_remove}
use tachyon.Sched.Queues.{count, count-append, count-remove, count-remove_other, places}

abbrev one_if : ℕ → ℕ → ℕ
one_if t u = if t == u then 1 else 0

count-removed :
    (t u : ℕ) (q : List ℕ) → 0 < count t q → count u (remove t q) + one_if t u ≡ count u q
count-removed t u q queued = elim (Bool-cases (t == u)) [
  | inl same ↦ rw same (
      subst (λ (v : ℕ). count v (remove t q) + 1 ≡ count v q) (eqb→eq t u same)
        (count-remove t q queued))
  | inr differ ↦
      rw differ (omega (arith, count-remove_other t u q (λ e. eqb→ne t u differ (sym e))))
]

-- Threads that are the same have the same priority.
same_priority : (f : ℕ → ℕ) (t u : ℕ) → (if f u == f t then one_if t u else 0) ≡ one_if t u
same_priority f t u = elim (Bool-cases (t == u)) [
  | inl same ↦ rw (same, eq→eqb (f u) (f t) (ap f (sym (eqb→eq t u same)))) refl
  | inr differ ↦ rw differ (zeros (f u == f t))
]
  where
    zeros : (b : Bool) → ◌≡◌ {A = ℕ} (if b then 0 else 0) 0
    zeros true = refl
    zeros false = refl

-- Adding puts the thread into a queue once more, and removing takes it out once.
sched_add-count :
    (t : ℕ) (s : Sched) (u p : ℕ)
    → count u ((sched_add t s).queue p)
      ≡ count u (s.queue p) + (if p == (s.thread t).priority then one_if t u else 0)
unfolding sched_add
sched_add-count t s u p = ground (arith, count-append u (s.queue (s.thread t).priority) (t ∷ []))

sched_remove-count :
    (t : ℕ) (s : Sched) (u p : ℕ)
    → 0 < count t (s.queue (s.thread t).priority)
    → count u ((sched_remove t s).queue p) + (if p == (s.thread t).priority then one_if t u else 0)
      ≡ count u (s.queue p)
unfolding sched_remove
sched_remove-count t s u p queued =
    ground (arith, count-removed t u (s.queue (s.thread t).priority) queued)

pub priority_kept :
    (thread : ℕ → Thread) (t : ℕ) (v : Thread) (u : ℕ)
    → v.priority ≡ (thread t).priority
    → (with_thread thread t v u).priority ≡ (thread u).priority
priority_kept thread t v u e = elim (Bool-cases (u == t)) [
  | inl same ↦ rw same (e ∙ ap (λ (w : ℕ). (thread w).priority) (sym (eqb→eq u t same)))
  | inr differ ↦ rw differ refl
]

pub sched_add-places :
    (t : ℕ) (s : Sched) (u : ℕ) → places (sched_add t s) u ≡ places s u + one_if t u
unfolding sched_add
sched_add-places t s u = omega (
  arith,
  sched_add-count t s u (s.thread u).priority,
  same_priority (λ w. (s.thread w).priority) t u,
)

pub sched_remove-places :
    (t : ℕ) (s : Sched) (u : ℕ)
    → 0 < count t (s.queue (s.thread t).priority)
    → places (sched_remove t s) u + one_if t u ≡ places s u
unfolding sched_remove
sched_remove-places t s u queued = omega (
  arith,
  sched_remove-count t s u (s.thread u).priority queued,
  same_priority (λ w. (s.thread w).priority) t u,
)
