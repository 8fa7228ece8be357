-- ===== src/Sched/Queues.antt =====
-- How often a thread stands in the queues of src/sched.c, and what adding and removing changes.
use tachyon.Prelude.{
  ℕ, ◌+◌, ◌<◌, ◌≡◌, refl, ◌≢◌, Option, none, some, List, [], ◌∷◌, ◌++◌, arith, ◌==◌, if◌then◌else◌,
}
use tachyon.Sched.{Sched, remove}

abbrev pub count : ℕ → List ℕ → ℕ
count t [] = 0
count t (u ∷ q) = (if u == t then 1 else 0) + count t q

pub count-append : (t : ℕ) (p q : List ℕ) → count t (p ++ q) ≡ count t p + count t q
count-append t [] q = omega arith
count-append t (u ∷ p) q = omega (arith, count-append t p q)

pub count-remove : (t : ℕ) (q : List ℕ) → 0 < count t q → count t (remove t q) + 1 ≡ count t q
count-remove t [] h = absurd (omega arith)
count-remove t (u ∷ q) h = ground (arith, count-remove t q)

pub count-remove_other : (t u : ℕ) (q : List ℕ) → u ≢ t → count u (remove t q) ≡ count u q
count-remove_other t u [] ne = refl
count-remove_other t u (v ∷ q) ne = ground (arith, count-remove_other t u q ne)

-- How often the thread is queued with its priority, and one more if it is the current thread.
abbrev pub is_current : Option ℕ → ℕ → ℕ
is_current none t = 0
is_current (some c) t = if c == t then 1 else 0

abbrev pub places : Sched → ℕ → ℕ
places s t = count t (s.queue (s.thread t).priority) + is_current s.current t

-- Each thread in a queue has the priority of that queue.
abbrev pub WellQueued : Sched → Type 0
WellQueued s = (p t : ℕ) → 0 < count t (s.queue p) → (s.thread t).priority ≡ p
