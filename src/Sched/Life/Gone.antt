-- ===== src/Sched/Life/Gone.antt =====
-- A thread that has ended does not run again.
use tachyon.Prelude.{
  ℕ, ◌≡◌, refl, sym, ap, ◌∙◌, subst, ◌≢◌, inl, inr, Bool, true, false, Option, none, some, ltb,
  ◌==◌, if◌then◌else◌, eqb→eq, eqb→ne, Bool-cases,
}
use tachyon.Prelude.Words.{add64}
use tachyon.Sched.{
  ThreadState, initial, runnable, running, yielded, waiting, aborting, aborted, exited, Thread,
  Sched, max_prio, timeslice, is_runnable, with_thread, sched_add, sched_remove, sched_choose,
  Outcome, scheduled, fatal, fault, switch_to, pick, sched_schedule, sched_yield,
}
use tachyon.Sched.Life.{
  with_state, thr_exit, thr_exit_current, thr_abort, Step, schedules, yields_once, exits, aborts,
  adds, removes, Reach, here, later_on,
}
use tachyon.Sched.Choice.{Best, sched_choose-Best}

-- States of a thread that has ended
abbrev pub ended : ThreadState → Bool
ended aborting = true
ended aborted = true
ended exited = true
ended _ = false

abbrev pub Gone : ℕ → Sched → Type 0
Gone c s = (ended (s.thread c).state ≡ true) × (s.current ≢ some c)

-- If the call returns, the thread has ended and is not current.
abbrev pub Without : ℕ → Outcome → Type 0
Without c (scheduled s) = Gone c s
Without c fatal = Unit
Without c fault = Unit

ended-stops : (st : ThreadState) → ended st ≡ true → is_runnable st ≡ false
ended-stops initial e = refl
ended-stops runnable e = sym e
ended-stops running e = refl
ended-stops yielded e = refl
ended-stops waiting e = refl
ended-stops aborting e = refl
ended-stops aborted e = refl
ended-stops exited e = refl

-- A thread that can run is another one.
other :
    (s : Sched) (c t : ℕ)
    → ended (s.thread c).state ≡ true
    → is_runnable (s.thread t).state ≡ true
    → some t ≢ some c
other s c t e can same =
    let t_is : t ≡ c = ap (λ (o : Option ℕ). elim o [ some u ↦ u | none ↦ 0 ]) same in
    let stops = ended-stops (s.thread c).state e in
    let runs = subst (λ (u : ℕ). is_runnable (s.thread u).state ≡ true) t_is can in
    absurd (cc (stops, runs))

-- A change of a thread's fields leaves the state of the others.
ended-with :
    (thread : ℕ → Thread) (c t : ℕ) (v : Thread)
    → ended (thread c).state ≡ true
    → (c ≡ t → ended v.state ≡ true)
    → ended (with_thread thread t v c).state ≡ true
ended-with thread c t v e f = elim (Bool-cases (c == t)) [
  | inl same ↦ rw same (f (eqb→eq c t same))
  | inr differ ↦ rw differ e
]

switch_to-Gone :
    (now c t : ℕ) (s : Sched)
    → ended (s.thread c).state ≡ true
    → is_runnable (s.thread t).state ≡ true
    → Gone c (switch_to now t s)
unfolding switch_to sched_add sched_remove
switch_to-Gone now c t s e can = by_current s.current
  where
    v : Thread
    v = record (s.thread t) { preempt_at = add64 now timeslice }

    s' : Sched
    s' = sched_remove t (record s { thread = with_thread s.thread t v; current = some t })

    kept : Gone c s'
    kept = (
      ended-with s.thread c t v e (λ same. ap (λ (w : ℕ). ended (s.thread w).state) (sym same) ∙ e),
      other s c t e can,
    )

    by_current : (o : Option ℕ) → Gone c (elim o [ none ↦ s' | some old ↦ sched_add old s' ])
    by_current none = kept
    by_current (some old) = kept

pick-Without : (now c : ℕ) (s : Sched) → ended (s.thread c).state ≡ true → Without c (pick now s)
unfolding pick
pick-Without now c s e = chosen (sched_choose s) (sched_choose-Best s)
  where
    idle :
        (o : Option ℕ)
        → s.current ≡ o
        → Without c (elim o [
          | none ↦ fault
          | some old ↦ if is_runnable (s.thread old).state then scheduled s else fatal
        ])
    idle none f = tt
    idle (some old) f = elim (Bool-cases (is_runnable (s.thread old).state)) [
      | inl stays ↦ rw stays ((e, λ g. other s c old e stays (sym f ∙ g)))
      | inr ends ↦ rw ends tt
    ]

    chosen :
        (o : Option ℕ)
        → Best s max_prio o
        → Without c (elim o [
          | some t ↦ scheduled (switch_to now t s)
          | none ↦ elim s.current [
            | none ↦ fault
            | some old ↦ if is_runnable (s.thread old).state then scheduled s else fatal
          ]
        ])
    chosen none best = idle s.current refl
    chosen (some t) (i, less, (can, found), above) = switch_to-Gone now c t s e can.1

sched_schedule-Without :
    (now later c : ℕ) (s : Sched)
    → ended (s.thread c).state ≡ true
    → Without c (sched_schedule now later s)
unfolding sched_schedule
sched_schedule-Without now later c s e = by_current s.current refl
  where
    by_state :
        (old : ℕ) (st : ThreadState)
        → s.current ≡ some old
        → (s.thread old).state ≡ st
        → Without c (elim st [
          | runnable ↦ if ltb now (s.thread old).preempt_at then scheduled s else pick later s
          | yielded ↦ pick later (record s {
            thread = with_thread s.thread old (record (s.thread old) { state = runnable });
          })
          | _ ↦ pick later s
        ])
    by_state old runnable f g = elim (Bool-cases (ltb now (s.thread old).preempt_at)) [
      | inl time_left ↦ rw time_left ((e, λ k. other s c old e (ap is_runnable g) (sym f ∙ k)))
      | inr due ↦ rw due (pick-Without later c s e)
    ]
    by_state old yielded f g =
        pick-Without later c
          (record s {
            thread = with_thread s.thread old (record (s.thread old) { state = runnable });
          })
          (ended-with s.thread c old (record (s.thread old) { state = runnable }) e
            (λ same. sym (ap ended g) ∙ ap (λ (w : ℕ). ended (s.thread w).state) (sym same) ∙ e))
    by_state old initial f g = pick-Without later c s e
    by_state old running f g = pick-Without later c s e
    by_state old waiting f g = pick-Without later c s e
    by_state old aborting f g = pick-Without later c s e
    by_state old aborted f g = pick-Without later c s e
    by_state old exited f g = pick-Without later c s e

    by_current :
        (o : Option ℕ)
        → s.current ≡ o
        → Without c (elim o [
          | none ↦ pick later s
          | some old ↦ elim (s.thread old).state [
            | runnable ↦ if ltb now (s.thread old).preempt_at then scheduled s else pick later s
            | yielded ↦ pick later (record s {
              thread = with_thread s.thread old (record (s.thread old) { state = runnable });
            })
            | _ ↦ pick later s
          ]
        ])
    by_current none f = pick-Without later c s e
    by_current (some old) f = by_state old (s.thread old).state f refl

-- The calls that a thread which has ended does not make itself.
sched_yield-Without : (now later c : ℕ) (s : Sched) → Gone c s → Without c (sched_yield now later s)
unfolding sched_yield
sched_yield-Without now later c s (e, away) = by_current s.current away
  where
    by_current :
        (o : Option ℕ)
        → o ≢ some c
        → Without c (elim o [
          | none ↦ fault
          | some old ↦ sched_schedule now later (record s {
            thread = with_thread s.thread old (record (s.thread old) { state = yielded });
          })
        ])
    by_current none f = tt
    by_current (some old) f =
        sched_schedule-Without now later c
          (record s {
            thread = with_thread s.thread old (record (s.thread old) { state = yielded });
          })
          (ended-with s.thread c old (record (s.thread old) { state = yielded }) e
            (λ same. absurd (f (ap some (sym same)))))

pub thr_exit-Without :
    (now later c t : ℕ) (s : Sched)
    → (c ≢ t → ended (s.thread c).state ≡ true)
    → Without c (thr_exit now later t s)
unfolding thr_exit with_state
thr_exit-Without now later c t s e =
    sched_schedule-Without now later c (with_state t exited s) (by_test (c == t) refl)
  where
    by_test :
        (b : Bool)
        → (c == t) ≡ b
        → ended (if b then record (s.thread t) { state = exited } else s.thread c).state ≡ true
    by_test true f = refl
    by_test false f = e (eqb→ne c t f)

thr_exit_current-Without :
    (now later c : ℕ) (s : Sched) → Gone c s → Without c (thr_exit_current now later s)
unfolding thr_exit_current
thr_exit_current-Without now later c s (e, away) = by_current s.current
  where
    by_current :
        (o : Option ℕ) → Without c (elim o [ none ↦ fault | some t ↦ thr_exit now later t s ])
    by_current none = tt
    by_current (some t) = thr_exit-Without now later c t s (λ ne. e)

thr_abort-Without :
    (in_kernel : Bool) (now later c t : ℕ) (s : Sched)
    → Gone c s
    → Without c (thr_abort in_kernel now later t s)
unfolding thr_abort with_state
thr_abort-Without true now later c t s g = tt
thr_abort-Without false now later c t s (e, away) =
    sched_schedule-Without now later c (with_state t aborting s)
      (ended-with s.thread c t (record (s.thread t) { state = aborting }) e (λ same. refl))

Step-Gone : (c : ℕ) (s s' : Sched) → Step s s' → Gone c s → Gone c s'
unfolding sched_add sched_remove
Step-Gone c s s' (schedules now later e) g =
    subst (Without c) e (sched_schedule-Without now later c s g.0)
Step-Gone c s s' (yields_once now later e) g =
    subst (Without c) e (sched_yield-Without now later c s g)
Step-Gone c s s' (exits now later e) g =
    subst (Without c) e (thr_exit_current-Without now later c s g)
Step-Gone c s s' (aborts in_kernel now later t e) g =
    subst (Without c) e (thr_abort-Without in_kernel now later c t s g)
Step-Gone c s s' (adds t e) g = subst (Gone c) e g
Step-Gone c s s' (removes t e) g = subst (Gone c) e g

Reach-Gone : (c : ℕ) (s s' : Sched) → Reach s s' → Gone c s → Gone c s'
Reach-Gone c s s' here g = g
Reach-Gone c s s' (later_on {s' = mid} r step) g = Step-Gone c mid s' step (Reach-Gone c s mid r g)

-- When a thread calls `thr_exit` and the call returns, then whatever calls of the scheduler follow, by
-- the timer, by threads that yield, end or are aborted, or that add and remove threads: in each state
-- that they lead to, the thread's state is an end, and the thread is not current.
pub thr_exit-Gone :
    (now later c : ℕ) (s s' s'' : Sched)
    → thr_exit now later c s ≡ scheduled s'
    → Reach s' s''
    → Gone c s''
thr_exit-Gone now later c s s' s'' e r =
    Reach-Gone c s' s'' r
      (subst (Without c) e (thr_exit-Without now later c c s (λ ne. absurd (ne refl))))
