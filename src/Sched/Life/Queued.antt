-- ===== src/Sched/Life/Queued.antt =====
-- The queues of src/sched.c in the states that its calls lead to.
use tachyon.Prelude.{
  ℕ, ◌<◌, ◌≡◌, refl, sym, ap, ◌∙◌, subst, inl, inr, Bool, true, false, Option, none, some, List, [],
  ◌∷◌, ◌++◌, arith, ltb, ◌==◌, if◌then◌else◌, eqb→eq, Bool-cases,
}
use tachyon.Prelude.Words.{add64}
use tachyon.Sched.{
  ThreadState, initial, runnable, running, yielded, waiting, aborting, aborted, exited, Thread,
  Sched, timeslice, is_runnable, remove, with_thread, sched_add, sched_remove, sched_choose,
  Outcome, scheduled, fatal, fault, switch_to, pick, sched_schedule, sched_yield,
}
use tachyon.Sched.Queues.{count, count-append, WellQueued}
use tachyon.Sched.Switch.{priority_kept}
use tachyon.Sched.Schedule.{Settled, sched_schedule-Settled}
use tachyon.Sched.Life.{
  with_state, thr_exit, thr_exit_current, thr_abort, Step, schedules, yields_once, exits, aborts,
  adds, removes, Reach, here, later_on,
}

abbrev Queued : Outcome → Type 0
Queued (scheduled s) = WellQueued s
Queued fatal = Unit
Queued fault = Unit

count-remove_less : (t u : ℕ) (q : List ℕ) → 0 < count u (remove t q) → 0 < count u q
count-remove_less t u [] h = h
count-remove_less t u (v ∷ q) h = ground (arith, count-remove_less t u q)

WellQueued-with :
    (s : Sched) (t : ℕ) (v : Thread) (c : Option ℕ)
    → v.priority ≡ (s.thread t).priority
    → WellQueued s
    → WellQueued (record s { thread = with_thread s.thread t v; current = c })
WellQueued-with s t v c e well p u h = priority_kept s.thread t v u e ∙ well p u h

-- What a queue holds when the queue with the number `p` becomes `q`.
in_queue :
    (s : Sched) (p i u : ℕ) (q : List ℕ)
    → (0 < count u q → (s.thread u).priority ≡ p)
    → WellQueued s
    → 0 < count u (if i == p then q else s.queue i)
    → (s.thread u).priority ≡ i
in_queue s p i u q inside well h = elim (Bool-cases (i == p)) [
  | inl home ↦
      inside (subst (λ (b : Bool). 0 < count u (if b then q else s.queue i)) home h)
      ∙ sym (eqb→eq i p home)
  | inr away ↦ well i u (subst (λ (b : Bool). 0 < count u (if b then q else s.queue i)) away h)
]

sched_add-WellQueued : (t : ℕ) (s : Sched) → WellQueued s → WellQueued (sched_add t s)
unfolding sched_add
sched_add-WellQueued t s well i u = in_queue s home i u (s.queue home ++ t ∷ []) added well
  where
    home : ℕ
    home = (s.thread t).priority

    added : 0 < count u (s.queue home ++ t ∷ []) → (s.thread u).priority ≡ home
    added h = elim (Bool-cases (t == u)) [
      | inl same ↦ ap (λ (w : ℕ). (s.thread w).priority) (sym (eqb→eq t u same))
      | inr differ ↦ well home u (ground (arith, count-append u (s.queue home) (t ∷ []), differ))
    ]

sched_remove-WellQueued : (t : ℕ) (s : Sched) → WellQueued s → WellQueued (sched_remove t s)
unfolding sched_remove
sched_remove-WellQueued t s well i u =
    in_queue s home i u (remove t (s.queue home))
      (λ h. well home u (count-remove_less t u (s.queue home) h)) well
  where
    home : ℕ
    home = (s.thread t).priority

switch_to-WellQueued : (now t : ℕ) (s : Sched) → WellQueued s → WellQueued (switch_to now t s)
unfolding switch_to
switch_to-WellQueued now t s well = by_current s.current
  where
    v : Thread
    v = record (s.thread t) { preempt_at = add64 now timeslice }

    s' : Sched
    s' = sched_remove t (record s { thread = with_thread s.thread t v; current = some t })

    kept : WellQueued s'
    kept =
        sched_remove-WellQueued t (record s { thread = with_thread s.thread t v; current = some t })
          (WellQueued-with s t v (some t) refl well)

    by_current : (o : Option ℕ) → WellQueued (elim o [ none ↦ s' | some old ↦ sched_add old s' ])
    by_current none = kept
    by_current (some old) = sched_add-WellQueued old s' kept

pick-Queued : (now : ℕ) (s : Sched) → WellQueued s → Queued (pick now s)
unfolding pick
pick-Queued now s well = chosen (sched_choose s)
  where
    idle :
        (o : Option ℕ)
        → Queued (elim o [
          | none ↦ fault
          | some old ↦ if is_runnable (s.thread old).state then scheduled s else fatal
        ])
    idle none = tt
    idle (some old) = elim (Bool-cases (is_runnable (s.thread old).state)) [
      | inl stays ↦ rw stays well
      | inr ends ↦ rw ends tt
    ]

    chosen :
        (o : Option ℕ)
        → Queued (elim o [
          | some t ↦ scheduled (switch_to now t s)
          | none ↦ elim s.current [
            | none ↦ fault
            | some old ↦ if is_runnable (s.thread old).state then scheduled s else fatal
          ]
        ])
    chosen none = idle s.current
    chosen (some t) = switch_to-WellQueued now t s well

sched_schedule-Queued :
    (now later : ℕ) (s : Sched) → WellQueued s → Queued (sched_schedule now later s)
unfolding sched_schedule
sched_schedule-Queued now later s well = by_current s.current
  where
    by_state :
        (old : ℕ) (st : ThreadState)
        → Queued (elim st [
          | runnable ↦ if ltb now (s.thread old).preempt_at then scheduled s else pick later s
          | yielded ↦ pick later (record s {
            thread = with_thread s.thread old (record (s.thread old) { state = runnable });
          })
          | _ ↦ pick later s
        ])
    by_state old runnable = elim (Bool-cases (ltb now (s.thread old).preempt_at)) [
      | inl time_left ↦ rw time_left well
      | inr due ↦ rw due (pick-Queued later s well)
    ]
    by_state old yielded =
        pick-Queued later
          (record s {
            thread = with_thread s.thread old (record (s.thread old) { state = runnable });
          })
          (WellQueued-with s old (record (s.thread old) { state = runnable }) s.current refl well)
    by_state old initial = pick-Queued later s well
    by_state old running = pick-Queued later s well
    by_state old waiting = pick-Queued later s well
    by_state old aborting = pick-Queued later s well
    by_state old aborted = pick-Queued later s well
    by_state old exited = pick-Queued later s well

    by_current :
        (o : Option ℕ)
        → Queued (elim o [
          | none ↦ pick later s
          | some old ↦ elim (s.thread old).state [
            | runnable ↦ if ltb now (s.thread old).preempt_at then scheduled s else pick later s
            | yielded ↦ pick later (record s {
              thread = with_thread s.thread old (record (s.thread old) { state = runnable });
            })
            | _ ↦ pick later s
          ]
        ])
    by_current none = pick-Queued later s well
    by_current (some old) = by_state old (s.thread old).state

-- A thread gets another state, and the scheduler runs.
marked-Queued :
    (now later t : ℕ) (st : ThreadState) (s : Sched)
    → WellQueued s
    → Queued (sched_schedule now later (with_state t st s))
unfolding with_state
marked-Queued now later t st s well =
    sched_schedule-Queued now later (with_state t st s)
      (WellQueued-with s t (record (s.thread t) { state = st }) s.current refl well)

sched_yield-Queued : (now later : ℕ) (s : Sched) → WellQueued s → Queued (sched_yield now later s)
unfolding sched_yield with_state
sched_yield-Queued now later s well = by_current s.current
  where
    by_current :
        (o : Option ℕ)
        → Queued (elim o [
          | none ↦ fault
          | some old ↦ sched_schedule now later (record s {
            thread = with_thread s.thread old (record (s.thread old) { state = yielded });
          })
        ])
    by_current none = tt
    by_current (some old) = marked-Queued now later old yielded s well

thr_exit_current-Queued :
    (now later : ℕ) (s : Sched) → WellQueued s → Queued (thr_exit_current now later s)
unfolding thr_exit_current thr_exit
thr_exit_current-Queued now later s well = by_current s.current
  where
    by_current : (o : Option ℕ) → Queued (elim o [ none ↦ fault | some t ↦ thr_exit now later t s ])
    by_current none = tt
    by_current (some t) = marked-Queued now later t exited s well

thr_abort-Queued :
    (in_kernel : Bool) (now later t : ℕ) (s : Sched)
    → WellQueued s
    → Queued (thr_abort in_kernel now later t s)
unfolding thr_abort
thr_abort-Queued true now later t s well = tt
thr_abort-Queued false now later t s well = marked-Queued now later t aborting s well

Step-WellQueued : (s s' : Sched) → Step s s' → WellQueued s → WellQueued s'
Step-WellQueued s s' (schedules now later e) well =
    subst Queued e (sched_schedule-Queued now later s well)
Step-WellQueued s s' (yields_once now later e) well =
    subst Queued e (sched_yield-Queued now later s well)
Step-WellQueued s s' (exits now later e) well =
    subst Queued e (thr_exit_current-Queued now later s well)
Step-WellQueued s s' (aborts in_kernel now later t e) well =
    subst Queued e (thr_abort-Queued in_kernel now later t s well)
Step-WellQueued s s' (adds t e) well = subst WellQueued e (sched_add-WellQueued t s well)
Step-WellQueued s s' (removes t e) well = subst WellQueued e (sched_remove-WellQueued t s well)

Reach-WellQueued : (s s' : Sched) → Reach s s' → WellQueued s → WellQueued s'
Reach-WellQueued s _ here well = well
Reach-WellQueued s s'' (later_on {s'} r step) well =
    Step-WellQueued s' s'' step (Reach-WellQueued s s' r well)

-- From a state in which each queued thread has the priority of its queue, as when there is none, the
-- calls of the scheduler and of threads that yield, end, are aborted, added or removed lead only to
-- such states; and in each of them `sched_schedule` leaves every thread in as many places as it was,
-- queued or current, or ends with the fatal error and no queued thread can run, or reads a NULL thread
-- since there is no current one either.
pub reached-Settled :
    (s s' : Sched)
    → WellQueued s
    → Reach s s'
    → WellQueued s' × ((now later : ℕ) → Settled s' (sched_schedule now later s'))
reached-Settled s s' well r =
    let well' = Reach-WellQueued s s' r well in
    (well', λ now later. sched_schedule-Settled now later s' well')
