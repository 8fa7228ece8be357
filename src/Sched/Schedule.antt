-- ===== src/Sched/Schedule.antt =====
-- `sched_schedule` of src/sched.c neither loses nor doubles a thread.
use tachyon.Prelude.{
  ℕ, ◌+◌, ◌<◌, ◌≡◌, refl, sym, ap, ◌∙◌, subst, inl, inr, true, Option, none, some, List, [], ◌∷◌,
  ◌++◌, arith, ltb, ◌==◌, if◌then◌else◌, eq→eqb, Bool-cases,
}
use tachyon.Prelude.Words.{add64}
use tachyon.Sched.{
  ThreadState, initial, runnable, running, yielded, waiting, aborting, aborted, exited, Sched,
  max_prio, timeslice, is_runnable, with_thread, sched_add, sched_remove, sched_choose, Outcome,
  scheduled, fatal, fault, switch_to, pick, sched_schedule,
}
use tachyon.Sched.Queues.{count, count-append, is_current, places, WellQueued}
use tachyon.Sched.Choice.{NoneRuns, Best, sched_choose-Best}
use tachyon.Sched.Switch.{priority_kept, sched_add-places, sched_remove-places}

-- The state in which the chosen thread runs and is still queued.
abbrev prepared : ℕ → ℕ → Sched → Sched
prepared now t s = record s {
  thread = with_thread s.thread t (record (s.thread t) { preempt_at = add64 now timeslice });
  current = some t;
}

prepared-places :
    (now t : ℕ) (s : Sched) (u : ℕ)
    → 0 < count t (s.queue (s.thread t).priority)
    → places (sched_remove t (prepared now t s)) u ≡ count u (s.queue (s.thread u).priority)
prepared-places now t s u queued =
    let v = record (s.thread t) { preempt_at = add64 now timeslice } in
    let k = priority_kept s.thread t v t refl in
    let ku = priority_kept s.thread t v u refl in
    let there : 0 < count t (s.queue (with_thread s.thread t v t).priority) =
      subst (λ (p : ℕ). 0 < count t (s.queue p)) (sym k) queued in
    let same : count u (s.queue (with_thread s.thread t v u).priority)
        ≡ count u (s.queue (s.thread u).priority) =
      ap (λ (p : ℕ). count u (s.queue p)) ku in
    omega (arith, sched_remove-places t (prepared now t s) u there, same)

switch_to-places :
    (now t : ℕ) (s : Sched) (u : ℕ)
    → 0 < count t (s.queue (s.thread t).priority)
    → places (switch_to now t s) u ≡ places s u
unfolding switch_to
switch_to-places now t s u queued = by_current s.current
  where
    by_current :
        (c : Option ℕ)
        → places
            (elim c [
              | none ↦ sched_remove t (prepared now t s)
              | some old ↦ sched_add old (sched_remove t (prepared now t s))
            ])
            u
          ≡ count u (s.queue (s.thread u).priority) + is_current c u
    by_current none = omega (arith, prepared-places now t s u queued)
    by_current (some old) = omega (
      arith,
      sched_add-places old (sched_remove t (prepared now t s)) u,
      prepared-places now t s u queued,
    )

-- Of a result of `sched_schedule`: each thread stands in as many places as before, queued or current;
-- the fatal error means that no queued thread can run, and a fault also that there is no current one.
abbrev pub Settled : Sched → Outcome → Type 0
Settled s (scheduled s') = (u : ℕ) → places s' u ≡ places s u
Settled s fatal = (i : ℕ) → i < max_prio → NoneRuns s (s.queue i)
Settled s fault = (s.current ≡ none) × ((i : ℕ) → i < max_prio → NoneRuns s (s.queue i))

count-found : (t : ℕ) (before after : List ℕ) → 0 < count t (before ++ t ∷ after)
count-found t before after = rw (count-append t before (t ∷ after), eq→eqb t t refl) (omega arith)

pick-Settled : (now : ℕ) (s : Sched) → WellQueued s → Settled s (pick now s)
unfolding pick
pick-Settled now s well = chosen (sched_choose s) (sched_choose-Best s)
  where
    idle :
        (c : Option ℕ)
        → s.current ≡ c
        → ((i : ℕ) → i < max_prio → NoneRuns s (s.queue i))
        → Settled s (elim c [
          | none ↦ fault
          | some old ↦ if is_runnable (s.thread old).state then scheduled s else fatal
        ])
    idle none e clear = (e, clear)
    idle (some old) e clear = elim (Bool-cases (is_runnable (s.thread old).state)) [
      | inl stays ↦ rw stays (λ u. refl)
      | inr ends ↦ rw ends clear
    ]

    chosen :
        (o : Option ℕ)
        → Best s max_prio o
        → Settled s (elim o [
          | some t ↦ scheduled (switch_to now t s)
          | none ↦ elim s.current [
            | none ↦ fault
            | some old ↦ if is_runnable (s.thread old).state then scheduled s else fatal
          ]
        ])
    chosen none best = idle s.current refl best
    chosen (some t) (i, less, (can, (before, after, e, clear)), above) =
        let there : 0 < count t (s.queue i) =
          subst (λ (q : List ℕ). 0 < count t q) (sym e) (count-found t before after) in
        let home = well i t there in
        λ u.
          switch_to-places now t s u (subst (λ (p : ℕ). 0 < count t (s.queue p)) (sym home) there)

-- A state in which only a thread's state differs, and from not being able to run.
woken : Sched → ℕ → Sched
woken s old = record s {
  thread = with_thread s.thread old (record (s.thread old) { state = runnable });
}

NoneRuns-woken : (s : Sched) (old : ℕ) (q : List ℕ) → NoneRuns (woken s old) q → NoneRuns s q
unfolding woken
NoneRuns-woken s old [] h = tt
NoneRuns-woken s old (t ∷ q) h = ((λ can. h.0 (can.0, still t can.1)), NoneRuns-woken s old q h.1)
  where
    still :
        (u : ℕ)
        → is_runnable (s.thread u).state ≡ true
        → is_runnable
            (with_thread s.thread old (record (s.thread old) { state = runnable }) u).state
          ≡ true
    still u e = elim (Bool-cases (u == old)) [ inl same ↦ rw same refl | inr differ ↦ rw differ e ]

Settled-woken : (s : Sched) (old : ℕ) (o : Outcome) → Settled (woken s old) o → Settled s o
unfolding woken
Settled-woken s old (scheduled s') h = λ u.
    h u
    ∙ ap (λ (p : ℕ). count u (s.queue p) + is_current s.current u)
        (priority_kept s.thread old (record (s.thread old) { state = runnable }) u refl)
Settled-woken s old fatal h = λ i l. NoneRuns-woken s old (s.queue i) (h i l)
Settled-woken s old fault h = (h.0, λ i l. NoneRuns-woken s old (s.queue i) (h.1 i l))

-- In a state in which each queued thread has the priority of its queue, `sched_schedule` ends in one
-- of three ways. Normally each thread stands in as many places as before: queued with its priority,
-- or current. It reports the fatal error only if no queued thread can run, and reads a NULL thread
-- only if there is no current thread either.
pub sched_schedule-Settled :
    (now later : ℕ) (s : Sched) → WellQueued s → Settled s (sched_schedule now later s)
unfolding sched_schedule woken
sched_schedule-Settled now later s well = by_current s.current
  where
    woken_well : (old : ℕ) → WellQueued (woken s old)
    woken_well old p t h =
        priority_kept s.thread old (record (s.thread old) { state = runnable }) t refl ∙ well p t h

    by_state :
        (old : ℕ) (st : ThreadState)
        → Settled s (elim st [
          | runnable ↦ if ltb now (s.thread old).preempt_at then scheduled s else pick later s
          | yielded ↦ pick later (woken s old)
          | _ ↦ pick later s
        ])
    by_state old runnable = elim (Bool-cases (ltb now (s.thread old).preempt_at)) [
      | inl time_left ↦ rw time_left (λ u. refl)
      | inr due ↦ rw due (pick-Settled later s well)
    ]
    by_state old yielded =
        Settled-woken s old (pick later (woken s old))
          (pick-Settled later (woken s old) (woken_well old))
    by_state old initial = pick-Settled later s well
    by_state old running = pick-Settled later s well
    by_state old waiting = pick-Settled later s well
    by_state old aborting = pick-Settled later s well
    by_state old aborted = pick-Settled later s well
    by_state old exited = pick-Settled later s well

    by_current :
        (c : Option ℕ)
        → Settled s (elim c [
          | none ↦ pick later s
          | some old ↦ elim (s.thread old).state [
            | runnable ↦ if ltb now (s.thread old).preempt_at then scheduled s else pick later s
            | yielded ↦ pick later (woken s old)
            | _ ↦ pick later s
          ]
        ])
    by_current none = pick-Settled later s well
    by_current (some old) = by_state old (s.thread old).state
