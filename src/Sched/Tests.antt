-- ===== src/Sched/Tests.antt =====
-- The theorems on src/sched.c at a state with three threads.
use tachyon.Prelude.{
  ℕ, ◌<◌, ◌≡◌, refl, sym, subst, inl, inr, Bool, some, [], ◌∷◌, arith, ◌==◌, if◌then◌else◌, eqb→eq,
  ne→eqb, Bool-cases,
}
use tachyon.Sched.{
  runnable, waiting, exited, Sched, max_prio, sched_add, sched_remove, choose_in, choose_below,
  sched_choose, scheduled, switch_to, pick, sched_schedule,
}
use tachyon.Sched.RoundRobin.{Rotation}
use tachyon.Sched.Life.{with_state, thr_exit, thr_exit_current, exits, adds, here, later_on}
use tachyon.Sched.Life.Gone.{Gone, thr_exit-Gone}
use tachyon.Sched.Life.Queued.{reached-Settled}
use tachyon.Sched.Yields.{yields, yields-Turn}
use tachyon.Sched.Queues.{count, WellQueued}
use tachyon.Sched.Choice.{Best, sched_choose-Best}
use tachyon.Sched.Schedule.{Settled, sched_schedule-Settled}

-- Two threads wait with priority 3, of which the first cannot run; the time of the third is over.
abbrev three : Sched
three = record {
  queue = λ p. if p == 3 then 16 ∷ 32 ∷ [] else [];
  thread = λ t. record {
    state = if t == 16 then waiting else runnable;
    priority = 3;
    preempt_at = 1000;
  };
  current = some 48;
}

three-WellQueued : WellQueued three
three-WellQueued p t h = elim (Bool-cases (p == 3)) [
  | inl same ↦ sym (eqb→eq p 3 same)
  | inr differ ↦
      absurd
        (omega (arith, subst (λ (b : Bool). 0 < count t (if b then 16 ∷ 32 ∷ [] else [])) differ h))
]

sched_choose-Best_example : Best three max_prio (sched_choose three)
sched_choose-Best_example = sched_choose-Best three

sched_schedule-Settled_example : Settled three (sched_schedule 2000 2001 three)
sched_schedule-Settled_example = sched_schedule-Settled 2000 2001 three three-WellQueued

-- Three threads of priority 3 take turns: one runs and two wait for it.
abbrev turning : Sched
turning = record {
  queue = λ p. if p == 3 then 16 ∷ 32 ∷ [] else [];
  thread = λ t. record { state = runnable; priority = 3; preempt_at = 1000 };
  current = some 48;
}

turning-Rotation : Rotation 3 48 (16 ∷ 32 ∷ []) turning
turning-Rotation = (
  refl,
  refl,
  (
    ((λ e. omega (arith, e)), refl),
    (((λ e. omega (arith, e)), refl), (((λ e. omega (arith, e)), refl), tt)),
  ),
  refl,
  omega arith,
  three-WellQueued,
  λ j l h. rw (ne→eqb j 3 (omega arith)) tt,
)

yields-Turn_example :
    (s' : Sched) × (yields (λ i. 2000) (λ i. 2001) 2 turning ≡ scheduled s')
    × Rotation 3 32 (48 ∷ 16 ∷ []) s'
yields-Turn_example =
    yields-Turn (λ i. 2000) (λ i. 2001) 3 48 32 (16 ∷ []) [] turning turning-Rotation

-- The current thread ends, the second thread in the queue runs, and yields, but there is no other.
abbrev after_exit : Sched
after_exit = switch_to 2001 32 (with_state 48 exited three)

exit_runs : thr_exit 2000 2001 48 three ≡ scheduled after_exit
unfolding thr_exit with_state sched_schedule pick sched_choose choose_below choose_in switch_to
    sched_add sched_remove
exit_runs = refl

thr_exit-Gone_example : Gone 48 (sched_add 64 after_exit)
thr_exit-Gone_example =
    thr_exit-Gone 2000 2001 48 three after_exit (sched_add 64 after_exit) exit_runs
      (later_on here (adds 64 refl))

exit_current_runs : thr_exit_current 2000 2001 three ≡ scheduled after_exit
unfolding thr_exit_current thr_exit with_state sched_schedule pick sched_choose choose_below
    choose_in switch_to sched_add sched_remove
exit_current_runs = refl

reached-Settled_example :
    WellQueued (sched_add 64 after_exit)
    × ((now later : ℕ)
        → Settled (sched_add 64 after_exit) (sched_schedule now later (sched_add 64 after_exit)))
reached-Settled_example =
    reached-Settled three (sched_add 64 after_exit) three-WellQueued
      (later_on (later_on here (exits 2000 2001 exit_current_runs)) (adds 64 refl))
