-- ===== src/Intr/Dispatch.antt =====
-- Which handlers `intr_dispatch` of src/intr.c calls, and how it ends.
use tachyon.Prelude.{
  ℕ, ◌<◌, ◌≡◌, refl, ap, inl, inr, Bool, true, false, List, [], ◌∷◌, ◌++◌, ◌==◌, if◌then◌else◌,
  lt→ltb, Bool-cases, All,
}
use tachyon.Intr.{max_intr, list, Gate, handled, call_list, unhandled, dispatch_gate, intr_dispatch}

-- The entries that are not NULL.
abbrev pub present : List ℕ → List ℕ
present [] = []
present (f ∷ fs) = if f == 0 then present fs else f ∷ present fs

abbrev pub Silent : (ℕ → Bool) → List ℕ → Type 0
Silent answers = All λ f. answers f ≡ false

-- The handlers are called up to the first that returns true, and all of them if none does.
abbrev pub UpToAnswer : (ℕ → Bool) → List ℕ → List ℕ → Bool → Type 0
UpToAnswer answers fs calls true =
    (before : List ℕ) × (f : ℕ) × (after : List ℕ) × (fs ≡ before ++ f ∷ after)
    × (calls ≡ before ++ f ∷ [])
    × Silent answers before
    × (answers f ≡ true)
UpToAnswer answers fs calls false = (calls ≡ fs) × Silent answers fs

UpToAnswer-cons :
    (answers : ℕ → Bool) (f : ℕ) (fs calls : List ℕ) (stop : Bool)
    → answers f ≡ false
    → UpToAnswer answers fs calls stop
    → UpToAnswer answers (f ∷ fs) (f ∷ calls) stop
UpToAnswer-cons answers f fs calls true no_answer (before, g, after, e, c, silent, yes_answer) =
    (f ∷ before, g, after, ap (◌∷◌ f) e, ap (◌∷◌ f) c, (no_answer, silent), yes_answer)
UpToAnswer-cons answers f fs calls false no_answer (c, silent) = (ap (◌∷◌ f) c, (no_answer, silent))

call_list-UpToAnswer :
    (answers : ℕ → Bool) (fs : List ℕ)
    → UpToAnswer answers (present fs) (call_list answers false fs).0 (call_list answers false fs).1
unfolding call_list
call_list-UpToAnswer answers [] = (refl, tt)
call_list-UpToAnswer answers (f ∷ fs) = elim (Bool-cases (f == 0)) [
  | inl is_null ↦ rw is_null (call_list-UpToAnswer answers fs)
  | inr is_set ↦ elim (Bool-cases (answers f)) [
    | inl answered ↦ rw (is_set, answered) ([], f, present fs, refl, refl, tt, answered)
    | inr silent ↦
        rw (is_set, silent)
          (UpToAnswer-cons answers f (present fs) _ _ silent (call_list-UpToAnswer answers fs))
  ]
]

call_list_all : (answers : ℕ → Bool) (fs : List ℕ) → call_list answers true fs ≡ (present fs, false)
unfolding call_list
call_list_all answers [] = refl
call_list_all answers (f ∷ fs) = elim (Bool-cases (f == 0)) [
  | inl is_null ↦ rw is_null (call_list_all answers fs)
  | inr is_set ↦ elim (Bool-cases (answers f)) [
    | inl answered ↦
        rw (is_set, answered)
          (ap (λ (r : List ℕ × Bool). (f ∷ r.0, r.1)) (call_list_all answers fs))
    | inr silent ↦
        rw (is_set, silent) (ap (λ (r : List ℕ × Bool). (f ∷ r.0, r.1)) (call_list_all answers fs))
  ]
]

-- At a gate below MAX_INTR with a list of handlers that need not all be told, `intr_dispatch` calls the
-- handlers that are not NULL in order, up to the first that returns true, and then returns; if none
-- does, it calls them all and ends with the report of an unhandled system call or the fatal error.
pub intr_dispatch-UpToAnswer :
    (answers : ℕ → Bool) (table : ℕ → Gate) (num : ℕ) (single : Bool) (fs : List ℕ)
    → num < max_intr
    → table num ≡ record {
      mode = record { single_handler = single; multi_handler = true; notify_all = false };
      h = list fs;
    }
    → (stop : Bool) × UpToAnswer answers (present fs) (intr_dispatch answers table num).0 stop
      × ((intr_dispatch answers table num).1 ≡ (if stop then handled else unhandled num))
unfolding intr_dispatch
intr_dispatch-UpToAnswer answers table num single fs less e = rw (lt→ltb num max_intr less) (
    rw e (
      unfold dispatch_gate in
      ((call_list answers false fs).1, call_list-UpToAnswer answers fs, refl)))

-- At a gate below MAX_INTR with a list of handlers that are all to be told, `intr_dispatch` calls each
-- handler that is not NULL, and ends with the report of an unhandled system call or the fatal error,
-- also where handlers have returned true.
pub intr_dispatch_all :
    (answers : ℕ → Bool) (table : ℕ → Gate) (num : ℕ) (single : Bool) (fs : List ℕ)
    → num < max_intr
    → table num ≡ record {
      mode = record { single_handler = single; multi_handler = true; notify_all = true };
      h = list fs;
    }
    → intr_dispatch answers table num ≡ (present fs, unhandled num)
unfolding intr_dispatch
intr_dispatch_all answers table num single fs less e =
    rw (lt→ltb num max_intr less)
      (rw e (unfold dispatch_gate in rw (call_list_all answers fs) refl))
