-- ===== src/Intr/Tests.antt =====
-- The theorems on src/intr.c at a gate with three entries.
use tachyon.Prelude.{ℕ, ◌≡◌, refl, Bool, true, false, [], ◌∷◌, arith, ◌==◌, if◌then◌else◌}
use tachyon.Intr.{list, Gate, handled, unhandled, intr_dispatch}
use tachyon.Intr.Nesting.{Interrupts, intr_enable, disabled, released, intr_enable-intr_disable}
use tachyon.Intr.Dispatch.{present, UpToAnswer, intr_dispatch-UpToAnswer, intr_dispatch_all}

abbrev answers : ℕ → Bool
answers f = f == 32

abbrev table : Bool → ℕ → Gate
table all _ = record {
  mode = record { single_handler = false; multi_handler = true; notify_all = all };
  h = list (16 ∷ 32 ∷ 0 ∷ 48 ∷ []);
}

intr_dispatch-UpToAnswer_example :
    (stop : Bool) × UpToAnswer answers
      (present (16 ∷ 32 ∷ 0 ∷ 48 ∷ []))
      (intr_dispatch answers (table false) 50).0
      stop
    × ((intr_dispatch answers (table false) 50).1 ≡ (if stop then handled else unhandled 50))
intr_dispatch-UpToAnswer_example =
    intr_dispatch-UpToAnswer answers (table false) 50 false (16 ∷ 32 ∷ 0 ∷ 48 ∷ []) (omega arith)
      refl

intr_dispatch_all_example :
    intr_dispatch answers (table true) 33 ≡ (present (16 ∷ 32 ∷ 0 ∷ 48 ∷ []), unhandled 33)
intr_dispatch_all_example =
    intr_dispatch_all answers (table true) 33 false (16 ∷ 32 ∷ 0 ∷ 48 ∷ []) (omega arith) refl

abbrev never_disabled : Interrupts
never_disabled = record { ifda_cnt = 0; enabled = true }

intr_enable-intr_disable_example :
    ((released 2 (disabled 3 never_disabled)).enabled ≡ false)
    × (intr_enable (released 2 (disabled 3 never_disabled)) true
        ≡ (true, record { ifda_cnt = 0; enabled = true }))
intr_enable-intr_disable_example =
    intr_enable-intr_disable 2 2 never_disabled refl (omega arith) (omega arith)
