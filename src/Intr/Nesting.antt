-- ===== src/Intr/Nesting.antt =====
-- intr_disable, intr_enable and intr_set_mode of src/intr.c. The instructions cli and sti are the flag `enabled`.
use tachyon.Prelude.{
  ℕ, zero, suc, ◌+◌, ◌-◌, ◌%◌, ◌≤◌, ◌<◌, ◌≡◌, refl, ap, ◌∙◌, ◌⊎◌, inl, inr, Bool, true, false, not,
  ◌&&◌, ◌||◌, arith, ltb, ◌==◌, if◌then◌else◌, lt→ltb, eq→eqb, ne→eqb, lt-or-ge,
}
use tachyon.Intr.{
  max_intr, Mode, empty, handler, list, Gate, Change, changed, refused, wrong_kind, with_gate,
}

-- The count of the execution context, a `uint8_t`, and the processor's flag
pub record Interrupts : Type 0 where
  pub ifda_cnt : ℕ
  pub enabled : Bool

pub intr_disable : Interrupts → Interrupts
intr_disable s = record { ifda_cnt = (s.ifda_cnt + 1) % 256; enabled = false }

pub intr_enable : Interrupts → Bool → Bool × Interrupts
intr_enable s do_it =
    let cnt = if ltb 0 s.ifda_cnt then s.ifda_cnt - 1 else s.ifda_cnt in
    if cnt == 0
    then (true, record { ifda_cnt = cnt; enabled = if do_it then true else s.enabled })
    else (false, record s { ifda_cnt = cnt })

abbrev pub common : Mode → Mode → Bool
common a b =
    (a.single_handler && b.single_handler)
    || (a.multi_handler && b.multi_handler)
    || (a.notify_all && b.notify_all)

-- The handlers of a gate are dropped; a single handler is read as a list.
pub intr_set_mode : (ℕ → Gate) → ℕ → Mode → Change
intr_set_mode table num mode =
    let gate = table num in
    if not (ltb num max_intr)
    then refused
    else if common gate.mode mode
    then changed table
    else elim gate.h [
      | handler f ↦ wrong_kind
      | empty ↦ changed (with_gate table num (record { mode = mode; h = empty }))
      | list fs ↦ changed (with_gate table num (record { mode = mode; h = empty }))
    ]

-- `n` calls of intr_disable
abbrev pub disabled : ℕ → Interrupts → Interrupts
disabled zero s = s
disabled (suc n) s = disabled n (intr_disable s)

-- `n` calls of intr_enable
abbrev pub released : ℕ → Interrupts → Interrupts
released zero s = s
released (suc n) s = released n ((intr_enable s true).1)

disabled_count :
    (n : ℕ) (s : Interrupts) → s.ifda_cnt + n < 256 → (disabled n s).ifda_cnt ≡ s.ifda_cnt + n
unfolding intr_disable
disabled_count zero s small = omega arith
disabled_count (suc n) s small = disabled_count n (intr_disable s) (omega arith) ∙ omega arith

disabled_off : (n : ℕ) (s : Interrupts) → s.enabled ≡ false → (disabled n s).enabled ≡ false
unfolding intr_disable
disabled_off zero s off = off
disabled_off (suc n) s off = disabled_off n (intr_disable s) refl

-- A call of intr_enable inside of the nesting, and the last one
intr_enable_inside :
    (s : Interrupts)
    → 1 < s.ifda_cnt
    → intr_enable s true ≡ (false, record s { ifda_cnt = s.ifda_cnt - 1 })
unfolding intr_enable
intr_enable_inside s less =
    rw (lt→ltb 0 s.ifda_cnt (omega arith), ne→eqb (s.ifda_cnt - 1) 0 (omega arith)) refl

intr_enable_last :
    (s : Interrupts)
    → s.ifda_cnt ≡ 1
    → intr_enable s true ≡ (true, record { ifda_cnt = 0; enabled = true })
unfolding intr_enable
intr_enable_last s one = rw one refl

released_inside :
    (k : ℕ) (s : Interrupts)
    → k < s.ifda_cnt
    → released k s ≡ record s { ifda_cnt = s.ifda_cnt - k }
released_inside zero s less = ap (λ (n : ℕ). record s { ifda_cnt = n }) (omega arith)
released_inside (suc k) s less =
    ap (λ (x : Bool × Interrupts). released k (x.1)) (intr_enable_inside s (omega arith))
    ∙ released_inside k (record s { ifda_cnt = s.ifda_cnt - 1 }) (omega arith)
    ∙ ap (λ (n : ℕ). record s { ifda_cnt = n }) (omega arith)

-- From a state in which interrupts were never disabled, after `n` + 1 calls of intr_disable, fewer than
-- 256, and `k` of as many calls of intr_enable: the interrupts are off; the next call of intr_enable
-- returns true and turns them on if it is the last one, with `k` = `n`, where the count is 0 again, and
-- returns false and leaves them off if it is not.
pub intr_enable-intr_disable :
    (n k : ℕ) (s : Interrupts)
    → s.ifda_cnt ≡ 0
    → suc n < 256
    → k ≤ n
    → ((released k (disabled (suc n) s)).enabled ≡ false)
      × (intr_enable (released k (disabled (suc n) s)) true
          ≡ (k == n, record { ifda_cnt = n - k; enabled = k == n }))
unfolding intr_disable
intr_enable-intr_disable n k s start small upto =
    let count : d.ifda_cnt ≡ suc n = disabled_count (suc n) s (omega arith) ∙ omega arith in
    let at_k : released k d ≡ record { ifda_cnt = suc n - k; enabled = false } =
      released_inside k d (omega arith)
      ∙ ap (λ (c : ℕ). record { ifda_cnt = c - k; enabled = d.enabled }) count
      ∙ ap (λ (b : Bool). record { ifda_cnt = suc n - k; enabled = b }) off in
    (
      ap (λ (x : Interrupts). x.enabled) at_k,
      ap (λ (x : Interrupts). intr_enable x true) at_k ∙ by_place (lt-or-ge k n),
    )
  where
    d : Interrupts
    d = disabled (suc n) s

    off : d.enabled ≡ false
    off = disabled_off n (intr_disable s) refl

    by_place :
        (k < n) ⊎ (n ≤ k)
        → intr_enable (record { ifda_cnt = suc n - k; enabled = false }) true
          ≡ (k == n, record { ifda_cnt = n - k; enabled = k == n })
    by_place (inl less) =
        intr_enable_inside (record { ifda_cnt = suc n - k; enabled = false }) (omega arith)
        ∙ rw (ne→eqb k n (omega arith))
            (ap (λ (c : ℕ). (false, record { ifda_cnt = c; enabled = false })) (omega arith))
    by_place (inr last) =
        intr_enable_last (record { ifda_cnt = suc n - k; enabled = false }) (omega arith)
        ∙ rw (eq→eqb k n (omega arith)) (
            ap (λ (c : ℕ). (true, record { ifda_cnt = c; enabled = true })) {x = 0} {y = n - k}
              (omega arith))
