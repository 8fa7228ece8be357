-- ===== src/Process/Create.antt =====
-- What `prc_new` of src/process.c leaves.
use tachyon.Prelude.{
  ℕ, ◌≡◌, refl, ◌≢◌, ◌⊎◌, inl, inr, Bool, true, false, not, none, some, List, [], ◌∷◌, ◌++◌, arith,
  ◌==◌, if◌then◌else◌, eqb→ne, ne→eqb, Bool-cases,
}
use tachyon.Prelude.Words.{add64}
use tachyon.Heap.{Words, Heap, heap_init}
use tachyon.Heap.Tiles.{tile, IsHeap}
use tachyon.Heap.Init.{Initialised, heap_init-Initialised}
use tachyon.Process.{
  Kernel, Resource, heap_page, thread_list, process_memory, Effect, gets, gives, deletes_heap,
  fresh_heap, Made, fail_block, gave_up, prc_ready, got_page, prc_in_space, prc_new,
}

-- What is got is given back in the opposite order, around `middle`.
abbrev pub balanced : List Resource → List Effect → List Effect
balanced [] middle = middle
balanced (r ∷ rs) middle = gets r ∷ (balanced rs middle ++ gives r ∷ [])

-- What stays of a call that fails: nothing, or the page of the heap, if there was one.
abbrev pub Leaves : ℕ → List Effect → Type 0
Leaves phys middle =
    (middle ≡ [])
    ⊎ ((phys ≢ 0)
        × ((middle ≡ gets heap_page ∷ []) ⊎ (middle ≡ gets heap_page ∷ deletes_heap ∷ [])))

-- A process with a new number and an empty, valid heap, while the address space is as before; or NULL
-- with all that was got given back but a page of the heap, and the number not used.
abbrev pub MadeEnd : ℕ → ℕ → ℕ → Kernel → Made → Type 0
MadeEnd space priority phys k made = elim made.process as (λ x. Type 0) [
  | some p ↦
      (p.id ≡ k.next_pid)
      × (p.space ≡ space)
      × (p.priority ≡ priority)
      × (p.threads ≡ [])
      × IsHeap made.memory p.heap (tile 4080 false ∷ [])
      × (p.heap.valid ≡ true)
      × (made.kernel.next_pid ≡ add64 k.next_pid 1)
      × (made.kernel.active ≡ k.active)
  | none ↦
      (made.kernel.next_pid ≡ k.next_pid)
      × ((rs : List Resource) × (middle : List Effect) × (made.effects ≡ balanced rs middle)
          × Leaves phys middle)
]

both : List Resource
both = process_memory ∷ thread_list ∷ []

-- The two failures behind the switch to the space.
no_heap-MadeEnd :
    (prc list space priority phys : ℕ) (valid : Bool) (m : Words) (k : Kernel)
    → prc == 0 ≡ false
    → list == 0 ≡ false
    → valid ≡ false
    → MadeEnd space priority phys k
        (gave_up (record k { active = space }) m (got_page phys) (fail_block prc 0 valid list))
unfolding gave_up fail_block got_page both
no_heap-MadeEnd prc list space priority phys valid m k a c v = elim (Bool-cases (phys == 0)) [
  | inl no_page ↦ rw (a, c, v, no_page) ((refl, (both, [], refl, inl refl)))
  | inr page ↦
      rw (a, c, v, page)
        ((refl, (both, gets heap_page ∷ [], refl, inr (eqb→ne phys 0 page, inl refl))))
]

no_stacks-MadeEnd :
    (prc list space priority phys stka : ℕ) (valid : Bool) (m : Words) (k : Kernel)
    → prc == 0 ≡ false
    → list == 0 ≡ false
    → phys == 0 ≡ false
    → stka == 0 ≡ true
    → valid ≡ true
    → MadeEnd space priority phys k
        (gave_up (record k { active = space }) m (got_page phys) (fail_block prc stka valid list))
unfolding gave_up fail_block got_page both
no_stacks-MadeEnd prc list space priority phys stka valid m k a c page s v =
    rw (a, c, page, s, v)
      ((refl, (both, gets heap_page ∷ deletes_heap ∷ [], refl, inr (eqb→ne phys 0 page, inr refl))))

prc_in_space-MadeEnd :
    (prc list space priority : ℕ) (mapped : Bool) (phys stka : ℕ) (m : Words) (k : Kernel)
    → prc == 0 ≡ false
    → list == 0 ≡ false
    → MadeEnd space priority phys k (prc_in_space prc list space priority mapped phys stka m k)
unfolding prc_in_space prc_ready
prc_in_space-MadeEnd prc list space priority mapped phys stka m k a c =
    by_heap (heap_init none space mapped phys m fresh_heap) (
      heap_init-Initialised space mapped phys m fresh_heap (omega arith) refl (omega arith)
        (omega arith))
  where
    by_heap :
        (out : Bool × Words × Heap)
        → Initialised space mapped phys m fresh_heap out
        → MadeEnd space priority phys k (
            let k' = record k { active = space } in
            if not out.0
            then gave_up k' out.1 (got_page phys) (fail_block prc 0 out.2.valid list)
            else if stka == 0
            then gave_up k' out.1 (got_page phys) (fail_block prc stka out.2.valid list)
            else prc_ready space priority out.1 out.2 k)
    by_heap (false, m', heap) h =
        no_heap-MadeEnd prc list space priority phys heap.valid m' k a c h.2
    by_heap (true, m', heap) h = by_stacks (stka == 0) refl
      where
        by_stacks :
            (b : Bool)
            → stka == 0 ≡ b
            → MadeEnd space priority phys k (
                if b
                then gave_up
                    (record k { active = space })
                    m'
                    (got_page phys)
                    (fail_block prc stka heap.valid list)
                else prc_ready space priority m' heap k)
        by_stacks true e =
            no_stacks-MadeEnd prc list space priority phys stka heap.valid m' k a c
              (ne→eqb phys 0 (λ z. omega (arith, h.2, z))) e h.4
        by_stacks false e = (refl, refl, refl, refl, h.3, h.4, refl, refl)

-- `prc_new` ends in one of two ways, whatever its calls return, if none of them is fatal: with a process of the given space and
-- priority that has the next number, no threads, and a valid, well-formed heap of one free block,
-- while the next number is one higher and the active address space is what it was; or with NULL, when
-- the next number is as before and what it got is given back in the opposite order, all but the page
-- for its heap, which is not given back if `pmem_alloc` returned one.
pub prc_new-MadeEnd :
    (prc space list priority : ℕ) (mapped : Bool) (phys stka : ℕ) (m : Words) (k : Kernel)
    → MadeEnd space priority phys k (prc_new prc space list priority mapped phys stka m k)
unfolding prc_new gave_up fail_block
prc_new-MadeEnd prc space list priority mapped phys stka m k =
    by_tests (prc == 0) (space == 0) (list == 0) refl refl
  where
    by_tests :
        (a b c : Bool)
        → prc == 0 ≡ a
        → list == 0 ≡ c
        → MadeEnd space priority phys k (
            if a
            then gave_up k m [] (fail_block prc 0 false 0)
            else if b
            then gave_up k m (gets process_memory ∷ []) (fail_block prc 0 false 0)
            else if c
            then gave_up k m (gets process_memory ∷ []) (fail_block prc 0 false list)
            else prc_in_space prc list space priority mapped phys stka m k)
    by_tests true b c e f = rw e ((refl, ([], [], refl, inl refl)))
    by_tests false true c e f = rw e ((refl, (process_memory ∷ [], [], refl, inl refl)))
    by_tests false false true e f = rw (e, f) ((refl, (process_memory ∷ [], [], refl, inl refl)))
    by_tests false false false e f =
        prc_in_space-MadeEnd prc list space priority mapped phys stka m k e f
