-- ===== src/Vmem/Lookup.antt =====
-- The walk of src/vmem_mgmt.c: what VM_CHECK_ENTRY and vmem_mgmt_split leave behind.
use tachyon.Prelude.{
  ℕ, zero, suc, ◌≤◌, ◌<◌, ◌≡◌, refl, ap, ◌∙◌, ◌⊎◌, inl, inr, Bool, true, false, not, ◌&&◌, ◌||◌,
  Option, some, List, [], ◌∷◌, arith, eq→eqb, ne→eqb, Bool-cases,
}
use tachyon.Vmem.{
  Flags, or_flags, no_flags, Entry, Level, put, Tables, idx_pml4, idx_pdpt, idx_pd, Checked,
  entered, not_found, out_of_memory, add_table, check_entry, table_not_mapped, small_expected,
  large_expected, Split, success, failed, halted, split_pt, split_pd, split_pdpt, vmem_mgmt_split,
}

-- What VM_CHECK_ENTRY says of the entry that it leaves.
record IsEntered (u : Flags) (this : Level) (t i : ℕ) (this' : Level) : Type 0 where
  pub present : (this' t i).flags.present ≡ true
  pub large :
      u.large ≡ false
      → ((this t i).flags.present && (this t i).flags.large) ≡ false
      → (this' t i).flags.large ≡ false

-- `n` pages that are not at 0 are left.
abbrev pub Enough : ℕ → List ℕ → Type 0
Enough zero fresh = 0 ≤ 0
Enough (suc n) [] = ⊥
Enough (suc n) (p ∷ rest) = (0 < p) × Enough n rest

Enough-less : (n : ℕ) (fresh : List ℕ) → Enough (suc n) fresh → Enough n fresh
Enough-less zero fresh h = omega arith
Enough-less (suc n) [] h = h
Enough-less (suc n) (p ∷ rest) (some_page, h) = (some_page, Enough-less n rest h)

-- Of VM_CHECK_ENTRY with VM_SPLIT_ALLOC, with one page at least: it goes on.
abbrev CheckEnd : ℕ → Flags → Level → ℕ → ℕ → Checked → Type 0
CheckEnd n u this t i (entered this' next' rest) = IsEntered u this t i this' × Enough n rest
CheckEnd n u this t i not_found = ⊥
CheckEnd n u this t i out_of_memory = ⊥

pub put_here : (l : Level) (t i : ℕ) (e : Entry) → put l t i e t i ≡ e
put_here l t i e = rw (eq→eqb t t refl, eq→eqb i i refl) refl

put-IsEntered :
    (u : Flags) (this : Level) (t i : ℕ) (e : Entry)
    → e.flags.present ≡ true
    → (u.large ≡ false
        → ((this t i).flags.present && (this t i).flags.large) ≡ false
        → e.flags.large ≡ false)
    → IsEntered u this t i (put this t i e)
put-IsEntered u this t i e p l = record {
  present = ap (λ (x : Entry). x.flags.present) (put_here this t i e) ∙ p;
  large = λ a b. ap (λ (x : Entry). x.flags.large) (put_here this t i e) ∙ l a b;
}

add_table-CheckEnd :
    (n : ℕ) (u : Flags) (this next : Level) (t i : ℕ) (fresh : List ℕ)
    → Enough (suc n) fresh
    → CheckEnd n u this t i (add_table u this next t i fresh)
unfolding add_table
add_table-CheckEnd n u this next t i [] h = h
add_table-CheckEnd n u this next t i (phys ∷ fresh) (some_page, h) =
    rw (ne→eqb phys 0 (omega arith)) (
      put-IsEntered u this t i
          (record {
            addr = phys;
            flags = or_flags (record no_flags { present = true; writable = true }) u;
          })
          refl (λ a b. a),
      h,
    )

still_small :
    (f u : Flags)
    → f.present ≡ true
    → u.large ≡ false
    → (f.present && f.large) ≡ false
    → (f.large || u.large) ≡ false
still_small f u there a b = both f.present f.large u.large there a b
  where
    both : (p l v : Bool) → p ≡ true → v ≡ false → (p && l) ≡ false → (l || v) ≡ false
    both true true v p a b = cc b
    both true false v p a b = a
    both false l v p a b = absurd (cc p)

check_entry-CheckEnd :
    (n : ℕ) (u : Flags) (this next : Level) (t i : ℕ) (fresh : List ℕ)
    → Enough (suc n) fresh
    → CheckEnd n u this t i (check_entry true u this next t i fresh)
unfolding check_entry
check_entry-CheckEnd n u this next t i fresh h = elim (Bool-cases (this t i).flags.present) [
  | inl there ↦ rw there (
    put-IsEntered u this t i
        (record (this t i) { flags = or_flags (record (this t i).flags { present = true }) u }) refl
        (λ a b. still_small (this t i).flags u there a b),
    Enough-less n fresh h,
  )
  | inr absent ↦ rw absent (add_table-CheckEnd n u this next t i fresh h)
]

-- Without VM_SPLIT_ALLOC, an entry that is present is left as it is.
pub check_entry_present :
    (u : Flags) (this next : Level) (t i : ℕ) (fresh : List ℕ)
    → (this t i).flags.present ≡ true
    → check_entry false u this next t i fresh ≡ entered this next fresh
unfolding check_entry
check_entry_present u this next t i fresh h = rw h refl

-- The tables of the upper levels lead to a page directory.
pub record Reaches (s : Tables) (space virt pd : ℕ) : Type 0 where
  pub upper : (s.pml4 space (idx_pml4 virt)).flags.present ≡ true
  pub lower : (s.pdpt ((s.pml4 space (idx_pml4 virt)).addr) (idx_pdpt virt)).flags.present ≡ true
  pub directory : pd ≡ (s.pdpt ((s.pml4 space (idx_pml4 virt)).addr) (idx_pdpt virt)).addr

pub Reaches-split :
    (s : Tables) (space virt pd : ℕ) (large : Bool) (u : Flags)
    → Reaches s space virt pd
    → vmem_mgmt_split s space virt large false u ≡ split_pd s pd virt large false u
unfolding vmem_mgmt_split split_pdpt
Reaches-split s space virt pd large u h =
    rw
      (
        vmem_mgmt_split,
        check_entry_present u s.pml4 s.pdpt space (idx_pml4 virt) s.fresh h.upper,
        split_pdpt,
        check_entry_present u s.pdpt s.pd ((s.pml4 space (idx_pml4 virt)).addr) (idx_pdpt virt)
            s.fresh h.lower,
        h.directory,
      )
      refl

-- What a split with VM_SPLIT_ALLOC finds at the last level: a page table, or an entry for a large page.
abbrev pub Found : Tables → ℕ → ℕ → Option ℕ → Bool → Type 0
Found s virt pd pt true =
    ((s.pd pd (idx_pd virt)).flags.present && not (s.pd pd (idx_pd virt)).flags.large) ≡ false
Found s virt pd pt false =
    ((s.pd pd (idx_pd virt)).flags.present ≡ true)
    × ((s.pd pd (idx_pd virt)).flags.large ≡ false)
    × (pt ≡ some ((s.pd pd (idx_pd virt)).addr))

-- Of a split with VM_SPLIT_ALLOC: it finds tables, or a page of the other size is in the way.
abbrev pub SplitEnd : ℕ → ℕ → Bool → Split → Type 0
SplitEnd space virt large (success pd pt s) = Reaches s space virt pd × Found s virt pd pt large
SplitEnd space virt large (failed table_not_mapped s) = ⊥
SplitEnd space virt large (failed small_expected s) =
    (large ≡ false)
    × ((pd : ℕ) × Reaches s space virt pd
        × ((s.pd pd (idx_pd virt)).flags.present && (s.pd pd (idx_pd virt)).flags.large) ≡ true)
SplitEnd space virt large (failed large_expected s) =
    (large ≡ true)
    × ((pd : ℕ) × Reaches s space virt pd
        × ((s.pd pd (idx_pd virt)).flags.present && not (s.pd pd (idx_pd virt)).flags.large) ≡ true)
SplitEnd space virt large halted = ⊥

split_pt-SplitEnd :
    (s : Tables) (space virt pd : ℕ) (u : Flags)
    → u.large ≡ false
    → Reaches s space virt pd
    → ((s.pd pd (idx_pd virt)).flags.present && (s.pd pd (idx_pd virt)).flags.large) ≡ false
    → Enough 1 s.fresh
    → SplitEnd space virt false (split_pt s pd virt true u)
unfolding split_pt
split_pt-SplitEnd s space virt pd u small reach no_page enough =
    go (check_entry true u s.pd s.pt pd (idx_pd virt) s.fresh)
      (check_entry-CheckEnd 0 u s.pd s.pt pd (idx_pd virt) s.fresh enough)
  where
    go :
        (c : Checked)
        → CheckEnd 0 u s.pd pd (idx_pd virt) c
        → SplitEnd space virt false (elim c [
          | entered l n f ↦
              success pd (some ((l pd (idx_pd virt)).addr)) (record s { pd = l; pt = n; fresh = f })
          | not_found ↦ failed table_not_mapped s
          | out_of_memory ↦ halted
        ])
    go (entered l n f) (h, more) = (
      record { upper = reach.upper; lower = reach.lower; directory = reach.directory },
      (h.present, h.large small no_page, refl),
    )
    go not_found h = h
    go out_of_memory h = h

split_pd-SplitEnd :
    (s : Tables) (space virt pd : ℕ) (u : Flags)
    → Reaches s space virt pd
    → Enough 1 s.fresh
    → SplitEnd space virt u.large (split_pd s pd virt u.large true u)
unfolding split_pd
split_pd-SplitEnd s space virt pd u reach enough =
    go u.large refl (Bool-cases (here.present && not here.large))
      (Bool-cases (here.present && here.large))
  where
    here : Flags
    here = (s.pd pd (idx_pd virt)).flags

    go :
        (large : Bool)
        → u.large ≡ large
        → ((here.present && not here.large) ≡ true) ⊎ ((here.present && not here.large) ≡ false)
        → ((here.present && here.large) ≡ true) ⊎ ((here.present && here.large) ≡ false)
        → SplitEnd space virt large (split_pd s pd virt large true u)
    go true e (inl table) page = rw table (refl, (pd, reach, table))
    go true e (inr no_table) page = rw no_table (reach, no_table)
    go false e table (inl page) = rw page (refl, (pd, reach, page))
    go false e table (inr no_page) =
        rw no_page (split_pt-SplitEnd s space virt pd u e reach no_page enough)

split_pdpt-SplitEnd :
    (s : Tables) (space virt : ℕ) (u : Flags)
    → (s.pml4 space (idx_pml4 virt)).flags.present ≡ true
    → Enough 2 s.fresh
    → SplitEnd space virt u.large
        (split_pdpt s ((s.pml4 space (idx_pml4 virt)).addr) virt u.large true u)
unfolding split_pdpt
split_pdpt-SplitEnd s space virt u upper enough =
    go (check_entry true u s.pdpt s.pd pdpt (idx_pdpt virt) s.fresh)
      (check_entry-CheckEnd 1 u s.pdpt s.pd pdpt (idx_pdpt virt) s.fresh enough)
  where
    pdpt : ℕ
    pdpt = (s.pml4 space (idx_pml4 virt)).addr

    go :
        (c : Checked)
        → CheckEnd 1 u s.pdpt pdpt (idx_pdpt virt) c
        → SplitEnd space virt u.large (elim c [
          | entered l n f ↦
              split_pd
                (record s { pdpt = l; pd = n; fresh = f })
                ((l pdpt (idx_pdpt virt)).addr)
                virt
                u.large
                true
                u
          | not_found ↦ failed table_not_mapped s
          | out_of_memory ↦ halted
        ])
    go (entered l n f) (h, more) =
        split_pd-SplitEnd (record s { pdpt = l; pd = n; fresh = f }) space virt
          ((l pdpt (idx_pdpt virt)).addr) u
          (record { upper = upper; lower = h.present; directory = refl }) more
    go not_found h = h
    go out_of_memory h = h

-- vmem_mgmt_split with VM_SPLIT_ALLOC and three pages that pmem_alloc has left is not fatal: it finds the
-- tables for the address, or reports that a page of the other size is in the way, which is so.
pub vmem_mgmt_split-SplitEnd :
    (s : Tables) (space virt : ℕ) (u : Flags)
    → Enough 3 s.fresh
    → SplitEnd space virt u.large (vmem_mgmt_split s space virt u.large true u)
unfolding vmem_mgmt_split
vmem_mgmt_split-SplitEnd s space virt u enough =
    go (check_entry true u s.pml4 s.pdpt space (idx_pml4 virt) s.fresh)
      (check_entry-CheckEnd 2 u s.pml4 s.pdpt space (idx_pml4 virt) s.fresh enough)
  where
    go :
        (c : Checked)
        → CheckEnd 2 u s.pml4 space (idx_pml4 virt) c
        → SplitEnd space virt u.large (elim c [
          | entered l n f ↦
              split_pdpt
                (record s { pml4 = l; pdpt = n; fresh = f })
                ((l space (idx_pml4 virt)).addr)
                virt
                u.large
                true
                u
          | not_found ↦ failed table_not_mapped s
          | out_of_memory ↦ halted
        ])
    go (entered l n f) (h, more) =
        split_pdpt-SplitEnd (record s { pml4 = l; pdpt = n; fresh = f }) space virt u h.present more
    go not_found h = h
    go out_of_memory h = h
