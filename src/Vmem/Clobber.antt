-- ===== src/Vmem/Clobber.antt =====
-- vmem_mgmt_clobber_spc of src/vmem_mgmt.c: the tables of an address space are given back, level by level.
pub mod Closed
use tachyon.Prelude.{ℕ, zero, suc, ◌+◌, false, not, ◌&&◌, List, ◌∷◌, ◌==◌, if◌then◌else◌}
use tachyon.Vmem.{Entry, no_entry, put, Tables}

-- The tables, and the calls of pmem_free with address and length, the last one first.
abbrev pub State : Type 0
State = Tables × List (ℕ × ℕ)

-- `for(i = 0; i < 512; ++i)` with the rounds left
pub rounds : ℕ → ℕ → (ℕ → State → State) → State → State
rounds zero i body s = s
rounds (suc k) i body s = rounds k (i + 1) body (body i s)

-- `level[i] &= ~PG_PRESENT`
abbrev pub absent : Entry → Entry
absent e = record e { flags = record e.flags { present = false } }

abbrev pub pt_round : ℕ → ℕ → State → State
pt_round t i (s, freed) =
    let e = s.pt t i in
    if e.flags.present
    then (record s { pt = put s.pt t i (absent e) }, (e.addr, 4096) ∷ freed)
    else (s, freed)

pub vmem_mgmt_clobber_pt : ℕ → State → State
vmem_mgmt_clobber_pt t s = rounds 512 0 (pt_round t) s

-- The end of a round at a page directory: the table is freed and its entry is not present any more.
abbrev pub pd_end : ℕ → ℕ → ℕ → State → State
pd_end t i addr (s, freed) =
    (record s { pd = put s.pd t i (absent (s.pd t i)) }, (addr, 4096) ∷ freed)

abbrev pub pd_round : ℕ → ℕ → State → State
pd_round t i (s, freed) =
    let e = s.pd t i in
    if e.flags.present
    then pd_end t i e.addr (
        if e.flags.large
        then (s, (e.addr, 2097152) ∷ freed)
        else if e.addr == 0
        then (s, freed)
        else vmem_mgmt_clobber_pt e.addr (s, freed))
    else (s, freed)

-- `pt_low` is the address of the kernel's own page table, whose directory has the kernel's large page too.
pub vmem_mgmt_clobber_pd : ℕ → ℕ → State → State
vmem_mgmt_clobber_pd pt_low t (s, freed) =
    let s' =
      if (s.pd t 0).addr == pt_low
      then record s { pd = put (put s.pd t 0 no_entry) t 1 no_entry }
      else s in
    rounds 512 0 (pd_round t) (s', freed)

abbrev pub pdpt_end : ℕ → ℕ → ℕ → State → State
pdpt_end t i addr (s, freed) =
    (record s { pdpt = put s.pdpt t i (absent (s.pdpt t i)) }, (addr, 4096) ∷ freed)

abbrev pub pdpt_round : ℕ → ℕ → ℕ → State → State
pdpt_round pt_low t i (s, freed) =
    let e = s.pdpt t i in
    if e.flags.present
    then pdpt_end t i e.addr
        (if e.addr == 0 then (s, freed) else vmem_mgmt_clobber_pd pt_low e.addr (s, freed))
    else (s, freed)

pub vmem_mgmt_clobber_pdpt : ℕ → ℕ → State → State
vmem_mgmt_clobber_pdpt pt_low t s = rounds 512 0 (pdpt_round pt_low t) s

abbrev pub pml4_end : ℕ → ℕ → ℕ → State → State
pml4_end t i addr (s, freed) =
    (record s { pml4 = put s.pml4 t i (absent (s.pml4 t i)) }, (addr, 4096) ∷ freed)

-- The kernel's own part is left out.
abbrev pub pml4_round : ℕ → ℕ → ℕ → ℕ → State → State
pml4_round kernel_pdpt pt_low space i (s, freed) =
    let e = s.pml4 space i in
    if e.flags.present && not (e.addr == kernel_pdpt)
    then pml4_end space i e.addr
        (if e.addr == 0 then (s, freed) else vmem_mgmt_clobber_pdpt pt_low e.addr (s, freed))
    else (s, freed)

pub vmem_mgmt_clobber_spc : ℕ → ℕ → ℕ → State → State
vmem_mgmt_clobber_spc kernel_pdpt pt_low space s =
    rounds 512 0 (pml4_round kernel_pdpt pt_low space) s
