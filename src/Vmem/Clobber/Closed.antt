-- ===== src/Vmem/Clobber/Closed.antt =====
-- What is left of the upper level of an address space after vmem_mgmt_clobber_spc of src/vmem_mgmt.c.
use tachyon.Prelude.{
  ℕ, zero, suc, ◌+◌, ◌≤◌, ◌<◌, ◌≡◌, refl, sym, ap, ◌∙◌, subst, ◌≢◌, ◌⊎◌, inl, inr, Bool, true,
  false, not, ◌&&◌, List, ◌∷◌, arith, ◌==◌, if◌then◌else◌, eqb→eq, eqb→ne, eq→eqb, ne→eqb,
  Bool-cases, lt-or-ge,
}
use tachyon.Vmem.{Entry, no_entry, Level, put, Tables}
use tachyon.Vmem.Lookup.{put_here}
use tachyon.Vmem.Clobber.{
  State, rounds, absent, pt_round, vmem_mgmt_clobber_pt, pd_end, pd_round, vmem_mgmt_clobber_pd,
  pdpt_end, pdpt_round, vmem_mgmt_clobber_pdpt, pml4_end, pml4_round, vmem_mgmt_clobber_spc,
}

-- What every round keeps, the loop keeps.
rounds_keep :
    (P : State → Type 0) (body : ℕ → State → State)
    → ((i : ℕ) (s : State) → P s → P (body i s))
    → (k i : ℕ) (s : State) → P s
    → P (rounds k i body s)
unfolding rounds
rounds_keep P body keep zero i s h = h
rounds_keep P body keep (suc k) i s h = rounds_keep P body keep k (i + 1) (body i s) (keep i s h)

-- The upper level is as given.
abbrev Upper : Level → State → Type 0
Upper l (s, freed) = s.pml4 ≡ l

pt_round-Upper : (l : Level) (t i : ℕ) (s : State) → Upper l s → Upper l (pt_round t i s)
pt_round-Upper l t i (s, freed) h = elim (Bool-cases (s.pt t i).flags.present) [
  | inl there ↦ rw there h
  | inr gone ↦ rw gone h
]

pd_end-Upper : (l : Level) (t i addr : ℕ) (s : State) → Upper l s → Upper l (pd_end t i addr s)
pd_end-Upper l t i addr (s, freed) h = h

pdpt_end-Upper : (l : Level) (t i addr : ℕ) (s : State) → Upper l s → Upper l (pdpt_end t i addr s)
pdpt_end-Upper l t i addr (s, freed) h = h

clobber_pt-Upper : (l : Level) (t : ℕ) (s : State) → Upper l s → Upper l (vmem_mgmt_clobber_pt t s)
unfolding vmem_mgmt_clobber_pt
clobber_pt-Upper l t s h = rounds_keep (Upper l) (pt_round t) (pt_round-Upper l t) 512 0 s h

pd_round-Upper : (l : Level) (t i : ℕ) (s : State) → Upper l s → Upper l (pd_round t i s)
pd_round-Upper l t i (s, freed) h =
    cases (s.pd t i).flags.present (s.pd t i).flags.large ((s.pd t i).addr == 0)
  where
    cases :
        (there large nothing : Bool)
        → Upper l (
            if there
            then pd_end t i (s.pd t i).addr (
                if large
                then (s, ((s.pd t i).addr, 2097152) ∷ freed)
                else if nothing
                then (s, freed)
                else vmem_mgmt_clobber_pt (s.pd t i).addr (s, freed))
            else (s, freed))
    cases false large nothing = h
    cases true true nothing = h
    cases true false true = h
    cases true false false =
        pd_end-Upper l t i (s.pd t i).addr (vmem_mgmt_clobber_pt (s.pd t i).addr (s, freed))
          (clobber_pt-Upper l (s.pd t i).addr (s, freed) h)

clobber_pd-Upper :
    (l : Level) (pt_low t : ℕ) (s : State) → Upper l s → Upper l (vmem_mgmt_clobber_pd pt_low t s)
unfolding vmem_mgmt_clobber_pd
clobber_pd-Upper l pt_low t (s, freed) h = cases ((s.pd t 0).addr == pt_low)
  where
    cases :
        (low : Bool)
        → Upper l (
            rounds 512 0 (pd_round t) (
              if low then record s { pd = put (put s.pd t 0 no_entry) t 1 no_entry } else s,
              freed,
            ))
    cases true =
        rounds_keep (Upper l) (pd_round t) (pd_round-Upper l t) 512 0
          (record s { pd = put (put s.pd t 0 no_entry) t 1 no_entry }, freed) h
    cases false = rounds_keep (Upper l) (pd_round t) (pd_round-Upper l t) 512 0 (s, freed) h

pdpt_round-Upper :
    (l : Level) (pt_low t i : ℕ) (s : State) → Upper l s → Upper l (pdpt_round pt_low t i s)
pdpt_round-Upper l pt_low t i (s, freed) h =
    cases (s.pdpt t i).flags.present ((s.pdpt t i).addr == 0)
  where
    cases :
        (there nothing : Bool)
        → Upper l (
            if there
            then pdpt_end t i (s.pdpt t i).addr (
                if nothing
                then (s, freed)
                else vmem_mgmt_clobber_pd pt_low (s.pdpt t i).addr (s, freed))
            else (s, freed))
    cases false nothing = h
    cases true true = h
    cases true false =
        pdpt_end-Upper l t i (s.pdpt t i).addr
          (vmem_mgmt_clobber_pd pt_low (s.pdpt t i).addr (s, freed))
          (clobber_pd-Upper l pt_low (s.pdpt t i).addr (s, freed) h)

clobber_pdpt-Upper :
    (l : Level) (pt_low t : ℕ) (s : State) → Upper l s → Upper l (vmem_mgmt_clobber_pdpt pt_low t s)
unfolding vmem_mgmt_clobber_pdpt
clobber_pdpt-Upper l pt_low t s h =
    rounds_keep (Upper l) (pdpt_round pt_low t) (pdpt_round-Upper l pt_low t) 512 0 s h

-- An entry before and after: the kernel's own is as it was, any other is not present any more.
abbrev pub Closed : ℕ → Entry → Entry → Type 0
Closed kernel_pdpt e e' =
    ((e.addr ≡ kernel_pdpt) × (e' ≡ e)) ⊎ ((e.addr ≢ kernel_pdpt) × (e'.flags.present ≡ false))

pml4_end-put :
    (l : Level) (t i addr : ℕ) (s : State)
    → Upper l s
    → (pml4_end t i addr s).0.pml4 ≡ put l t i (absent (l t i))
pml4_end-put l t i addr (s, freed) h = ap (λ (m : Level). put m t i (absent (m t i))) h

put_other : (l : Level) (t i j : ℕ) (e : Entry) → j ≢ i → put l t i e t j ≡ l t j
put_other l t i j e ne = rw (eq→eqb t t refl, ne→eqb j i ne) refl

module _ (kernel_pdpt pt_low space : ℕ) where
  abbrev entry : State → ℕ → Entry
  entry s i = s.0.pml4 space i

  -- A round is about its own entry only.
  record Round (i : ℕ) (s s' : State) : Type 0 where
    own : Closed kernel_pdpt (entry s i) (entry s' i)
    others : (j : ℕ) → j ≢ i → entry s' j ≡ entry s j

  pml4_end-Round :
      (i : ℕ) (s x : State)
      → Upper (s.0.pml4) x
      → (entry s i).addr ≢ kernel_pdpt
      → Round i s (pml4_end space i (entry s i).addr x)
  pml4_end-Round i s x h ne =
      let e = pml4_end-put (s.0.pml4) space i (entry s i).addr x h in
      record {
        own = inr (
          ne,
          ap (λ (l : Level). (l space i).flags.present) e
              ∙ ap (λ (c : Entry). c.flags.present)
                  (put_here (s.0.pml4) space i (absent (entry s i))),
        );
        others = λ j other.
            ap (λ (l : Level). l space j) e
            ∙ put_other (s.0.pml4) space i j (absent (entry s i)) other;
      }

  pml4_round-Round : (i : ℕ) (s : State) → Round i s (pml4_round kernel_pdpt pt_low space i s)
  pml4_round-Round i (s, freed) =
      cases here.flags.present (here.addr == kernel_pdpt) (here.addr == 0) refl refl
    where
      here : Entry
      here = s.pml4 space i

      cases :
          (there own nothing : Bool)
          → here.flags.present ≡ there
          → (here.addr == kernel_pdpt) ≡ own
          → Round i
              (s, freed)
              (if there && not own
                then pml4_end space i here.addr (
                    if nothing
                    then (s, freed)
                    else vmem_mgmt_clobber_pdpt pt_low here.addr (s, freed))
                else (s, freed))
      cases true true nothing p k = record {
        own = inl (eqb→eq here.addr kernel_pdpt k, refl);
        others = λ j ne. refl;
      }
      cases true false true p k =
          pml4_end-Round i (s, freed) (s, freed) refl (eqb→ne here.addr kernel_pdpt k)
      cases true false false p k =
          pml4_end-Round i (s, freed) (vmem_mgmt_clobber_pdpt pt_low here.addr (s, freed))
            (clobber_pdpt-Upper s.pml4 pt_low here.addr (s, freed) refl)
            (eqb→ne here.addr kernel_pdpt k)
      cases false true nothing p k = record {
        own = inl (eqb→eq here.addr kernel_pdpt k, refl);
        others = λ j ne. refl;
      }
      cases false false nothing p k = record {
        own = inr (eqb→ne here.addr kernel_pdpt k, p);
        others = λ j ne. refl;
      }

  -- The rounds from `i` on leave the entries before it, and close the others.
  rounds-Closed :
      (k i : ℕ) (s : State)
      → ((j : ℕ) → j < i → entry (rounds k i (pml4_round kernel_pdpt pt_low space) s) j ≡ entry s j)
        × ((j : ℕ)
            → i ≤ j
            → j < i + k
            → Closed kernel_pdpt
                (entry s j)
                (entry (rounds k i (pml4_round kernel_pdpt pt_low space) s) j))
  unfolding rounds
  rounds-Closed zero i s = (λ j l. refl, λ j l h. absurd (omega arith))
  rounds-Closed (suc k) i s =
      let next = pml4_round kernel_pdpt pt_low space i s in
      let (before, behind) = rounds-Closed k (i + 1) next in
      let step = pml4_round-Round i s in
      (
        λ j l. before j (omega arith) ∙ step.others j (λ e. omega arith),
        λ j l h. elim (lt-or-ge i j) [
          | inl later ↦
              subst
                (λ (e : Entry).
                  Closed kernel_pdpt e
                    (entry (rounds k (i + 1) (pml4_round kernel_pdpt pt_low space) next) j))
                (step.others j (λ e. omega arith)) (behind j (omega arith) (omega arith))
          | inr here ↦
              subst
                (λ (n : ℕ).
                  Closed kernel_pdpt (entry s n)
                    (entry (rounds k (i + 1) (pml4_round kernel_pdpt pt_low space) next) n))
                (omega arith)
                (subst (λ (e : Entry). Closed kernel_pdpt (entry s i) e)
                  (sym (before i (omega arith))) step.own)
        ],
      )

-- vmem_mgmt_clobber_spc leaves no entry in the upper level of the address space that is present, but the
-- kernel's own, which it leaves as they are.
pub vmem_mgmt_clobber_spc-Closed :
    (kernel_pdpt pt_low space i : ℕ) (s : Tables) (freed : List (ℕ × ℕ))
    → i < 512
    → Closed kernel_pdpt
        (s.pml4 space i)
        ((vmem_mgmt_clobber_spc kernel_pdpt pt_low space (s, freed)).0.pml4 space i)
unfolding vmem_mgmt_clobber_spc
vmem_mgmt_clobber_spc-Closed kernel_pdpt pt_low space i s freed inside =
    let (before, all) = rounds-Closed kernel_pdpt pt_low space 512 0 (s, freed) in
    all i (omega arith) (omega arith)
