-- ===== src/Vmem/RoundTrip.antt =====
-- vmem_map, vmem_resolve and vmem_unmap of src/vmem.c on the same address.
use tachyon.Prelude.{
  ℕ, ◌≡◌, refl, sym, ap, ◌∙◌, subst, ◌⊎◌, inl, inr, Bool, true, false, not, ◌&&◌, ◌||◌, Option,
  none, some, arith, if◌then◌else◌, Bool-cases,
}
use tachyon.Vmem.{
  Flags, or_flags, no_flags, Entry, no_entry, put, Tables, idx_pd, idx_pt, check_entry,
  table_not_mapped, small_expected, large_expected, Split, success, failed, halted, split_pt,
  split_pd, vmem_mgmt_split, page_of, low_flags, map_at, vmem_map, find_at, find_large,
  vmem_find_unmap, vmem_unmap, vmem_resolve,
}
use tachyon.Vmem.Lookup.{
  Enough, put_here, Reaches, Reaches-split, Found, SplitEnd, vmem_mgmt_split-SplitEnd,
}

module _ (um : Bool) (s : Tables) (space virt pd : ℕ) (reach : Reaches s space virt pd) where
  find_small :
      (s.pd pd (idx_pd virt)).flags.present ≡ true
      → (s.pd pd (idx_pd virt)).flags.large ≡ false
      → vmem_find_unmap um s space virt
        ≡ some (
          page_of ((s.pt ((s.pd pd (idx_pd virt)).addr) (idx_pt virt)).addr),
          if um
              then record s { pt = put s.pt ((s.pd pd (idx_pd virt)).addr) (idx_pt virt) no_entry }
              else s,
        )
  unfolding vmem_find_unmap split_pd split_pt check_entry
  find_small p l =
      rw
        (
          vmem_find_unmap,
          Reaches-split s space virt pd false no_flags reach,
          split_pd,
          p,
          l,
          split_pt,
          p,
          l,
        )
        refl

  find_large_page :
      (s.pd pd (idx_pd virt)).flags.present ≡ true
      → (s.pd pd (idx_pd virt)).flags.large ≡ true
      → vmem_find_unmap um s space virt
        ≡ some (
          page_of ((s.pd pd (idx_pd virt)).addr),
          if um then record s { pd = put s.pd pd (idx_pd virt) no_entry } else s,
        )
  unfolding vmem_find_unmap split_pd
  find_large_page p l =
      rw
        (
          vmem_find_unmap,
          Reaches-split s space virt pd false no_flags reach,
          split_pd,
          p,
          l,
          find_large,
          Reaches-split s space virt pd true no_flags reach,
          split_pd,
          p,
          l,
        )
        (rw (find_at, l) refl)

  find_nothing :
      (s.pd pd (idx_pd virt)).flags.present ≡ false → vmem_find_unmap um s space virt ≡ some (0, s)
  unfolding vmem_find_unmap split_pd split_pt check_entry
  find_nothing p =
      rw
        (vmem_find_unmap, Reaches-split s space virt pd false no_flags reach, split_pd, p, split_pt)
        refl

-- Where an entry is in the way of a page: for a large one, any; for a small one, a large page or an entry
-- of the page table.
abbrev pub InTheWay : Tables → ℕ → ℕ → Bool → Type 0
InTheWay s virt pd true = (s.pd pd (idx_pd virt)).flags.present ≡ true
InTheWay s virt pd false =
    (((s.pd pd (idx_pd virt)).flags.present && (s.pd pd (idx_pd virt)).flags.large) ≡ true)
    ⊎ ((s.pt ((s.pd pd (idx_pd virt)).addr) (idx_pt virt)).flags.present ≡ true)

-- The address can be looked up and unmapped, and then there is nothing more to look up.
pub record IsMapped (s : Tables) (space virt phys : ℕ) : Type 0 where
  pub resolved : vmem_resolve s space virt ≡ some (phys, s)
  pub removed :
      (s' : Tables) × (vmem_unmap s space virt ≡ some (phys, s'))
      × (vmem_resolve s' space virt ≡ some (0, s'))

-- Of vmem_map: the page is mapped, or an entry is in its way.
abbrev pub MapEnd : ℕ → ℕ → ℕ → Bool → Option (Bool × Tables) → Type 0
MapEnd space phys virt large (some (true, s)) = IsMapped s space virt (page_of phys)
MapEnd space phys virt large (some (false, s)) =
    (pd : ℕ) × Reaches s space virt pd × InTheWay s virt pd large
MapEnd space phys virt large none = ⊥

module _ (s : Tables) (space virt phys pd : ℕ) (flags : Flags)
    (reach : Reaches s space virt pd) where
  abbrev page : Entry
  page = record {
    addr = page_of phys;
    flags = or_flags (record flags { present = true }) (low_flags phys);
  }

  again : page_of (page_of phys) ≡ page_of phys
  again = omega arith

  map_large :
      flags.large ≡ true
      → IsMapped (record s { pd = put s.pd pd (idx_pd virt) page }) space virt (page_of phys)
  map_large large = record {
    resolved =
        find_large_page false mapped space virt pd there p l
        ∙ ap (λ e. some (page_of e.addr, mapped)) here
        ∙ ap (λ (a : ℕ). some (a, mapped)) again;
    removed = (
      gone,
      find_large_page true mapped space virt pd there p l
          ∙ ap (λ e. some (page_of e.addr, gone)) here
          ∙ ap (λ (a : ℕ). some (a, gone)) again,
      find_nothing false gone space virt pd still
          (ap (λ e. e.flags.present) (put_here mapped.pd pd (idx_pd virt) no_entry)),
    );
  }
    where
      mapped : Tables
      mapped = record s { pd = put s.pd pd (idx_pd virt) page }

      gone : Tables
      gone = record mapped { pd = put mapped.pd pd (idx_pd virt) no_entry }

      there : Reaches mapped space virt pd
      there = record { upper = reach.upper; lower = reach.lower; directory = reach.directory }

      still : Reaches gone space virt pd
      still = record { upper = reach.upper; lower = reach.lower; directory = reach.directory }

      here : mapped.pd pd (idx_pd virt) ≡ page
      here = put_here s.pd pd (idx_pd virt) page

      p : (mapped.pd pd (idx_pd virt)).flags.present ≡ true
      p = ap (λ e. e.flags.present) here

      l : (mapped.pd pd (idx_pd virt)).flags.large ≡ true
      l = ap (λ e. e.flags.large) here ∙ ap (λ b. b || (low_flags phys).large) large

  map_small :
      (s.pd pd (idx_pd virt)).flags.present ≡ true
      → (s.pd pd (idx_pd virt)).flags.large ≡ false
      → IsMapped
          (record s { pt = put s.pt ((s.pd pd (idx_pd virt)).addr) (idx_pt virt) page })
          space
          virt
          (page_of phys)
  map_small p l = record {
    resolved =
        find_small false mapped space virt pd there p l
        ∙ ap (λ e. some (page_of e.addr, mapped)) here
        ∙ ap (λ (a : ℕ). some (a, mapped)) again;
    removed = (
      gone,
      find_small true mapped space virt pd there p l
          ∙ ap (λ e. some (page_of e.addr, gone)) here
          ∙ ap (λ (a : ℕ). some (a, gone)) again,
      find_small false gone space virt pd still p l
          ∙ ap (λ e. some (page_of e.addr, gone)) (put_here mapped.pt t (idx_pt virt) no_entry),
    );
  }
    where
      t : ℕ
      t = (s.pd pd (idx_pd virt)).addr

      mapped : Tables
      mapped = record s { pt = put s.pt t (idx_pt virt) page }

      gone : Tables
      gone = record mapped { pt = put mapped.pt t (idx_pt virt) no_entry }

      there : Reaches mapped space virt pd
      there = record { upper = reach.upper; lower = reach.lower; directory = reach.directory }

      still : Reaches gone space virt pd
      still = record { upper = reach.upper; lower = reach.lower; directory = reach.directory }

      here : mapped.pt t (idx_pt virt) ≡ page
      here = put_here s.pt t (idx_pt virt) page

  map_at_large :
      (pt : Option ℕ)
      → flags.large ≡ true
      → (s.pd pd (idx_pd virt)).flags.present ≡ false
      → map_at pd pt s phys virt flags ≡ (true, record s { pd = put s.pd pd (idx_pd virt) page })
  map_at_large pt e free = rw (e, free) refl

  map_at-MapEnd :
      (large : Bool) (pt : Option ℕ)
      → flags.large ≡ large
      → Found s virt pd pt large
      → MapEnd space phys virt large (some (map_at pd pt s phys virt flags))
  map_at-MapEnd true pt e found = elim (Bool-cases (s.pd pd (idx_pd virt)).flags.present) [
    | inl taken ↦ rw (e, taken) (pd, reach, taken)
    | inr free ↦
        subst (λ r. MapEnd space phys virt true (some r)) (sym (map_at_large pt e free))
          (map_large e)
  ]
  map_at-MapEnd false pt e (p, l, at) =
      elim (Bool-cases (s.pt ((s.pd pd (idx_pd virt)).addr) (idx_pt virt)).flags.present) [
        | inl taken ↦ rw (e, at, taken) (pd, reach, inr taken)
        | inr free ↦ rw (e, at, free) (map_small p l)
      ]

-- The two cases of a page of the other size.
both_true : (a b : Bool) → (a && b) ≡ true → a ≡ true
both_true true b h = refl
both_true false b h = h

split-MapEnd :
    (space virt phys : ℕ) (flags : Flags) (r : Split)
    → SplitEnd space virt flags.large r
    → MapEnd space phys virt flags.large (elim r [
      | success pd pt s' ↦ some (map_at pd pt s' phys virt flags)
      | failed code s' ↦ some (false, s')
      | halted ↦ none
    ])
split-MapEnd space virt phys flags (success pd pt s) (reach, found) =
    map_at-MapEnd s space virt phys pd flags reach flags.large pt refl found
split-MapEnd space virt phys flags (failed table_not_mapped s) h = absurd h
split-MapEnd space virt phys flags (failed small_expected s) (e, (pd, reach, h)) =
    subst (λ (large : Bool). (d : ℕ) × Reaches s space virt d × InTheWay s virt d large) (sym e)
      (pd, reach, inl h)
split-MapEnd space virt phys flags (failed large_expected s) (e, (pd, reach, h)) =
    subst (λ (large : Bool). (d : ℕ) × Reaches s space virt d × InTheWay s virt d large) (sym e)
      (
        pd,
        reach,
        both_true (s.pd pd (idx_pd virt)).flags.present (not (s.pd pd (idx_pd virt)).flags.large) h,
      )
split-MapEnd space virt phys flags halted h = h

-- vmem_map, with three pages that pmem_alloc has left, is not fatal. If it returns true, then vmem_resolve of the
-- address gives the address that was mapped without its low 12 bits, which the entry keeps as flags,
-- vmem_unmap gives it too, and after that vmem_resolve gives 0;
-- this holds for small and for large pages. If it returns false, then an entry is in the way: for a
-- large page, any in the page directory; for a small one, a large page or an entry of the page table.
pub vmem_map-MapEnd :
    (s : Tables) (space phys virt : ℕ) (flags : Flags)
    → Enough 3 s.fresh
    → MapEnd space phys virt flags.large (vmem_map s space phys virt flags)
unfolding vmem_map
vmem_map-MapEnd s space phys virt flags enough =
    split-MapEnd space virt phys flags (vmem_mgmt_split s space virt flags.large true flags)
      (vmem_mgmt_split-SplitEnd s space virt flags enough)
