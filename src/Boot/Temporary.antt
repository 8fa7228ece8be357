-- ===== src/Boot/Temporary.antt =====
-- Temporary mappings of src/mboot.c.
use tachyon.Prelude.{
  ℕ, zero, suc, ◌+◌, ◌*◌, ◌%◌, ◌≤◌, ◌<◌, ◌≡◌, refl, sym, ap, ◌∙◌, subst, ◌≢◌, ◌⊎◌, inl, inr, Bool,
  true, false, Option, none, some, arith, ◌==◌, if◌then◌else◌, lt→ltb, ge→ltb, eqb→eq, eqb→ne,
  eq→eqb, ne→eqb, Bool-cases, lt-or-ge, le→leb, gt→leb,
}
use tachyon.Prelude.Words.{align_rst, align_dn}
use tachyon.Boot.{
  vtemp_reg_end, page_size, Temp, temp_loop, mboot_find_free_page, set_resolved, mboot_map,
  mboot_unmap,
}

-- What the search from `at` on finds: the first page that `vmem_resolve` finds nothing for, or one behind the region.
abbrev pub FirstFree : (ℕ → ℕ) → ℕ → ℕ → Type 0
FirstFree resolved at page =
    (at ≤ page)
    × (page % page_size ≡ at % page_size)
    × ((resolved page ≡ 0) ⊎ (vtemp_reg_end ≤ page))
    × ((p : ℕ) → at ≤ p → p < page → p % page_size ≡ at % page_size → resolved p ≢ 0)

-- The search ends where it stands.
stays :
    (fuel : ℕ) (resolved : ℕ → ℕ) (at : ℕ)
    → (resolved at ≡ 0) ⊎ (vtemp_reg_end ≤ at)
    → (page : ℕ) × (temp_loop (suc fuel) resolved at ≡ some page) × FirstFree resolved at page
unfolding temp_loop
stays fuel resolved at why =
    (at, ends why, (omega arith, refl, why, λ p l h e. absurd (omega arith)))
  where
    ends : (resolved at ≡ 0) ⊎ (vtemp_reg_end ≤ at) → temp_loop (suc fuel) resolved at ≡ some at
    ends (inl free) = rw (temp_loop, eq→eqb (resolved at) 0 free) refl
    ends (inr behind) = elim (Bool-cases (resolved at == 0)) [
      | inl free ↦ rw (temp_loop, free) refl
      | inr taken ↦ rw (temp_loop, taken, ge→ltb at vtemp_reg_end behind) refl
    ]

pub temp_loop-FirstFree :
    (fuel : ℕ) (resolved : ℕ → ℕ) (at : ℕ)
    → vtemp_reg_end ≤ at + fuel * page_size
    → (page : ℕ) × (temp_loop (suc fuel) resolved at ≡ some page) × FirstFree resolved at page
unfolding temp_loop
temp_loop-FirstFree zero resolved at enough = stays 0 resolved at (inr (omega arith))
temp_loop-FirstFree (suc fuel) resolved at enough = elim (Bool-cases (resolved at == 0)) [
  | inl free ↦ stays (suc fuel) resolved at (inl (eqb→eq (resolved at) 0 free))
  | inr taken ↦ elim (lt-or-ge at vtemp_reg_end) [
    | inr behind ↦ stays (suc fuel) resolved at (inr behind)
    | inl inside ↦
        let (page, found, (above, same, stops, all)) =
          temp_loop-FirstFree fuel resolved (at + page_size) (omega arith) in
        (
          page,
          rw (temp_loop, taken, lt→ltb at vtemp_reg_end inside) found,
          (
            omega arith,
            omega arith,
            stops,
            λ p l h e. elim (Bool-cases (p == at)) [
              | inl here ↦
                  subst (λ (q : ℕ). resolved q ≢ 0) (sym (eqb→eq p at here))
                    (eqb→ne (resolved at) 0 taken)
              | inr there ↦ all p (omega (arith, eqb→ne p at there)) h (omega arith)
            ],
          ),
        )
  ]
]

found_inside :
    (fuel page : ℕ) (t : Temp)
    → temp_loop fuel t.resolved t.pg_temp ≡ some page
    → page < vtemp_reg_end
    → mboot_find_free_page fuel t ≡ (some page, record t { pg_temp = page })
unfolding mboot_find_free_page
found_inside fuel page t found inside =
    rw (mboot_find_free_page, found, gt→leb vtemp_reg_end page inside) refl

found_behind :
    (fuel page : ℕ) (t : Temp)
    → temp_loop fuel t.resolved t.pg_temp ≡ some page
    → vtemp_reg_end ≤ page
    → mboot_find_free_page fuel t ≡ (none, record t { pg_temp = page })
unfolding mboot_find_free_page
found_behind fuel page t found behind =
    rw (mboot_find_free_page, found, le→leb vtemp_reg_end page behind) refl

-- Of a result of `mboot_map`: the structure at its place in the first page of the region from
-- `mboot_pg_temp` on for which `vmem_resolve` returned 0, where it now returns the page of the
-- structure, which unmapping the address takes back, and no other page changes; or NULL, while no page
-- changes, because every page of the region from `mboot_pg_temp` on is taken, or `vmem_map` failed for
-- the first that is not.
abbrev pub MappedEnd : (ℕ → ℕ → Bool) → ℕ → Temp → Option ℕ × Temp → Type 0
MappedEnd maps phys t (some a, t') =
    let page = align_dn a page_size in
    (align_rst a page_size ≡ align_rst phys page_size)
    × (t.pg_temp ≤ page)
    × (page < vtemp_reg_end)
    × (t.resolved page ≡ 0)
    × ((p : ℕ) → t.pg_temp ≤ p → p < page → p % page_size ≡ 0 → t.resolved p ≢ 0)
    × (t'.resolved page ≡ align_dn phys page_size)
    × (maps (align_dn phys page_size) page ≡ true)
    × ((p : ℕ) → p ≢ page → t'.resolved p ≡ t.resolved p)
    × ((p : ℕ) → (mboot_unmap a t').resolved p ≡ t.resolved p)
MappedEnd maps phys t (none, t') =
    ((p : ℕ) → t'.resolved p ≡ t.resolved p)
    × (((p : ℕ) → t.pg_temp ≤ p → p < vtemp_reg_end → p % page_size ≡ 0 → t.resolved p ≢ 0)
        ⊎ ((page : ℕ) × (t.resolved page ≡ 0) × (maps (align_dn phys page_size) page ≡ false)))

-- `mboot_map`, when `mboot_pg_temp` is the start of a page and the search may look at one page more
-- than there are from there to the end of the region: the structure is mapped at its place in the
-- first page for which `vmem_resolve` returned 0, where it now returns the page of the structure, no
-- other page changes, and unmapping the result makes all what they were; or the result is NULL, as
-- `vmem_resolve` finds something for every page or `vmem_map` fails, and then no page has changed. A
-- page that is mapped to the physical page 0 counts as free.
pub mboot_map-MappedEnd :
    (fuel : ℕ) (maps : ℕ → ℕ → Bool) (phys : ℕ) (t : Temp)
    → t.pg_temp % page_size ≡ 0
    → vtemp_reg_end ≤ t.pg_temp + fuel * page_size
    → MappedEnd maps phys t (mboot_map (suc fuel) maps phys t)
unfolding mboot_map mboot_unmap
mboot_map-MappedEnd fuel maps phys t whole enough =
    by_page (temp_loop-FirstFree fuel t.resolved t.pg_temp enough)
  where
    by_maps :
        (page : ℕ) (b : Bool)
        → maps (align_dn phys page_size) page ≡ b
        → FirstFree t.resolved t.pg_temp page
        → page < vtemp_reg_end
        → MappedEnd maps phys t (
            if b
            then (
              some (page + align_rst phys page_size),
              record {
                pg_temp = page;
                resolved = set_resolved t.resolved page (align_dn phys page_size);
              },
            )
            else (none, record { pg_temp = page; resolved = t.resolved }))
    by_maps page false e (above, same, stops, all) inside =
        ((λ p. refl), inr (page, free stops inside, e))
      where
        free :
            (t.resolved page ≡ 0) ⊎ (vtemp_reg_end ≤ page)
            → page < vtemp_reg_end
            → t.resolved page ≡ 0
        free (inl f) l = f
        free (inr behind) l = absurd (omega arith)
    by_maps page true e (above, same, stops, all) inside =
        let here : align_dn (page + align_rst phys page_size) page_size ≡ page =
          omega (arith, same, whole) in
        let free : t.resolved page ≡ 0 = elim stops [
          | inl f ↦ f
          | inr behind ↦ absurd (omega (arith, behind, inside))
        ] in
        rw here (
          omega (arith, same, whole),
          above,
          inside,
          free,
          (λ p l h w. all p l h (omega (arith, w, whole))),
          rw (eq→eqb page page refl) refl,
          e,
          (λ p ne. rw (ne→eqb p page ne) refl),
          λ p. elim (Bool-cases (p == page)) [
            | inl at_page ↦ rw at_page (sym free ∙ ap t.resolved (sym (eqb→eq p page at_page)))
            | inr off ↦ rw off refl
          ],
        )

    by_page :
        (page : ℕ) × (temp_loop (suc fuel) t.resolved t.pg_temp ≡ some page)
          × FirstFree t.resolved t.pg_temp page
        → MappedEnd maps phys t (mboot_map (suc fuel) maps phys t)
    by_page (page, found, first) = elim (lt-or-ge page vtemp_reg_end) [
      | inl inside ↦
          subst
            (λ (r : Option ℕ × Temp). MappedEnd maps phys t (elim r.0 as (λ x. Option ℕ × Temp) [
              | none ↦ (none, r.1)
              | some v ↦
                  if maps (align_dn phys page_size) v
                  then (
                    some (v + align_rst phys page_size),
                    record r.1 { resolved = set_resolved r.1.resolved v (align_dn phys page_size) },
                  )
                  else (none, r.1)
            ]))
            (sym (found_inside (suc fuel) page t found inside))
            (by_maps page (maps (align_dn phys page_size) page) refl first inside)
      | inr behind ↦
          subst
            (λ (r : Option ℕ × Temp). MappedEnd maps phys t (elim r.0 as (λ x. Option ℕ × Temp) [
              | none ↦ (none, r.1)
              | some v ↦
                  if maps (align_dn phys page_size) v
                  then (
                    some (v + align_rst phys page_size),
                    record r.1 { resolved = set_resolved r.1.resolved v (align_dn phys page_size) },
                  )
                  else (none, r.1)
            ]))
            (sym (found_behind (suc fuel) page t found behind))
            (
              (λ p. refl),
              inl (λ p l h e. first.3 p l (omega (arith, behind)) (omega (arith, e, whole))),
            )
    ]
