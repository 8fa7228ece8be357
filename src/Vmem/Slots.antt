-- ===== src/Vmem/Slots.antt =====
-- The mapspace of src/vmem_mgmt.c: slots at the end of the address space, through which the kernel reaches
-- the tables. A slot without PG_PRESENT is `none`.
use tachyon.Prelude.{
  ℕ, suc, ◌+◌, ◌-◌, ◌*◌, ◌%◌, ◌≤◌, ◌<◌, ◌≡◌, refl, ap, Option, none, some, List, [], ◌∷◌, arith,
  ◌==◌, if◌then◌else◌, eq→eqb, ne→eqb, length,
}
use tachyon.Prelude.Words.{align_rst}

-- VM_PS_MAPSPACE_SZ
abbrev pub mapspace_sz : ℕ
mapspace_sz = 10

-- VM_PS_TADDR
abbrev pub taddr : ℕ → ℕ
taddr idx = 18446744073709551616 - 4096 - (mapspace_sz - 1) * 4096 + idx * 4096

-- The address of a slot and the slots after it, or a fatal error
pub data SlotMap : Type 0 where
  mapped : ℕ → List (Option ℕ) → SlotMap
  misaligned out_of_slots : SlotMap

abbrev pub behind : Option ℕ → SlotMap → SlotMap
behind slot (mapped virt slots) = mapped virt (slot ∷ slots)
behind slot misaligned = misaligned
behind slot out_of_slots = out_of_slots

-- The loop from slot `i` on
pub map_loop : List (Option ℕ) → ℕ → ℕ → SlotMap
map_loop [] i page = out_of_slots
map_loop (none ∷ slots) i page = mapped (taddr i) (some page ∷ slots)
map_loop (some p ∷ slots) i page = behind (some p) (map_loop slots (i + 1) page)

pub vmem_mgmt_map : List (Option ℕ) → ℕ → SlotMap
vmem_mgmt_map slots phys = if align_rst phys 4096 == 0 then map_loop slots 0 phys else misaligned

pub unmap_loop : List (Option ℕ) → ℕ → ℕ → List (Option ℕ)
unmap_loop [] i virt = []
unmap_loop (slot ∷ slots) i virt =
    let rest = unmap_loop slots (i + 1) virt in
    if taddr i == virt then none ∷ slots else slot ∷ rest

pub vmem_mgmt_unmap : List (Option ℕ) → ℕ → List (Option ℕ)
vmem_mgmt_unmap slots virt = unmap_loop slots 0 virt

-- The number of slots in use
abbrev pub used : List (Option ℕ) → ℕ
used [] = 0
used (none ∷ slots) = used slots
used (some p ∷ slots) = suc (used slots)

-- Of a call of vmem_mgmt_map: the slot is one of these, one more slot is in use, and vmem_mgmt_unmap gives back the
-- slots as they were; or all slots are in use.
abbrev pub SlotEnd : List (Option ℕ) → ℕ → SlotMap → Type 0
SlotEnd slots i (mapped virt slots') =
    ((j : ℕ) × (i ≤ j) × (j < i + length slots) × (virt ≡ taddr j))
    × (used slots' ≡ suc (used slots))
    × (unmap_loop slots' i virt ≡ slots)
SlotEnd slots i misaligned = ⊥
SlotEnd slots i out_of_slots = used slots ≡ length slots

behind-SlotEnd :
    (p i : ℕ) (slots : List (Option ℕ)) (m : SlotMap)
    → SlotEnd slots (i + 1) m
    → SlotEnd (some p ∷ slots) i (behind (some p) m)
unfolding unmap_loop
behind-SlotEnd p i slots (mapped virt slots') ((j, le, lt, e), more, back) = (
  (j, omega arith, omega arith, e),
  ap suc more,
  rw (ne→eqb (taddr i) virt (omega arith)) (ap (λ (l : List (Option ℕ)). some p ∷ l) back),
)
behind-SlotEnd p i slots misaligned h = h
behind-SlotEnd p i slots out_of_slots h = ap suc h

map_loop-SlotEnd : (slots : List (Option ℕ)) (i page : ℕ) → SlotEnd slots i (map_loop slots i page)
unfolding map_loop unmap_loop
map_loop-SlotEnd [] i page = refl
map_loop-SlotEnd (none ∷ slots) i page =
    ((i, omega arith, omega arith, refl), refl, rw (eq→eqb (taddr i) (taddr i) refl) refl)
map_loop-SlotEnd (some p ∷ slots) i page =
    behind-SlotEnd p i slots (map_loop slots (i + 1) page) (map_loop-SlotEnd slots (i + 1) page)

-- vmem_mgmt_map of a page address takes one more slot of the mapspace and returns its address, and
-- vmem_mgmt_unmap of that address gives back the slots as they were; it is fatal only if all slots
-- are in use.
pub vmem_mgmt_map-SlotEnd :
    (slots : List (Option ℕ)) (phys : ℕ)
    → phys % 4096 ≡ 0
    → SlotEnd slots 0 (vmem_mgmt_map slots phys)
unfolding vmem_mgmt_map
vmem_mgmt_map-SlotEnd slots phys aligned =
    rw (eq→eqb (align_rst phys 4096) 0 aligned) (map_loop-SlotEnd slots 0 phys)
