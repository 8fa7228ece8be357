-- ===== src/Boot/RamDisk.antt =====
-- Where `mboot_find_rd` of src/mboot.c maps the ram disk.
use tachyon.Prelude.{
  ℕ, zero, suc, ◌+◌, ◌-◌, ◌*◌, ◌/◌, ◌%◌, ◌≤◌, ◌<◌, ◌≡◌, refl, sym, ap, ◌∙◌, subst, ◌⊎◌, inl, inr,
  Bool, true, false, Option, none, some, List, [], ◌∷◌, arith, ltb, if◌then◌else◌, ltb→ge, lt→ltb,
  lt-or-ge,
}
use tachyon.Prelude.Words.{align_rst, align_dn}
use tachyon.Boot.{
  page_size, Module, rd_virtual, rd_vsz, sub32, align_up32, rd_loop, RdOutcome, disk, fatal, rd_map,
}

-- The physical page stands for the virtual one.
abbrev pub In : ℕ → ℕ → List (ℕ × ℕ) → Type 0
In p v [] = ⊥
In p v (q ∷ ps) = ((p ≡ q.0) × (v ≡ q.1)) ⊎ In p v ps

-- Each page from `first` to `last` is mapped, to the address that is as far behind `virt`.
abbrev pub Continuous : ℕ → ℕ → ℕ → List (ℕ × ℕ) → Type 0
Continuous first last virt ps =
    (p : ℕ)
    → first ≤ p
    → p < last
    → p % page_size ≡ first % page_size
    → In p (virt + (p - first)) ps

rd_loop-Continuous :
    (k : ℕ) (maps : ℕ → ℕ → Bool) (first last virt : ℕ) (ps : List (ℕ × ℕ))
    → last ≤ first + k * page_size
    → rd_loop k maps first last virt ≡ some ps
    → Continuous first last virt ps
unfolding rd_loop
rd_loop-Continuous zero maps first last virt ps enough e = λ p l h same. absurd (omega arith)
rd_loop-Continuous (suc k) maps first last virt ps enough e = elim (lt-or-ge first last) [
  | inr done ↦ λ p l h same. absurd (omega arith)
  | inl more ↦
      by_maps more (maps first virt) (rd_loop k maps (first + page_size) last (virt + page_size))
        (λ qs f.
          rd_loop-Continuous k maps (first + page_size) last (virt + page_size) qs
            (omega (arith, enough)) f)
        (sym (
            ap
              (λ (b : Bool).
                if b
                then if maps first virt
                  then elim (rd_loop k maps (first + page_size) last (virt + page_size)) [
                    | none ↦ none
                    | some qs ↦ some ((first, virt) ∷ qs)
                  ]
                  else none
                else some [])
              (lt→ltb first last more))
          ∙ e)
]
  where
    joined :
        (qs : List (ℕ × ℕ))
        → first < last
        → Continuous (first + page_size) last (virt + page_size) qs
        → Continuous first last virt ((first, virt) ∷ qs)
    joined qs more rest p l h same = elim (lt-or-ge first p) [
      | inr down ↦ inl (omega arith, omega arith)
      | inl up ↦ inr (
          subst (λ (v : ℕ). In p v qs) (omega (arith, same, up))
            (rest p (omega (arith, same, up)) h (omega (arith, same))))
    ]

    same_list :
        (qs rs : List (ℕ × ℕ)) → ◌≡◌ {A = Option (List (ℕ × ℕ))} (some qs) (some rs) → qs ≡ rs
    same_list qs rs f = ap (λ (o : Option (List (ℕ × ℕ))). elim o [ some l ↦ l | none ↦ [] ]) f

    by_maps :
        first < last
        → (b : Bool) (o : Option (List (ℕ × ℕ)))
        → ((qs : List (ℕ × ℕ))
            → o ≡ some qs
            → Continuous (first + page_size) last (virt + page_size) qs)
        → (if b then elim o [ none ↦ none | some qs ↦ some ((first, virt) ∷ qs) ] else none)
          ≡ some ps
        → Continuous first last virt ps
    by_maps more false o rest f = absurd (cc)
    by_maps more true none rest f = absurd (cc)
    by_maps more true (some qs) rest f =
        subst (Continuous first last virt) (same_list ((first, virt) ∷ qs) ps f)
          (joined qs more (rest qs refl))

-- A disk that `mboot_find_rd` returns, for a module that does not end before it starts, nor in the
-- last page below 4 GB: each byte of the module can be read at the address that is as far behind the
-- result as the byte is behind the start of the module, since its page is mapped there at the same
-- offset; and all these addresses lie in the region for the disk.
pub rd_map-readable :
    (maps : ℕ → ℕ → Bool) (part : Module) (a : ℕ) (ps : List (ℕ × ℕ)) (i : ℕ)
    → part.start + i < part.end
    → part.end + page_size ≤ 4294967296
    → rd_map maps part ≡ disk a ps
    → In (align_dn (part.start + i) page_size) (align_dn (a + i) page_size) ps
      × (align_rst (a + i) page_size ≡ align_rst (part.start + i) page_size)
      × (rd_virtual ≤ a + i)
      × (a + i < rd_virtual + rd_vsz)
unfolding rd_map
rd_map-readable maps part a ps i inside low e =
    by_size (ltb (rd_vsz - page_size) (sub32 part.end part.start)) refl e
  where
    first : ℕ
    first = align_dn part.start page_size

    last : ℕ
    last = align_up32 part.end

    pages : Option (List (ℕ × ℕ))
    pages = rd_loop ((last - first) / page_size + 1) maps first last rd_virtual

    place : RdOutcome → ℕ
    place (disk b qs) = b
    place _ = 0

    mapping : RdOutcome → List (ℕ × ℕ)
    mapping (disk b qs) = qs
    mapping _ = []

    Readable : ℕ → List (ℕ × ℕ) → Type 0
    Readable b qs =
        In (align_dn (part.start + i) page_size) (align_dn (b + i) page_size) qs
        × (align_rst (b + i) page_size ≡ align_rst (part.start + i) page_size)
        × (rd_virtual ≤ b + i)
        × (b + i < rd_virtual + rd_vsz)

    at_place :
        (qs : List (ℕ × ℕ))
        → sub32 part.end part.start ≤ rd_vsz - page_size
        → Continuous first last rd_virtual qs
        → Readable (rd_virtual + align_rst part.start page_size) qs
    at_place qs small all = (
      subst (λ (v : ℕ). In (align_dn (part.start + i) page_size) v qs) (omega (arith, inside, low))
          (all (align_dn (part.start + i) page_size) (omega (arith, inside, low))
            (omega (arith, inside, low)) (omega (arith, inside, low))),
      omega (arith, inside, low),
      omega (arith, inside, low),
      omega (arith, inside, low, small),
    )

    by_pages :
        (o : Option (List (ℕ × ℕ)))
        → pages ≡ o
        → sub32 part.end part.start ≤ rd_vsz - page_size
        → elim o [ none ↦ fatal | some qs ↦ disk (rd_virtual + align_rst part.start page_size) qs ]
          ≡ disk a ps
        → Readable a ps
    by_pages none f small g = absurd (cc)
    by_pages (some qs) f small g =
        subst (λ (b : ℕ). Readable b ps) (ap place g)
          (subst (Readable (rd_virtual + align_rst part.start page_size)) (ap mapping g) (
            at_place qs small (
              rd_loop-Continuous ((last - first) / page_size + 1) maps first last rd_virtual qs
                (omega arith) f)))

    by_size :
        (b : Bool)
        → ltb (rd_vsz - page_size) (sub32 part.end part.start) ≡ b
        → (if b then fatal else elim pages [
          | none ↦ fatal
          | some qs ↦ disk (rd_virtual + align_rst part.start page_size) qs
        ])
          ≡ disk a ps
        → Readable a ps
    by_size true f g = absurd (cc)
    by_size false f g =
        by_pages pages refl (ltb→ge (rd_vsz - page_size) (sub32 part.end part.start) f) g
