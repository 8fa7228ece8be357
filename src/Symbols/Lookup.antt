-- ===== src/Symbols/Lookup.antt =====
-- What `ksym_get` of src/ksym.c finds.
use tachyon.Prelude.{
  ℕ, ◌+◌, ◌≤◌, ◌<◌, ◌≡◌, refl, inl, inr, false, some, List, [], ◌∷◌, ◌++◌, arith, leb, ne→eqb,
  Bool-cases, le→leb, gt→leb,
}
use tachyon.Symbols.{Symbol, ksym_get}

-- The symbols stand in the order of their addresses and do not overlap.
abbrev pub Ordered : ℕ → List Symbol → Type 0
Ordered low [] = Unit
Ordered low (s ∷ table) = (low ≤ s.addr) × (0 < s.addr) × Ordered (s.addr + s.size) table

-- When the table up to a symbol is in the order of addresses, `ksym_get` finds the symbol for each address behind its first
-- up to the one where it ends, which counts as well.
pub ksym_get-symbol :
    (before after : List Symbol) (s : Symbol) (low a : ℕ)
    → Ordered low (before ++ s ∷ [])
    → s.addr < a
    → a ≤ s.addr + s.size
    → ksym_get (before ++ s ∷ after) a ≡ some s
unfolding ksym_get
ksym_get-symbol [] after s low a (l, pos, rest) above below =
    rw
      (
        ksym_get,
        ne→eqb s.addr 0 (omega arith),
        le→leb s.addr a (omega arith),
        le→leb a (s.addr + s.size) below,
      )
      refl
ksym_get-symbol (x ∷ before) after s low a (l, pos, rest) above below =
    let later = ksym_get-symbol before after s (x.addr + x.size) a rest above below in
    let off : leb a (x.addr + x.size) ≡ false =
      gt→leb a (x.addr + x.size) (omega (arith, behind before (x.addr + x.size) rest)) in
    elim (Bool-cases (leb x.addr a)) [
      | inl y ↦ rw (ksym_get, ne→eqb x.addr 0 (omega arith), y, off) later
      | inr n ↦ rw (ksym_get, ne→eqb x.addr 0 (omega arith), n) later
    ]
  where
    behind : (before : List Symbol) (low : ℕ) → Ordered low (before ++ s ∷ []) → low ≤ s.addr
    behind [] low o = o.0
    behind (y ∷ before) low o = omega (arith, o.0, behind before (y.addr + y.size) o.2)
