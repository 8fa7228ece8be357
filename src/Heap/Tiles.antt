-- ===== src/Heap/Tiles.antt =====
-- What the tags of a heap stand for: a list of blocks that tile the mapped part (src/heap.c).
use tachyon.Prelude.{
  ℕ, ◌+◌, ◌%◌, ◌≤◌, ◌<◌, ◌≡◌, refl, ap, ◌∙◌, subst, ◌≢◌, Bool, true, false, ◌||◌, List, [], ◌∷◌,
  ◌++◌, arith, if◌then◌else◌, eq→eqb,
}
use tachyon.Heap.{Words, write, Heap, is_present, or_present, or_footer, b2datasz, set_block}

pub record Tile : Type 0 where
  pub sz : ℕ
  pub used : Bool

abbrev pub tile : ℕ → Bool → Tile
tile s u = record { sz = s; used = u }

abbrev pub flag : Bool → ℕ
flag true = 1
flag false = 0

-- The bytes that a list of blocks takes, tags included.
abbrev pub span : List Tile → ℕ
span [] = 0
span (t ∷ ts) = t.sz + 16 + span ts

-- From `p` on the blocks follow one another, each with its size and state in both tags.
abbrev pub Tiles : Words → ℕ → List Tile → Type 0
Tiles m p [] = Unit
Tiles m p (t ∷ ts) =
    (m p ≡ t.sz + flag t.used)
    × (m (p + 8 + t.sz) ≡ t.sz + flag t.used + 2)
    × (t.sz % 8 ≡ 0)
    × Tiles m (p + 16 + t.sz) ts

-- Address and size of the allocated blocks.
abbrev pub used_at : ℕ → List Tile → List (ℕ × ℕ)
used_at p [] = []
used_at p (t ∷ ts) =
    if t.used then (p + 8, t.sz) ∷ used_at (p + 16 + t.sz) ts else used_at (p + 16 + t.sz) ts

abbrev pub used_bytes_of : List Tile → ℕ
used_bytes_of [] = 0
used_bytes_of (t ∷ ts) = (if t.used then t.sz else 0) + used_bytes_of ts

abbrev pub used_count : List Tile → ℕ
used_count [] = 0
used_count (t ∷ ts) = (if t.used then 1 else 0) + used_count ts

-- The last block is free.
abbrev pub LastFree : List Tile → Type 0
LastFree [] = ⊥
LastFree (t ∷ []) = t.used ≡ false
LastFree (t ∷ t' ∷ ts) = LastFree (t' ∷ ts)

-- No two neighbours are free.
abbrev pub Apart : List Tile → Type 0
Apart [] = Unit
Apart (t ∷ []) = Unit
Apart (t ∷ t' ∷ ts) = ((t.used || t'.used) ≡ true) × Apart (t' ∷ ts)

-- Far enough from the end of the address space that no size wraps.
abbrev pub top : ℕ
top = 18446744073709486080

pub record IsHeap (m : Words) (heap : Heap) (ts : List Tile) : Type 0 where
  pub tiles : Tiles m heap.start ts
  pub mark : heap.vmem_mark ≡ heap.start + span ts
  pub last : LastFree ts
  pub apart : Apart ts
  pub bytes : heap.used_bytes ≡ used_bytes_of ts
  pub blocks : heap.block_count ≡ used_count ts
  pub start_pos : 0 < heap.start
  pub start_aligned : heap.start % 8 ≡ 0
  pub below_end : heap.vmem_mark ≤ top

pub span-append : (xs ys : List Tile) → span (xs ++ ys) ≡ span xs + span ys
span-append [] ys = omega arith
span-append (x ∷ xs) ys = omega (arith, span-append xs ys)

pub used_bytes-append :
    (xs ys : List Tile) → used_bytes_of (xs ++ ys) ≡ used_bytes_of xs + used_bytes_of ys
used_bytes-append [] ys = omega arith
used_bytes-append (x ∷ xs) ys = omega (arith, used_bytes-append xs ys)

pub used_count-append : (xs ys : List Tile) → used_count (xs ++ ys) ≡ used_count xs + used_count ys
used_count-append [] ys = omega arith
used_count-append (x ∷ xs) ys = omega (arith, used_count-append xs ys)

pub used_bytes-le-span : (ts : List Tile) → used_bytes_of ts ≤ span ts
used_bytes-le-span [] = omega arith
used_bytes-le-span (t ∷ ts) = ground (arith, used_bytes-le-span ts)

pub used_count-le-span : (ts : List Tile) → used_count ts ≤ span ts
used_count-le-span [] = omega arith
used_count-le-span (t ∷ ts) = ground (arith, used_count-le-span ts)

pub used_at-append :
    (p : ℕ) (xs ys : List Tile) → used_at p (xs ++ ys) ≡ used_at p xs ++ used_at (p + span xs) ys
used_at-append p [] ys = ap (λ q. used_at q ys) (omega arith)
used_at-append p (x ∷ xs) ys =
    let here : p + 16 + x.sz + span xs ≡ p + (x.sz + 16 + span xs) = omega arith in
    ground (arith, used_at-append (p + 16 + x.sz) xs ys, here)

pub span_aligned : (m : Words) (p : ℕ) (ts : List Tile) → Tiles m p ts → span ts % 8 ≡ 0
span_aligned m p [] t = refl
span_aligned m p (x ∷ ts) t = omega (arith, t.2, span_aligned m (p + 16 + x.sz) ts t.3)

-- A write outside the blocks leaves them.
pub Tiles-frame :
    (m m' : Words) (p : ℕ) (ts : List Tile)
    → ((a : ℕ) → p ≤ a → a < p + span ts → m' a ≡ m a)
    → Tiles m p ts
    → Tiles m' p ts
Tiles-frame m m' p [] same t = tt
Tiles-frame m m' p (x ∷ ts) same t = (
  same p (omega arith) (omega arith) ∙ t.0,
  same (p + 8 + x.sz) (omega arith) (omega arith) ∙ t.1,
  t.2,
  Tiles-frame m m' (p + 16 + x.sz) ts (λ a l h. same a (omega arith) (omega arith)) t.3,
)

pub Tiles-left : (m : Words) (p : ℕ) (xs ys : List Tile) → Tiles m p (xs ++ ys) → Tiles m p xs
Tiles-left m p [] ys t = tt
Tiles-left m p (x ∷ xs) ys t = (t.0, t.1, t.2, Tiles-left m (p + 16 + x.sz) xs ys t.3)

pub Tiles-right :
    (m : Words) (p : ℕ) (xs ys : List Tile) → Tiles m p (xs ++ ys) → Tiles m (p + span xs) ys
Tiles-right m p [] ys t = subst (λ q. Tiles m q ys) (omega arith) t
Tiles-right m p (x ∷ xs) ys t =
    subst (λ q. Tiles m q ys) (omega arith) (Tiles-right m (p + 16 + x.sz) xs ys t.3)

pub Tiles-join :
    (m : Words) (p : ℕ) (xs ys : List Tile)
    → Tiles m p xs
    → Tiles m (p + span xs) ys
    → Tiles m p (xs ++ ys)
Tiles-join m p [] ys t u = subst (λ q. Tiles m q ys) (omega arith) u
Tiles-join m p (x ∷ xs) ys t u = (
  t.0,
  t.1,
  t.2,
  Tiles-join m (p + 16 + x.sz) xs ys t.3 (subst (λ q. Tiles m q ys) (omega arith) u),
)

-- The two words that a block gets.
abbrev pub tagged : Words → ℕ → ℕ → Bool → Words
tagged m p s u = write (write m p (s + flag u)) (p + 8 + s) (s + flag u + 2)

or_present-even : (s : ℕ) → s % 8 ≡ 0 → or_present s ≡ s + 1
or_present-even s e = omega arith

or_footer-flag : (s : ℕ) (u : Bool) → s % 8 ≡ 0 → or_footer (s + flag u) ≡ s + flag u + 2
or_footer-flag s true e = ground arith
or_footer-flag s false e = ground arith

pub b2datasz-flag : (s : ℕ) (u : Bool) → s % 8 ≡ 0 → b2datasz (s + flag u) ≡ s
b2datasz-flag s true e = omega arith
b2datasz-flag s false e = omega arith

pub is_present-flag : (s : ℕ) (u : Bool) → s % 8 ≡ 0 → is_present (s + flag u) ≡ u
is_present-flag s true e = ground arith
is_present-flag s false e = ground arith

pub set_block-tagged :
    (m : Words) (p s : ℕ) (u : Bool) → s % 8 ≡ 0 → set_block m p s u ≡ tagged m p s u
unfolding set_block
set_block-tagged m p s u e =
    rw (tag u) (rw (eq→eqb p p refl) (rw (b2datasz-flag s u e, or_footer-flag s u e)))
  where
    tag : (v : Bool) → (if v then or_present s else s) ≡ s + flag v
    tag true = or_present-even s e
    tag false = omega arith

pub tagged-Tiles :
    (m : Words) (p s : ℕ) (u : Bool) → s % 8 ≡ 0 → Tiles (tagged m p s u) p (tile s u ∷ [])
tagged-Tiles m p s u e = (ground arith, ground arith, e, tt)

pub tagged-other :
    (m : Words) (p s : ℕ) (u : Bool) (a : ℕ) → a ≢ p → a ≢ p + 8 + s → tagged m p s u a ≡ m a
tagged-other m p s u a n1 n2 = ground arith
