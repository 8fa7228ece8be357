-- ===== src/Heap/Free/Joined.antt =====
-- A block that `heap_free` of src/heap.c gives back, joined with the free block behind it.
use tachyon.Prelude.{
  ℕ, ◌+◌, ◌≡◌, refl, ap, subst, Bool, true, false, ◌||◌, List, [], ◌∷◌, ◌++◌, arith, if◌then◌else◌,
}
use tachyon.Heap.Tiles.{Tile, tile, span, used_at, used_bytes_of, used_count, LastFree, Apart}
use tachyon.Heap.Free.Merge.{size_behind, rest_behind}

-- The allocated block and the free block behind it, if there is one: what they become, in front of
-- the blocks `rest`.
pub record Joined (s : ℕ) (ys : List Tile) (big : ℕ) (rest : List Tile) : Type 0 where
  pub mid : List Tile
  pub parts : tile s true ∷ ys ≡ mid ++ rest
  pub wide : span mid ≡ big + 16
  pub bytes : used_bytes_of mid ≡ s
  pub count : used_count mid ≡ 1
  pub last : (n : ℕ) → LastFree (tile s true ∷ ys) → LastFree (tile n false ∷ rest)
  pub apart : (n : ℕ) → Apart (tile s true ∷ ys) → Apart (tile n false ∷ rest)
  pub used : (p : ℕ) → used_at (p + 16 + big) rest ≡ used_at (p + 16 + s) ys

pub behind-Joined :
    (s : ℕ) (ys : List Tile)
    → LastFree (tile s true ∷ ys)
    → Joined s ys (size_behind s ys) (rest_behind ys)
behind-Joined s [] l = ground arith
behind-Joined s (t ∷ ys) l = go t.used refl
  where
    go :
        (u : Bool)
        → t.used ≡ u
        → Joined s (t ∷ ys) (if u then s else s + (t.sz + 16)) (if u then t ∷ ys else ys)
    go true e = record {
      mid = tile s true ∷ [];
      parts = refl;
      wide = omega arith;
      bytes = omega arith;
      count = refl;
      last = λ n l'. l';
      apart = λ n a. (e, a.1);
      used = λ p. refl;
    }
    go false e = record {
      mid = tile s true ∷ t ∷ [];
      parts = refl;
      wide = omega arith;
      bytes = rw e (omega arith);
      count = rw e refl;
      last = λ n l'. shrink n ys l';
      apart = λ n a. free_too n ys a.1;
      used = λ p. rw e (ap (λ (a : ℕ). used_at a ys) (omega arith));
    }
      where
        shrink : (n : ℕ) (zs : List Tile) → LastFree (t ∷ zs) → LastFree (tile n false ∷ zs)
        shrink n [] m = refl
        shrink n (z ∷ zs) m = m

        free_too : (n : ℕ) (zs : List Tile) → Apart (t ∷ zs) → Apart (tile n false ∷ zs)
        free_too n [] a = tt
        free_too n (z ∷ zs) a = (subst (λ (u : Bool). (u || z.used) ≡ true) e a.0, a.1)
