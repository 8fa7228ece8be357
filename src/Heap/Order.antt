-- ===== src/Heap/Order.antt =====
-- Which blocks may be put in the place of others: the last one stays free, and no two free ones meet.
use tachyon.Prelude.{◌≡◌, refl, Bool, true, false, ◌||◌, List, [], ◌∷◌, ◌++◌}
use tachyon.Heap.Tiles.{Tile, LastFree, Apart}

pub LastFree-append :
    (xs : List Tile) (t t' : Tile) (ts ts' : List Tile)
    → LastFree (xs ++ t ∷ ts)
    → (LastFree (t ∷ ts) → LastFree (t' ∷ ts'))
    → LastFree (xs ++ t' ∷ ts')
LastFree-append [] t t' ts ts' l f = f l
LastFree-append (x ∷ []) t t' ts ts' l f = f l
LastFree-append (x ∷ y ∷ xs) t t' ts ts' l f = LastFree-append (y ∷ xs) t t' ts ts' l f

pub LastFree-right :
    (xs : List Tile) (t : Tile) (ts : List Tile) → LastFree (xs ++ t ∷ ts) → LastFree (t ∷ ts)
LastFree-right [] t ts l = l
LastFree-right (x ∷ []) t ts l = l
LastFree-right (x ∷ y ∷ xs) t ts l = LastFree-right (y ∷ xs) t ts l

pub Apart-append :
    (xs : List Tile) (t t' : Tile) (ts ts' : List Tile)
    → (t.used ≡ true → t'.used ≡ true)
    → Apart (xs ++ t ∷ ts)
    → (Apart (t ∷ ts) → Apart (t' ∷ ts'))
    → Apart (xs ++ t' ∷ ts')
Apart-append [] t t' ts ts' used a f = f a
Apart-append (x ∷ []) t t' ts ts' used a f = (or_mono x.used t.used t'.used used a.0, f a.1)
  where
    or_mono : (u v w : Bool) → (v ≡ true → w ≡ true) → (u || v) ≡ true → (u || w) ≡ true
    or_mono true v w i e = refl
    or_mono false v w i e = i e
Apart-append (x ∷ y ∷ xs) t t' ts ts' used a f = (a.0, Apart-append (y ∷ xs) t t' ts ts' used a.1 f)

pub Apart-right :
    (xs : List Tile) (t : Tile) (ts : List Tile) → Apart (xs ++ t ∷ ts) → Apart (t ∷ ts)
Apart-right [] t ts a = a
Apart-right (x ∷ []) t ts a = a.1
Apart-right (x ∷ y ∷ xs) t ts a = Apart-right (y ∷ xs) t ts a.1
