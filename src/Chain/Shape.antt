-- ===== src/Chain/Shape.antt =====
-- What a chain of nodes in the store stands for, and how it reacts to writes (src/list.c).
use tachyon.Prelude.{
  ℕ, ◌<◌, ◌≡◌, ◌∙◌, ◌≢◌, Option, none, some, List, [], ◌∷◌, ◌++◌, arith, length, All,
}
use tachyon.Prelude.Words.{word_mod}
use tachyon.Chain.Nodes.{
  Ptr, null, Node, cell, Store, put, Run, done, fault, no_fuel, ◌>>=◌, load, set_next, free,
}
use tachyon.Chain.{Chain}

-- Address and data of each node, in order.
abbrev pub Cells : Type 0
Cells = List (Ptr × ℕ)

abbrev pub front : Cells → Ptr
front [] = null
front ((a, v) ∷ xs) = a

abbrev pub back : Cells → Ptr
back [] = null
back ((a, v) ∷ []) = a
back ((a, v) ∷ c ∷ xs) = back (c ∷ xs)

abbrev pub Avoids : Ptr → Cells → Type 0
Avoids a = All λ c. c.0 ≢ a

-- The nodes lie at distinct addresses, and each links to the next.
abbrev pub Nodes : Store → Cells → Type 0
Nodes h [] = Unit
Nodes h ((a, v) ∷ xs) = (h a ≡ some (cell v (front xs))) × (a ≢ null) × Avoids a xs × Nodes h xs

pub record IsChain (h : Store) (l : Chain) (xs : Cells) : Type 0 where
  pub nodes : Nodes h xs
  pub head : l.head ≡ front xs
  pub tail : l.tail ≡ back xs
  pub size : l.size ≡ length xs
  pub small : length xs < word_mod

-- The command ends, without a fault, in a state that satisfies `P`.
abbrev pub Ensures : {A : Type 0} → (A → Store → Type 0) → Run A → Type 0
Ensures P (done a h) = P a h
Ensures P fault = ⊥
Ensures P no_fuel = ⊥

abbrev pub SameOn : Store → Store → Cells → Type 0
SameOn h g = All λ c. g c.0 ≡ h c.0

pub Nodes-frame : (h g : Store) (xs : Cells) → SameOn h g xs → Nodes h xs → Nodes g xs
Nodes-frame h g [] s n = tt
Nodes-frame h g ((a, v) ∷ xs) s n = (s.0 ∙ n.0, n.1, n.2, Nodes-frame h g xs s.1 n.3)

pub SameOn-put :
    (h : Store) (p : Ptr) (c : Option Node) (xs : Cells) → Avoids p xs → SameOn h (put h p c) xs
SameOn-put h p c [] av = tt
SameOn-put h p c ((a, v) ∷ xs) av = (ground (arith, av.0), SameOn-put h p c xs av.1)

pub SameOn-trans : (h g k : Store) (xs : Cells) → SameOn h g xs → SameOn g k xs → SameOn h k xs
SameOn-trans h g k [] s t = tt
SameOn-trans h g k (c ∷ xs) s t = (t.0 ∙ s.0, SameOn-trans h g k xs s.1 t.1)

pub Avoids-of_none : (h : Store) (f : Ptr) (xs : Cells) → Nodes h xs → h f ≡ none → Avoids f xs
Avoids-of_none h f [] n e = tt
Avoids-of_none h f ((a, v) ∷ xs) n e = (λ same. cc (n.0, same, e), Avoids-of_none h f xs n.3 e)

pub All-append {ℓ κ} :
    {A : Type ℓ} (P : A → Type κ) (xs ys : List A) → All P (xs ++ ys) → All P xs × All P ys
All-append P [] ys h = (tt, h)
All-append P (x ∷ xs) ys h = ((h.0, (All-append P xs ys h.1).0), (All-append P xs ys h.1).1)

pub All-join {ℓ κ} :
    {A : Type ℓ} (P : A → Type κ) (xs ys : List A) → All P xs → All P ys → All P (xs ++ ys)
All-join P [] ys h k = k
All-join P (x ∷ xs) ys h k = (h.0, All-join P xs ys h.1 k)

pub Nodes-append : (h : Store) (us vs : Cells) → Nodes h (us ++ vs) → Nodes h vs
Nodes-append h [] vs n = n
Nodes-append h (c ∷ us) vs n = Nodes-append h us vs n.3

pub load-done : (h : Store) (p : Ptr) (n : Node) → h p ≡ some n → p ≢ null → load p h ≡ done n h
unfolding load
load-done h p n e ne = ground arith

pub set_next-done :
    (h : Store) (p q : Ptr) (n : Node)
    → h p ≡ some n
    → p ≢ null
    → set_next p q h ≡ done tt (put h p (some (cell n.item q)))
unfolding set_next
set_next-done h p q n e ne = rw (load-done h p n e ne, ◌>>=◌)

pub free-done :
    (h : Store) (p : Ptr) (n : Node) → h p ≡ some n → p ≢ null → free p h ≡ done tt (put h p none)
unfolding free
free-done h p n e ne = rw (load-done h p n e ne, ◌>>=◌)
