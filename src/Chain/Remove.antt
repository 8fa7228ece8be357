-- ===== src/Chain/Remove.antt =====
-- `list_remove`, `list_clear` and `list_delete` (src/list.c).
use mathlib.Core.List.{append_assoc}
use tachyon.Prelude.{
  ℕ, zero, suc, ◌<◌, ◌≡◌, refl, sym, ap, ◌∙◌, subst, ◌≢◌, ◌⊎◌, inl, inr, Option, none, some, [],
  ◌∷◌, ◌++◌, arith, ◌==◌, if◌then◌else◌, eqb→eq, eqb→ne, eq→eqb, ne→eqb, Bool-cases, length,
  length-append,
}
use tachyon.Prelude.Words.{sub64}
use tachyon.Chain.Nodes.{Ptr, null, Node, cell, Store, put, Run, done, fault, no_fuel, Cmd, ◌>>=◌}
use tachyon.Chain.{Chain, remove_loop, list_remove, list_clear, delete_loop, list_delete}
use tachyon.Chain.Shape.{
  Cells, front, back, Avoids, Nodes, IsChain, Ensures, SameOn, Nodes-frame, SameOn-put, All-append,
  All-join, Nodes-append, load-done, set_next-done, free-done,
}
use tachyon.Chain.Insert.{front-append, back-append, back_mem, last_node}

-- The cells without the first one that holds `v`.
pub remove_item : ℕ → Cells → Cells
remove_item v [] = []
remove_item v ((b, w) ∷ xs) = if w == v then xs else (b, w) ∷ remove_item v xs

-- The chain without the node behind `a`, in a store that differs at these two nodes only.
Nodes-remove :
    (h g : Store) (us : Cells) (a u b w : ℕ) (vs : Cells)
    → Nodes h (us ++ (a, u) ∷ (b, w) ∷ vs)
    → g a ≡ some (cell u (front vs))
    → ((p : Ptr) → p ≢ a → p ≢ b → g p ≡ h p)
    → Nodes g (us ++ (a, u) ∷ vs)
Nodes-remove h g [] a u b w vs n ga same =
    (ga, n.1, n.2.1, Nodes-frame h g vs (rest vs n.2.1 n.3.2) n.3.3)
  where
    rest : (ws : Cells) → Avoids a ws → Avoids b ws → SameOn h g ws
    rest [] x y = tt
    rest ((p, z) ∷ ws) x y = (same p x.0 y.0, rest ws x.1 y.1)
Nodes-remove h g ((c, z) ∷ us) a u b w vs n ga same =
    let split = All-append (λ x. x.0 ≢ c) us ((a, u) ∷ (b, w) ∷ vs) n.2 in
    (
      same c (λ e. split.1.0 (sym e)) (λ e. split.1.1.0 (sym e))
          ∙ n.0
          ∙ ap (λ p. some (cell z p)) (front-append us (a, u) ((b, w) ∷ vs) vs),
      n.1,
      All-join (λ x. x.0 ≢ c) us ((a, u) ∷ vs) split.0 (split.1.0, split.1.1.1),
      Nodes-remove h g us a u b w vs n.3 ga same,
    )

-- The descriptor that `list_remove` returns when it unlinks `node`.
removed : Chain → (prev node link : Ptr) → Chain
removed l prev node link = record {
  head = if prev == null then link else l.head;
  tail = if l.tail == node then if prev == null then link else prev else l.tail;
  size = sub64 l.size 1;
}

hit_first :
    (h : Store) (l : Chain) (b w : ℕ) (vs : Cells)
    → IsChain h l ((b, w) ∷ vs)
    → IsChain (put h b none) (removed l null b (front vs)) vs
unfolding removed
hit_first h l b w vs c = record {
  nodes = Nodes-frame h (put h b none) vs (SameOn-put h b none vs c.nodes.2) c.nodes.3;
  head = refl;
  tail = tail_eq vs c.nodes.2 c.tail;
  size = omega (arith, c.size, c.small);
  small = omega (arith, c.small);
}
  where
    tail_eq :
        (ws : Cells)
        → Avoids b ws
        → l.tail ≡ back ((b, w) ∷ ws)
        → (if l.tail == b then front ws else l.tail) ≡ back ws
    tail_eq [] av e = rw (eq→eqb l.tail b e)
    tail_eq ((x, z) ∷ ws) av e = rw (e, ne→eqb _ b (back_mem b x z ws av))

hit_later :
    (h : Store) (l : Chain) (us : Cells) (a u b w : ℕ) (vs : Cells)
    → IsChain h l (us ++ (a, u) ∷ (b, w) ∷ vs)
    → IsChain
        (put (put h a (some (cell u (front vs)))) b none)
        (removed l a b (front vs))
        (us ++ (a, u) ∷ vs)
unfolding removed
hit_later h l us a u b w vs c =
    let n = Nodes-append h us ((a, u) ∷ (b, w) ∷ vs) c.nodes in
    let k = length-append us ((a, u) ∷ (b, w) ∷ vs) in
    let k' = length-append us ((a, u) ∷ vs) in
    record {
      nodes =
          Nodes-remove h _ us a u b w vs c.nodes
            (rw (ne→eqb a b (λ e. n.2.0 (sym e)), eq→eqb a a refl)) (other h _ a b);
      head = rw (ne→eqb a null n.1) (c.head ∙ front-append us (a, u) ((b, w) ∷ vs) vs);
      tail =
          tail_eq vs n.3.2 (c.tail ∙ back-append us a u ((b, w) ∷ vs))
          ∙ sym (back-append us a u vs);
      size = omega (arith, c.size, c.small, k, k');
      small = omega (arith, c.small, k, k');
    }
  where
    other :
        (h : Store) (x : Option Node) (a b p : Ptr) → p ≢ a → p ≢ b → put (put h a x) b none p ≡ h p
    other h x a b p na nb = ground arith

    tail_eq :
        (ws : Cells)
        → Avoids b ws
        → l.tail ≡ back ((b, w) ∷ ws)
        → (if l.tail == b then if a == null then front ws else a else l.tail) ≡ back ((a, u) ∷ ws)
    tail_eq [] av e =
        rw (eq→eqb l.tail b e, ne→eqb a null (Nodes-append h us ((a, u) ∷ (b, w) ∷ vs) c.nodes).1)
    tail_eq ((x, z) ∷ ws) av e = rw (e, ne→eqb _ b (back_mem b x z ws av))

hit_null :
    (h : Store) (l : Chain) (b w : ℕ) (vs : Cells) (v fuel : ℕ)
    → IsChain h l ((b, w) ∷ vs)
    → w ≡ v
    → Ensures (λ l' g. IsChain g l' vs) (remove_loop (suc fuel) v l null b h)
unfolding remove_loop removed
hit_null h l b w vs v fuel c e =
    rw (ne→eqb b null c.nodes.1, load-done h b (cell w (front vs)) c.nodes.0 c.nodes.1, ◌>>=◌)
      (rw (eq→eqb w v e, free-done h b (cell w (front vs)) c.nodes.0 c.nodes.1, ◌>>=◌)
        (hit_first h l b w vs c))

hit_prev :
    (h : Store) (l : Chain) (us : Cells) (a u b w : ℕ) (vs : Cells) (v fuel : ℕ)
    → IsChain h l (us ++ (a, u) ∷ (b, w) ∷ vs)
    → w ≡ v
    → Ensures (λ l' g. IsChain g l' (us ++ (a, u) ∷ vs)) (remove_loop (suc fuel) v l a b h)
unfolding remove_loop removed
hit_prev h l us a u b w vs v fuel c e =
    let n = Nodes-append h us ((a, u) ∷ (b, w) ∷ vs) c.nodes in
    let m = n.3 in
    let h1 = put h a (some (cell u (front vs))) in
    let at : h1 b ≡ some (cell w (front vs)) = rw (ne→eqb b a n.2.0) m.0 in
    rw (ne→eqb b null m.1, load-done h b (cell w (front vs)) m.0 m.1, ◌>>=◌)
      (rw (eq→eqb w v e, ne→eqb a null n.1)
        (rw (set_next-done h a (front vs) (cell u b) n.0 n.1, ◌>>=◌)
          (rw (free-done h1 b (cell w (front vs)) at m.1, ◌>>=◌)
            (rw (ne→eqb a null n.1) at (hit_later h l us a u b w vs c)))))

hit :
    (h : Store) (l : Chain) (us : Cells) (b w : ℕ) (vs : Cells) (v fuel : ℕ)
    → IsChain h l (us ++ (b, w) ∷ vs)
    → w ≡ v
    → Ensures (λ l' g. IsChain g l' (us ++ vs)) (remove_loop (suc fuel) v l (back us) b h)
hit h l [] b w vs v fuel c e = hit_null h l b w vs v fuel c e
hit h l (x ∷ us) b w vs v fuel c e =
    let (us', a, u, eu, ba) = last_node x us in
    let join = λ (ys : Cells). ap (λ zs. zs ++ ys) eu ∙ append_assoc us' ((a, u) ∷ []) ys in
    let c' : IsChain h l (us' ++ (a, u) ∷ (b, w) ∷ vs) =
      subst (IsChain h l) (join ((b, w) ∷ vs)) c in
    subst (λ p. Ensures (λ l' g. IsChain g l' (x ∷ us ++ vs)) (remove_loop (suc fuel) v l p b h))
      (sym ba)
      (subst (λ ys. Ensures (λ l' g. IsChain g l' ys) (remove_loop (suc fuel) v l a b h))
        (sym (join vs)) (hit_prev h l us' a u b w vs v fuel c' e))

back_snoc : (us : Cells) (b w : ℕ) → back (us ++ (b, w) ∷ []) ≡ b
back_snoc us b w = back-append us b w []

loop :
    (h : Store) (l : Chain) (v fuel : ℕ) (us vs : Cells)
    → IsChain h l (us ++ vs)
    → length vs < fuel
    → Ensures
        (λ l' g. IsChain g l' (us ++ remove_item v vs))
        (remove_loop fuel v l (back us) (front vs) h)
unfolding remove_loop remove_item
loop h l v zero us vs c small = elim small [ ]
loop h l v (suc fuel) us [] c small = c
loop h l v (suc fuel) us ((b, w) ∷ vs) c small = elim (Bool-cases (w == v)) [
  | inl same ↦ rw same (hit h l us b w vs v fuel c (eqb→eq w v same))
  | inr differ ↦
      let n = Nodes-append h us ((b, w) ∷ vs) c.nodes in
      let c' : IsChain h l ((us ++ (b, w) ∷ []) ++ vs) =
        subst (IsChain h l) (sym (append_assoc us ((b, w) ∷ []) vs)) c in
      let ih = loop h l v fuel (us ++ (b, w) ∷ []) vs c' (omega arith) in
      let ih' : Ensures (λ l' g. IsChain g l' (us ++ (b, w) ∷ remove_item v vs))
          (remove_loop fuel v l b (front vs) h) =
        subst
          (λ p.
            Ensures (λ l' g. IsChain g l' (us ++ (b, w) ∷ remove_item v vs))
              (remove_loop fuel v l p (front vs) h))
          (back_snoc us b w)
          (subst
            (λ ys.
              Ensures (λ l' g. IsChain g l' ys)
                (remove_loop fuel v l (back (us ++ (b, w) ∷ [])) (front vs) h))
            (append_assoc us ((b, w) ∷ []) (remove_item v vs)) ih) in
      rw (differ, ne→eqb b null n.1, load-done h b (cell w (front vs)) n.0 n.1, ◌>>=◌)
        (rw differ ih')
]

-- `list_remove` on a chain ends without a fault, within one round more than the chain has nodes, and
-- leaves a chain without the first node with the data, if there is one, and with all others in order.
pub list_remove-remove_item :
    (h : Store) (l : Chain) (xs : Cells) (v fuel : ℕ)
    → IsChain h l xs
    → length xs < fuel
    → Ensures (λ l' g. IsChain g l' (remove_item v xs)) (list_remove fuel l v h)
unfolding list_remove
list_remove-remove_item h l xs v fuel c small =
    subst (λ p. Ensures (λ l' g. IsChain g l' (remove_item v xs)) (remove_loop fuel v l null p h))
      (sym c.head) (loop h l v fuel [] xs c small)

Ensures->>= :
    {A B : Type 0} (P : A → Store → Type 0) (Q : B → Store → Type 0) (m : Run A) (k : A → Cmd B)
    → Ensures P m
    → ((a : A) (g : Store) → P a g → Ensures Q (k a g))
    → Ensures Q (elim m [ done a g ↦ k a g | fault ↦ fault | no_fuel ↦ no_fuel ])
Ensures->>= P Q (done a g) k h f = f a g h
Ensures->>= P Q fault k h f = h
Ensures->>= P Q no_fuel k h f = h

-- `list_clear` on a chain ends without a fault, within one round more than the chain has nodes, and
-- leaves the empty chain.
pub list_clear-nil :
    (h : Store) (l : Chain) (xs : Cells) (fuel : ℕ)
    → IsChain h l xs
    → length xs < fuel
    → Ensures (λ l' g. IsChain g l' []) (list_clear fuel l h)
unfolding list_clear remove_item
list_clear-nil h l xs zero c small = elim small [ ]
list_clear-nil h l [] (suc fuel) c small = rw (eq→eqb l.size 0 c.size) c
list_clear-nil h l ((b, w) ∷ xs) (suc fuel) c small =
    let n = c.nodes in
    let one : Ensures (λ l' g. IsChain g l' xs) (list_remove (suc fuel) l w h) =
      rw (eq→eqb w w refl) at (list_remove-remove_item h l ((b, w) ∷ xs) w (suc fuel) c small) in
    let found =
      load-done h l.head (cell w (front xs)) (ap h c.head ∙ n.0) (λ e. n.1 (sym c.head ∙ e)) in
    rw (ne→eqb l.size 0 (omega (arith, c.size)), found, ◌>>=◌)
      (Ensures->>= (λ l' g. IsChain g l' xs) (λ l' g. IsChain g l' []) _ (list_clear fuel) one
        (λ l' g c'. list_clear-nil g l' xs fuel c' (omega arith)))

Nodes-free : (h : Store) (b : Ptr) (xs : Cells) → Avoids b xs → Nodes h xs → Nodes (put h b none) xs
Nodes-free h b xs av n = Nodes-frame h (put h b none) xs (SameOn-put h b none xs av) n

Ensures-mono :
    {A : Type 0} (P Q : A → Store → Type 0) (m : Run A)
    → ((a : A) (g : Store) → P a g → Q a g)
    → Ensures P m
    → Ensures Q m
Ensures-mono P Q (done a g) f h = f a g h
Ensures-mono P Q fault f h = h
Ensures-mono P Q no_fuel f h = h

-- A node of `xs` is free, and any other address is as in `h`.
abbrev pub Freed : Store → Cells → Store → Type 0
Freed h xs g = (p : Ptr) → (g p ≡ none) ⊎ ((g p ≡ h p) × Avoids p xs)

Freed-cons :
    (h g : Store) (b w : ℕ) (xs : Cells) → Freed (put h b none) xs g → Freed h ((b, w) ∷ xs) g
Freed-cons h g b w xs f p = elim (f p) [
  | inl e ↦ inl e
  | inr (e, av) ↦ elim (Bool-cases (p == b)) [
    | inl same ↦ inl (e ∙ rw same)
    | inr differ ↦ inr (e ∙ rw differ, ((λ q. eqb→ne p b differ (sym q)), av))
  ]
]

delete_all :
    (h : Store) (xs : Cells) (fuel : ℕ)
    → Nodes h xs
    → length xs < fuel
    → Ensures (λ _ g. Freed h xs g) (delete_loop fuel (front xs) h)
unfolding delete_loop
delete_all h xs zero n small = elim small [ ]
delete_all h [] (suc fuel) n small = λ p. inr (refl, tt)
delete_all h ((b, w) ∷ xs) (suc fuel) n small =
    rw (ne→eqb b null n.1, load-done h b (cell w (front xs)) n.0 n.1, ◌>>=◌)
      (rw (free-done h b (cell w (front xs)) n.0 n.1, ◌>>=◌)
        (Ensures-mono (λ _ g. Freed (put h b none) xs g) (λ _ g. Freed h ((b, w) ∷ xs) g) _
          (λ _ g. Freed-cons h g b w xs)
          (delete_all (put h b none) xs fuel (Nodes-free h b xs n.2 n.3) (omega arith))))

-- `list_delete` on a chain ends without a fault, within one round more than the chain has nodes: each
-- address is free afterwards, or it is none of the nodes' and holds what it held.
pub list_delete_frees :
    (h : Store) (l : Chain) (xs : Cells) (fuel : ℕ)
    → IsChain h l xs
    → length xs < fuel
    → Ensures (λ _ g. Freed h xs g) (list_delete fuel l h)
unfolding list_delete
list_delete_frees h l xs fuel c small =
    subst (λ p. Ensures (λ _ g. Freed h xs g) (delete_loop fuel p h)) (sym c.head)
      (delete_all h xs fuel c.nodes small)
