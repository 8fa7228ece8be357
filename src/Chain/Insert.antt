-- ===== src/Chain/Insert.antt =====
-- `list_insert` and `list_add` (src/list.c).
use mathlib.Core.List.{append_assoc}
use tachyon.Prelude.{
  ℕ, suc, ◌+◌, ◌<◌, ◌≡◌, refl, sym, ap, ◌∙◌, subst, ◌≢◌, inl, inr, Option, none, some, [], ◌∷◌,
  ◌++◌, arith, ◌==◌, if◌then◌else◌, eqb→eq, eq→eqb, ne→eqb, Bool-cases, length, length-append,
}
use tachyon.Prelude.Words.{word_mod, add64}
use tachyon.Chain.Nodes.{Ptr, null, Node, cell, Store, put, ◌>>=◌}
use tachyon.Chain.{Chain, list_insert, list_add}
use tachyon.Chain.Shape.{
  Cells, front, back, Avoids, Nodes, IsChain, Ensures, SameOn, Nodes-frame, Avoids-of_none,
  All-append, All-join, Nodes-append, load-done, set_next-done,
}

pub front-append :
    (us : Cells) (c : Ptr × ℕ) (vs ws : Cells) → front (us ++ c ∷ vs) ≡ front (us ++ c ∷ ws)
front-append [] (a, v) vs ws = refl
front-append ((b, w) ∷ us) c vs ws = refl

pub back-append :
    (us : Cells) (a v : ℕ) (vs : Cells) → back (us ++ (a, v) ∷ vs) ≡ back ((a, v) ∷ vs)
back-append [] a v vs = refl
back-append ((b, w) ∷ []) a v vs = refl
back-append ((b, w) ∷ c ∷ us) a v vs = back-append (c ∷ us) a v vs

-- A new node behind `a`, in a store that differs at the two nodes only.
Nodes-insert :
    (h g : Store) (us : Cells) (a v f d : ℕ) (vs : Cells)
    → Nodes h (us ++ (a, v) ∷ vs)
    → Avoids f (us ++ (a, v) ∷ vs)
    → f ≢ null
    → g a ≡ some (cell v f)
    → g f ≡ some (cell d (front vs))
    → ((p : Ptr) → p ≢ a → p ≢ f → g p ≡ h p)
    → Nodes g (us ++ (a, v) ∷ (f, d) ∷ vs)
Nodes-insert h g [] a v f d vs n av ne ga gf same =
    (ga, n.1, (λ e. av.0 (sym e), n.2), (gf, ne, av.1, Nodes-frame h g vs (rest vs n.2 av.1) n.3))
  where
    rest : (ws : Cells) → Avoids a ws → Avoids f ws → SameOn h g ws
    rest [] x y = tt
    rest ((p, w) ∷ ws) x y = (same p x.0 y.0, rest ws x.1 y.1)
Nodes-insert h g ((b, w) ∷ us) a v f d vs n av ne ga gf same =
    let split = All-append (λ c. c.0 ≢ b) us ((a, v) ∷ vs) n.2 in
    (
      same b (λ e. split.1.0 (sym e)) av.0
          ∙ n.0
          ∙ ap (λ p. some (cell w p)) (front-append us (a, v) vs ((f, d) ∷ vs)),
      n.1,
      All-join (λ c. c.0 ≢ b) us ((a, v) ∷ (f, d) ∷ vs) split.0
          (split.1.0, (λ e. av.0 (sym e), split.1.1)),
      Nodes-insert h g us a v f d vs n.3 av.1 ne ga gf same,
    )

pub back_mem : (a b w : ℕ) (vs : Cells) → Avoids a ((b, w) ∷ vs) → back ((b, w) ∷ vs) ≢ a
back_mem a b w [] av = av.0
back_mem a b w ((b', w') ∷ vs) av = back_mem a b' w' vs av.1

last_of_back : (a v : ℕ) (vs : Cells) → Avoids a vs → back ((a, v) ∷ vs) ≡ a → vs ≡ []
last_of_back a v [] av e = refl
last_of_back a v ((b, w) ∷ vs) av e = absurd (back_mem a b w vs av e)

-- The descriptor that `list_insert` returns behind a node.
inserted : Chain → Ptr → Ptr → Chain
inserted l a f = record {
  head = l.head;
  tail = if l.tail == a then f else l.tail;
  size = add64 l.size 1;
}

inserted-IsChain :
    (h g : Store) (l : Chain) (us : Cells) (a v : ℕ) (vs : Cells) (f d : ℕ)
    → IsChain h l (us ++ (a, v) ∷ vs)
    → length (us ++ (a, v) ∷ vs) + 1 < word_mod
    → Nodes g (us ++ (a, v) ∷ (f, d) ∷ vs)
    → IsChain g (inserted l a f) (us ++ (a, v) ∷ (f, d) ∷ vs)
unfolding inserted
inserted-IsChain h g l us a v vs f d c small n =
    let split = Nodes-append h us ((a, v) ∷ vs) c.nodes in
    let k = length-append us ((a, v) ∷ vs) in
    let k' = length-append us ((a, v) ∷ (f, d) ∷ vs) in
    record {
      nodes = n;
      head = c.head ∙ front-append us (a, v) vs ((f, d) ∷ vs);
      tail = tail_eq;
      size = omega (arith, k, k', c.size);
      small = omega (arith, k, k');
    }
  where
    old_tail : l.tail ≡ back ((a, v) ∷ vs)
    old_tail = c.tail ∙ back-append us a v vs

    tail_of :
        (ws : Cells)
        → Avoids a ws
        → l.tail ≡ back ((a, v) ∷ ws)
        → (if l.tail == a then f else l.tail) ≡ back ((f, d) ∷ ws)
    tail_of [] av e = rw (eq→eqb l.tail a e)
    tail_of ((b, w) ∷ ws) av e = rw (e, ne→eqb _ a (back_mem a b w ws av))

    tail_eq : (if l.tail == a then f else l.tail) ≡ back (us ++ (a, v) ∷ (f, d) ∷ vs)
    tail_eq =
        tail_of vs (Nodes-append h us ((a, v) ∷ vs) c.nodes).2 old_tail
        ∙ sym (back-append us a v ((f, d) ∷ vs))

other :
    (f a : Ptr) (c c' : Option Node) (h : Store) (p : Ptr)
    → p ≢ a
    → p ≢ f
    → put (put h f c) a c' p ≡ h p
other f a c c' h p na nf = ground arith

-- `list_insert` after a node of a chain, at any place of it, with memory for the new node at an address
-- other than NULL that is not in use and fewer than 2 ^ 64 - 1 nodes: it ends without a fault, in a
-- chain with the new node and its data directly behind the given one, and all others as before.
pub list_insert-IsChain :
    (h : Store) (l : Chain) (us : Cells) (a v : ℕ) (vs : Cells) (f d : ℕ)
    → IsChain h l (us ++ (a, v) ∷ vs)
    → f ≢ null
    → h f ≡ none
    → length (us ++ (a, v) ∷ vs) + 1 < word_mod
    → Ensures (λ l' g. IsChain g l' (us ++ (a, v) ∷ (f, d) ∷ vs)) (list_insert f l a d h)
unfolding list_insert inserted
list_insert-IsChain h l us a v vs f d c ne unused small =
    let n = Nodes-append h us ((a, v) ∷ vs) c.nodes in
    let av = Avoids-of_none h f (us ++ (a, v) ∷ vs) c.nodes unused in
    let af : a ≢ f = (All-append (λ x. x.0 ≢ f) us ((a, v) ∷ vs) av).1.0 in
    let g1 = put h f (some (cell d null)) in
    let at1 : g1 a ≡ some (cell v (front vs)) = rw (ne→eqb a f af) n.0 in
    let here1 : g1 f ≡ some (cell d null) = rw (eq→eqb f f refl) in
    rw (ne→eqb a null n.1, load-done g1 a (cell v (front vs)) at1 n.1, ◌>>=◌)
      (elim (Bool-cases (l.tail == a)) [
        | inl last ↦
            let e : l.tail ≡ back ((a, v) ∷ vs) = c.tail ∙ back-append us a v vs in
            let none_left : vs ≡ [] = last_of_back a v vs n.2 (sym e ∙ eqb→eq l.tail a last) in
            let g2 = put g1 a (some (cell v f)) in
            let chain : Nodes g2 (us ++ (a, v) ∷ (f, d) ∷ vs) =
              Nodes-insert h g2 us a v f d vs c.nodes av ne (rw (eq→eqb a a refl))
                (rw (none_left, ne→eqb f a (λ q. af (sym q)), eq→eqb f f refl)) (other f a _ _ h) in
            rw (last, set_next-done g1 a f (cell v (front vs)) at1 n.1, ◌>>=◌)
              (inserted-IsChain h g2 l us a v vs f d c small chain)
        | inr mid ↦
            let h2 = put g1 f (some (cell d (front vs))) in
            let g2 = put h2 a (some (cell v f)) in
            let at2 : h2 a ≡ some (cell v (front vs)) = rw (ne→eqb a f af) n.0 in
            let chain : Nodes g2 (us ++ (a, v) ∷ (f, d) ∷ vs) =
              Nodes-insert h g2 us a v f d vs c.nodes av ne (rw (eq→eqb a a refl))
                (rw (ne→eqb f a (λ q. af (sym q)), eq→eqb f f refl))
                (λ p na nf. other f a _ _ g1 p na nf ∙ ground arith) in
            rw (mid, set_next-done g1 f (front vs) (cell d null) here1 ne, ◌>>=◌)
              (rw (set_next-done h2 a f (cell v (front vs)) at2 n.1, ◌>>=◌)
                (inserted-IsChain h g2 l us a v vs f d c small chain))
      ])

-- A chain that is not empty ends in a node.
pub last_node :
    (c : Ptr × ℕ) (xs : Cells)
    → (us : Cells) × (a : ℕ) × (v : ℕ) × (c ∷ xs ≡ us ++ (a, v) ∷ []) × (back (c ∷ xs) ≡ a)
last_node (a, v) [] = ([], a, v, refl, refl)
last_node c (c' ∷ xs) = let (us, a, v, e, b) = last_node c' xs in (c ∷ us, a, v, ap (◌∷◌ c) e, b)

add_empty :
    (h : Store) (l : Chain) (f d : ℕ)
    → IsChain h l []
    → f ≢ null
    → Ensures (λ l' g. IsChain g l' ((f, d) ∷ [])) (list_add f l d h)
unfolding list_add
add_empty h l f d c ne = rw (c.tail) (record {
  nodes = (rw (eq→eqb f f refl), ne, tt, tt);
  head = refl;
  tail = refl;
  size = rw c.size;
  small = omega arith;
})

add_cons :
    (h : Store) (l : Chain) (c : Ptr × ℕ) (xs : Cells) (f d : ℕ)
    → IsChain h l (c ∷ xs)
    → f ≢ null
    → h f ≡ none
    → length (c ∷ xs) + 1 < word_mod
    → Ensures (λ l' g. IsChain g l' (c ∷ xs ++ (f, d) ∷ [])) (list_add f l d h)
unfolding list_add
add_cons h l c xs f d is ne unused small =
    let (us, a, v, e, b) = last_node c xs in
    let goal : Ensures (λ l' g. IsChain g l' (us ++ (a, v) ∷ (f, d) ∷ [])) (list_insert f l a d h) =
      list_insert-IsChain h l us a v [] f d (subst (IsChain h l) e is) ne unused
        (subst (λ (ys : Cells). length ys + 1 < word_mod) e small) in
    let whole : us ++ (a, v) ∷ (f, d) ∷ [] ≡ c ∷ xs ++ (f, d) ∷ [] =
      sym (ap (λ ys. ys ++ (f, d) ∷ []) e ∙ append_assoc us ((a, v) ∷ []) ((f, d) ∷ [])) in
    subst (λ t. Ensures (λ l' g. IsChain g l' (c ∷ xs ++ (f, d) ∷ [])) (list_insert f l t d h))
      (sym (is.tail ∙ b))
      (subst (λ ys. Ensures (λ l' g. IsChain g l' ys) (list_insert f l a d h)) whole goal)

-- `list_add` on a chain, empty or not, with memory for the new node at an address other than NULL that
-- is not in use and fewer than 2 ^ 64 - 1 nodes, ends without a fault, in a chain with the new node and
-- its data at the end.
pub list_add-append :
    (h : Store) (l : Chain) (xs : Cells) (f d : ℕ)
    → IsChain h l xs
    → f ≢ null
    → h f ≡ none
    → length xs + 1 < word_mod
    → Ensures (λ l' g. IsChain g l' (xs ++ (f, d) ∷ [])) (list_add f l d h)
list_add-append h l [] f d is ne unused small = add_empty h l f d is ne
list_add-append h l (c ∷ xs) f d is ne unused small = add_cons h l c xs f d is ne unused small

not_chain :
    (h : Store) (l : Chain) (f d n : ℕ)
    → f ≢ null
    → l.size ≡ suc n
    → suc n < word_mod
    → (ys : Cells)
    → ¬ IsChain
        (put h f (some (cell d null)))
        (record { head = f; tail = if l.tail == null then f else l.tail; size = add64 l.size 1 })
        ys
not_chain h l f d n ne e small [] is = ne is.head
not_chain h l f d n ne e small ((b, w) ∷ []) is = omega (arith, is.size)
not_chain h l f d n ne e small ((b, w) ∷ (b', w') ∷ ys) is =
    is.nodes.3.1 (ground (arith, is.nodes.0, is.head))

-- `list_insert` with NULL for the node to follow makes the new node the head without linking it to the
-- old head. On a chain that is not empty, with fewer than 2 ^ 64 - 1 nodes, and memory for the new node
-- at an address other than NULL: it ends without a fault, the new node is the head and links to
-- nothing, the size counts the lost nodes and the new one, and the descriptor stands for no list of
-- nodes any more.
pub list_insert-null :
    (h : Store) (l : Chain) (c : Ptr × ℕ) (xs : Cells) (f d : ℕ)
    → IsChain h l (c ∷ xs)
    → f ≢ null
    → length (c ∷ xs) + 1 < word_mod
    → Ensures
        (λ l' g.
          (l'.head ≡ f)
          × Nodes g ((f, d) ∷ [])
          × (l'.size ≡ length (c ∷ xs) + 1)
          × ((ys : Cells) → ¬ IsChain g l' ys))
        (list_insert f l null d h)
unfolding list_insert
list_insert-null h l c xs f d is ne small = (
  refl,
  (rw (eq→eqb f f refl), ne, tt, tt),
  omega (arith, is.size),
  not_chain h l f d (length xs) ne is.size is.small,
)
