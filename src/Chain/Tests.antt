-- ===== src/Chain/Tests.antt =====
-- The theorems on src/list.c at a chain of two nodes.
use tachyon.Prelude.{refl, none, some, [], ◌∷◌, arith}
use tachyon.Chain.{Chain, list_insert, list_remove}
use tachyon.Chain.Nodes.{null, cell, Store, put}
use tachyon.Chain.Shape.{Cells, IsChain, Ensures}
use tachyon.Chain.Insert.{list_insert-IsChain}
use tachyon.Chain.Remove.{remove_item, list_remove-remove_item}

abbrev two : Cells
two = (16, 5) ∷ (32, 6) ∷ []

abbrev store : Store
store = put (put (λ _. none) 32 (some (cell 6 null))) 16 (some (cell 5 32))

abbrev chain : Chain
chain = record { head = 16; tail = 32; size = 2 }

chain-IsChain : IsChain store chain two
chain-IsChain = record {
  nodes = (refl, omega arith, (omega arith, tt), (refl, omega arith, tt, tt));
  head = refl;
  tail = refl;
  size = refl;
  small = omega arith;
}

list_insert-IsChain_example :
    Ensures
      (λ l g. IsChain g l ((16, 5) ∷ (48, 7) ∷ (32, 6) ∷ []))
      (list_insert 48 chain 16 7 store)
list_insert-IsChain_example =
    list_insert-IsChain store chain [] 16 5 ((32, 6) ∷ []) 48 7 chain-IsChain (omega arith) refl
      (omega arith)

list_remove-remove_item_example :
    Ensures (λ l g. IsChain g l (remove_item 6 two)) (list_remove 3 chain 6 store)
list_remove-remove_item_example =
    list_remove-remove_item store chain two 6 3 chain-IsChain (omega arith)
