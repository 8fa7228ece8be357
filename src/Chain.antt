-- ===== src/Chain.antt =====
-- src/list.c and src/list.h: the kernel's linked list, on an explicit store of nodes.
pub mod Nodes
pub mod Shape
pub mod Insert
pub mod Remove
mod Tests
use tachyon.Prelude.{ℕ, zero, suc, some, ◌==◌, if◌then◌else◌}
use tachyon.Prelude.Words.{add64, sub64}
use tachyon.Chain.Nodes.{
  Ptr, null, cell, no_fuel, Cmd, pure, ◌>>=◌, ◌>>◌, assign, load, set_next, free,
}

-- `list_t`. A descriptor stands outside the store, and a function that updates it returns it.
pub record Chain : Type 0 where
  pub head : Ptr
  pub tail : Ptr
  pub size : ℕ

-- `list_new`: `memset(list, 0, sizeof(list_t))`.
pub list_new : Chain
list_new = record { head = null; tail = null; size = 0 }

-- `fresh` is what `kheap_alloc` returns for the new node. A NULL list is refused before.
pub list_insert : Ptr → Chain → Ptr → ℕ → Cmd Chain
list_insert fresh list node data' = do
  assign fresh (some (cell data' null))
  if node == null
      then pure (record {
        head = fresh;
        tail = if list.tail == null then fresh else list.tail;
        size = add64 list.size 1;
      })
      else (do
        n ← load node
        if list.tail == node then pure tt else set_next fresh n.link
        set_next node fresh
        pure (record {
          head = list.head;
          tail = if list.tail == node then fresh else list.tail;
          size = add64 list.size 1;
        }))

pub list_add : Ptr → Chain → ℕ → Cmd Chain
unfolding list_insert
list_add fresh list data' = list_insert fresh list list.tail data'

-- `while(node)` of `list_remove`, with `prev` and `node`.
pub remove_loop : ℕ → ℕ → Chain → (prev node : Ptr) → Cmd Chain
remove_loop zero item list prev node = λ _. no_fuel
remove_loop (suc fuel) item list prev node = if node == null then pure list else do
  n ← load node
  if n.item == item
      then (do
        if prev == null then pure tt else set_next prev n.link
        free node
        pure (record {
          head = if prev == null then n.link else list.head;
          tail = if list.tail == node then if prev == null then n.link else prev else list.tail;
          size = sub64 list.size 1;
        }))
      else remove_loop fuel item list node n.link

-- The fuel is a bound on the nodes of the chain.
pub list_remove : ℕ → Chain → ℕ → Cmd Chain
unfolding remove_loop
list_remove fuel list item = remove_loop fuel item list null list.head

-- `while(list && list->size > 0)`; `list->head->data` faults if the head is NULL.
pub list_clear : ℕ → Chain → Cmd Chain
list_clear zero list = λ _. no_fuel
list_clear (suc fuel) list =
    if list.size == 0
    then pure list
    else do n ← load list.head; list' ← list_remove (suc fuel) list n.item; list_clear fuel list'

pub delete_loop : ℕ → Ptr → Cmd (Unit {0})
delete_loop zero node = λ _. no_fuel
delete_loop (suc fuel) node =
    if node == null then pure tt else do n ← load node; free node; delete_loop fuel n.link

-- The descriptor itself is freed last; no later call may use it.
pub list_delete : ℕ → Chain → Cmd (Unit {0})
unfolding delete_loop
list_delete fuel list = delete_loop fuel list.head
