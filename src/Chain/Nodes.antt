-- ===== src/Chain/Nodes.antt =====
-- Nodes at addresses (`list_node_t`, src/list.h), and commands that read and write them. An access
-- through NULL or to memory that is not allocated is a fault.
use tachyon.Prelude.{ℕ, Option, none, some, ◌==◌, if◌then◌else◌}

abbrev pub Ptr : Type 0
Ptr = ℕ

abbrev pub null : Ptr
null = 0

-- `list_node_t`; the data is a pointer, which the list only compares.
pub record Node : Type 0 where
  pub item : ℕ
  pub link : Ptr

abbrev pub cell : ℕ → Ptr → Node
cell v q = record { item = v; link = q }

abbrev pub Store : Type 0
Store = Ptr → Option Node

abbrev pub put : Store → Ptr → Option Node → Store
put h p c a = if a == p then c else h a

pub data Run (A : Type 0) : Type 0 where
  done : A → Store → Run A
  fault : Run A
  no_fuel : Run A

abbrev pub Cmd : Type 0 → Type 0
Cmd A = Store → Run A

abbrev pub pure : {A : Type 0} → A → Cmd A
pure a h = done a h

infixl 5 ◌>>=◌ ◌>>◌
abbrev pub ◌>>=◌ : {A B : Type 0} → Cmd A → (A → Cmd B) → Cmd B
◌>>=◌ m k h = elim (m h) [ done a h' ↦ k a h' | fault ↦ fault | no_fuel ↦ no_fuel ]

abbrev pub ◌>>◌ : {A B : Type 0} → Cmd A → Cmd B → Cmd B
◌>>◌ m k = m >>= λ _. k

-- `*p = …` at a node that is allocated, and the effect of allocating one.
abbrev pub assign : Ptr → Option Node → Cmd (Unit {0})
assign p c h = done tt (put h p c)

unfoldable pub load : Ptr → Cmd Node
load p h = if p == null then fault else elim (h p) [ none ↦ fault | some n ↦ done n h ]

-- `p->next = q`
unfoldable pub set_next : Ptr → Ptr → Cmd (Unit {0})
set_next p q = do n ← load p; assign p (some (cell n.item q))

-- `kheap_free(p)`
unfoldable pub free : Ptr → Cmd (Unit {0})
free p = do n ← load p; assign p none
