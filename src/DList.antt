-- ===== src/DList.antt =====
-- kernel/utils/dsa/list.c: doubly linked lists in memory.
-- Nodes stand at addresses, 0 is NULL; a node that `kfree` is given keeps its bytes and is noted.
-- Each insertion takes the address that `kcalloc` returns for the new node as an argument.
pub mod Linked
pub mod Insert
pub mod Remove
pub mod Unlink
pub mod Whole
pub mod Search
mod Tests
use piggy_os.Base.{
  ℕ, zero, suc, ◌+◌, ◌-◌, ◌%◌, ◌^◌, Bool, true, false, not, Option, none, some, List, [], ◌∷◌, ◌==◌,
  leb, if◌then◌else◌, add32, sub32, update,
}

-- `list_node_t` and `list_t`
pub record Node : Type 0 where
  pub prev : ℕ
  pub next : ℕ
  pub value : ℕ

pub record DList : Type 0 where
  pub head : ℕ
  pub tail : ℕ
  pub size : ℕ

-- The nodes in memory, and the addresses given back, the last one first.
pub record Memory : Type 0 where
  pub nodes : ℕ → Node
  pub freed : List ℕ

abbrev pub blank_node : Node
blank_node = record { prev = 0; next = 0; value = 0 }

-- Writes to one field of the node at `p`.
abbrev pub set_prev : (p v : ℕ) → (ℕ → Node) → ℕ → Node
set_prev p v n = update n p (record (n p) { prev = v })

abbrev pub set_next : (p v : ℕ) → (ℕ → Node) → ℕ → Node
set_next p v n = update n p (record (n p) { next = v })

abbrev pub set_value : (p v : ℕ) → (ℕ → Node) → ℕ → Node
set_value p v n = update n p (record (n p) { value = v })

abbrev pub kfree : ℕ → Memory → Memory
kfree p m = record m { freed = p ∷ m.freed }

abbrev pub list_create : DList
list_create = record { head = 0; tail = 0; size = 0 }

-- `none` is a NULL list.
abbrev pub list_size : Option DList → ℕ
list_size none = 0
list_size (some l) = l.size

-- `head->prev = t` is written also where the list is empty: to address 0.
unfoldable pub list_insert_front : (t value : ℕ) → DList → Memory → DList × Memory
list_insert_front t value l m =
    let n = set_prev l.head t (update m.nodes t blank_node) in
    (
      record { head = t; tail = if l.head == 0 then t else l.tail; size = add32 l.size 1 },
      record m { nodes = set_value t value (set_next t l.head n) },
    )

unfoldable pub list_insert_back : (t value : ℕ) → DList → Memory → DList × Memory
list_insert_back t value l m =
    let n = set_prev t l.tail (update m.nodes t blank_node) in
    let n' = if l.tail == 0 then n else set_next l.tail t n in
    (
      record { head = if l.head == 0 then t else l.head; tail = t; size = add32 l.size 1 },
      record m { nodes = set_value t value n' },
    )

-- The value of the node taken out, 0 where there is none; the list; the memory.
abbrev pub Removed : Type 0
Removed = ℕ × DList × Memory

-- The tail is left as it is.
unfoldable pub list_remove_front : DList → Memory → Removed
list_remove_front l m =
    let head = (m.nodes l.head).next in
    let n = if head == 0 then m.nodes else set_prev head 0 m.nodes in
    if l.head == 0 then (0, l, m) else (
      (m.nodes l.head).value,
      record l { head = head; size = sub32 l.size 1 },
      kfree l.head (record m { nodes = n }),
    )

-- The head is left as it is.
unfoldable pub list_remove_back : DList → Memory → Removed
list_remove_back l m =
    let tail = (m.nodes l.tail).prev in
    let n = if tail == 0 then m.nodes else set_next tail 0 m.nodes in
    if l.head == 0 then (0, l, m) else (
      (m.nodes l.tail).value,
      record l { tail = tail; size = sub32 l.size 1 },
      kfree l.tail (record m { nodes = n }),
    )

-- Of a node in the middle, its neighbours are joined.
abbrev pub unlink : ℕ → (ℕ → Node) → ℕ → Node
unlink p n = let n' = set_prev (n p).next (n p).prev n in set_next (n' p).prev (n' p).next n'

unfoldable pub list_remove_node : ℕ → DList → Memory → Removed
unfolding list_remove_front list_remove_back
list_remove_node p l m =
    if l.head == p then list_remove_front l m else if l.tail == p then list_remove_back l m else (
      (m.nodes p).value,
      record l { size = sub32 l.size 1 },
      kfree p (record m { nodes = unlink p m.nodes }),
    )

unfoldable pub list_peek_front : DList → Memory → ℕ
list_peek_front l m = if l.head == 0 then 0 else (m.nodes l.head).value

unfoldable pub list_peek_back : DList → Memory → ℕ
list_peek_back l m = if l.tail == 0 then 0 else (m.nodes l.tail).value

-- The node itself is the answer; it is not given back, and the head is left as it is.
unfoldable pub list_pop : DList → Memory → Removed
list_pop l m =
    let tail = (m.nodes l.tail).prev in
    let n = if tail == 0 then m.nodes else set_next tail 0 m.nodes in
    if l.head == 0
    then (0, l, m)
    else (l.tail, record l { tail = tail; size = sub32 l.size 1 }, record m { nodes = n })
