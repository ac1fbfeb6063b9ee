-- ===== src/LineList.antt =====
-- 5,6. File/line_list.c and line_list.h (7. mmap has the same files): a singly linked list of lines
-- with a pointer to its last node. A node's address is its index in the heap, the list of the nodes
-- that were allocated. `none` is the use of a null pointer or of an address out of use.
pub mod Segments
pub mod Linked
pub mod Freeing
mod Tests
use os_tasks.Prelude.{
  ℕ, zero, suc, Bool, true, false, Option, none, some, ◌>>=◌, List, [], ◌∷◌, ◌++◌, if◌then◌else◌,
  length, get_elem?, store,
}

-- `struct line`; an `off_t` of the programs is never negative.
pub record FileLine : Type 0 where
  pub offset : ℕ
  pub len : ℕ

abbrev pub file_line : ℕ → ℕ → FileLine
file_line offset len = record { offset = offset; len = len }

-- `struct node`
pub record Node : Type 0 where
  pub line : FileLine
  pub next : Option ℕ

abbrev pub node : FileLine → Option ℕ → Node
node line next = record { line = line; next = next }

-- `struct list`
pub record LineList : Type 0 where
  pub head : Option ℕ
  pub last : Option ℕ

abbrev pub init_list : LineList
init_list = record { head = none; last = none }

-- The new node's address, or NULL if `malloc` failed.
unfoldable pub make_node :
    (allocated : Bool) → FileLine → (next : Option ℕ) → List Node → Option ℕ × List Node
make_node allocated line next heap =
    if allocated then (some (length heap), heap ++ (node line next ∷ [])) else (none, heap)

unfoldable pub get_node : List Node → (head : Option ℕ) (offset : ℕ) → Option (Option ℕ)
get_node heap head zero = some head
get_node heap none (suc offset) = some none
get_node heap (some a) (suc offset) = get_elem? heap a >>= λ n. get_node heap n.next offset

-- `list->last->next = node`
unfoldable pub set_next : (last : Option ℕ) (next : ℕ) → List Node → Option (List Node)
set_next last next heap =
    last >>= λ a. get_elem? heap a >>= λ n. store heap a (record n { next = some next })

unfoldable pub list_add : LineList → (node : ℕ) → List Node → Option (LineList × List Node)
list_add list node heap = elim list.head [
  | none ↦ some (record { head = some node; last = some node }, heap)
  | some h ↦ set_next list.last node heap >>= λ heap. some (record list { last = some node }, heap)
]

-- The result is 0 if the node could not be allocated.
unfoldable pub add_line :
    (allocated : Bool) → LineList → FileLine → List Node → Option (Bool × LineList × List Node)
add_line allocated list line heap =
    let (p, heap) = make_node allocated line none heap in
    elim p [
      | none ↦ some (false, list, heap)
      | some a ↦ list_add list a heap >>= λ (list, heap). some (true, list, heap)
    ]

-- `free_list` frees every node from the head on: their addresses, in order. The recursion is on fuel
-- above the number of nodes.
unfoldable pub free_node_recursive : ℕ → List Node → (head : Option ℕ) → Option (List ℕ)
free_node_recursive zero heap head = none
free_node_recursive (suc fuel) heap none = some []
free_node_recursive (suc fuel) heap (some a) =
    get_elem? heap a >>= λ n. free_node_recursive fuel heap n.next >>= λ rest. some (a ∷ rest)

unfoldable pub free_list : List Node → LineList → Option (List ℕ)
free_list heap list = free_node_recursive (suc (length heap)) heap list.head
