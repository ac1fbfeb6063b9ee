-- ===== src/TextMemory.antt =====
-- 4. Memory/main.c: keeps the lines that are typed in, up to one that begins with a dot, in a linked
-- list of copies, and prints them. A node's address is its index in the heap. A line is its bytes
-- before the 0; `none` is the use of a null pointer or of an address out of use, or the end of the
-- given results.
pub mod Chain
mod Tests
use os_tasks.Prelude.{
  ℕ, zero, suc, ◌+◌, Bool, true, false, Option, none, some, ◌>>=◌, List, [], ◌∷◌, ◌++◌, ◌==◌,
  if◌then◌else◌, length, get_elem?, store,
}

-- `struct list_node`
pub record TextNode : Type 0 where
  pub next : Option ℕ
  pub text : List ℕ

abbrev pub text_node : Option ℕ → List ℕ → TextNode
text_node next text = record { next = next; text = text }

-- `head` and `last`, and the nodes that were allocated.
pub record Lines : Type 0 where
  pub head : Option ℕ
  pub last : Option ℕ
  pub heap : List TextNode

abbrev pub no_lines : Lines
no_lines = record { head = none; last = none; heap = [] }

abbrev pub dot : ℕ
dot = 46

-- What `fgets` stores, or NULL at the end of the input.
unfoldable pub read_text : (fgets : Option (List ℕ)) → List ℕ
read_text none = dot ∷ []
read_text (some line) = line

-- `last->next = node`
unfoldable pub link : (last : Option ℕ) (node : ℕ) → List TextNode → Option (List TextNode)
link last node heap =
    last >>= λ a. get_elem? heap a >>= λ n. store heap a (record n { next = some node })

-- Whether `strdup` and `malloc` give memory; the result is 0 if not.
unfoldable pub add_text : (copied allocated : Bool) (line : List ℕ) → Lines → Option (Bool × Lines)
add_text false allocated line s = some (false, s)
add_text true false line s = some (false, s)
add_text true true line s =
    let node = length s.heap in
    let heap = s.heap ++ (text_node none line ∷ []) in
    elim s.head [
      | none ↦ some (true, record { head = some node; last = some node; heap = heap })
      | some h ↦ link s.last node heap >>= λ heap.
          some (true, record { head = some h; last = some node; heap = heap })
    ]

-- A line of input, and the calls of `strdup` and `malloc` for it.
pub record Typed : Type 0 where
  pub fgets : Option (List ℕ)
  pub copied : Bool
  pub allocated : Bool

-- `*line == '.'`
abbrev pub starts_with_dot : List ℕ → Bool
starts_with_dot [] = false
starts_with_dot (x ∷ xs) = x == dot

-- The first loop of `main`: whether it succeeded, and the lines.
unfoldable pub read_loop : List Typed → Lines → Option (Bool × Lines)
read_loop [] s = none
read_loop (t ∷ typed) s = elim (starts_with_dot (read_text t.fgets)) [
  | true ↦ some (true, s)
  | false ↦ add_text t.copied t.allocated (read_text t.fgets) s >>= λ (ok, s'). elim ok [
    | true ↦ read_loop typed s'
    | false ↦ some (false, s')
  ]
]

-- The loop that prints, on fuel above the number of nodes: the bytes.
unfoldable pub print_texts : ℕ → List TextNode → (p : Option ℕ) → Option (List ℕ)
print_texts zero heap p = none
print_texts (suc fuel) heap none = some []
print_texts (suc fuel) heap (some a) =
    get_elem? heap a >>= λ n. print_texts fuel heap n.next >>= λ rest. some (n.text ++ rest)

-- `free_list`: the nodes that are freed, from the last to the first, on the same fuel.
unfoldable pub free_texts : ℕ → List TextNode → (p : Option ℕ) → Option (List ℕ)
free_texts zero heap p = none
free_texts (suc fuel) heap none = some []
free_texts (suc fuel) heap (some a) =
    get_elem? heap a >>= λ n. free_texts fuel heap n.next >>= λ rest. some (rest ++ (a ∷ []))

-- `main`: what it prints, and what it frees.
unfoldable pub text_main : List Typed → Option (List ℕ × List ℕ)
text_main typed = read_loop typed no_lines >>= λ (ok, s).
    let fuel = suc (length s.heap) in
    (if ok then print_texts fuel s.heap s.head else some []) >>= λ printed.
    free_texts fuel s.heap s.head >>= λ freed. some (printed, freed)
