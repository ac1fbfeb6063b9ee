-- ===== src/LineList/Linked.antt =====
-- The linked list refines a list of lines, for `add_line` and `get_node`.
use os_tasks.Prelude.{
  ℕ, zero, suc, ◌<◌, ◌≡◌, ◌⊎◌, inl, inr, refl, sym, ap, ◌∙◌, true, Option, none, some, List, [],
  ◌∷◌, ◌++◌, arith, length, length-append, get_elem?, set, get_elem?-set_self, get_elem?-set_ne,
  store-eq-set, length-set,
}
use mathlib.Core.Path.{subst}
use os_tasks.LineList.{
  FileLine, Node, node, LineList, make_node, get_node, set_next, list_add, add_line,
}
use os_tasks.LineList.Segments.{
  Seg, Seg-set, get_elem?-append_left, get_elem?-append_end, Seg-append_heap, Seg-snoc, Seg-head,
}

-- The list holds the lines, in order, and `last` points to the last node.
abbrev pub Holds : List Node → LineList → List FileLine → Type 0
Holds heap list [] = list.head ≡ none
Holds heap list (x ∷ xs) =
    (front : List FileLine) × (end : FileLine) × (a : ℕ) × (x ∷ xs ≡ front ++ (end ∷ []))
    × (list.last ≡ some a)
    × (get_elem? heap a ≡ some (node end none))
    × (a < length heap)
    × Seg heap 0 a front list.head (some a)

module _ (heap : List Node) (list : LineList) (x : FileLine) where
  first_added :
      list.head ≡ none
      → add_line true list x heap
        ≡ some (
          true,
          record { head = some (length heap); last = some (length heap) },
          heap ++ (node x none ∷ []),
        )
  unfolding add_line make_node list_add
  first_added e = rw e

  module _ (a h : ℕ) (end : FileLine) (nonempty : list.head ≡ some h) (last : list.last ≡ some a)
      (at : get_elem? heap a ≡ some (node end none)) (used : a < length heap) where
    abbrev linked : List Node
    linked = set (heap ++ (node x none ∷ [])) a (node end (some (length heap)))

    set_next_lem : set_next (some a) (length heap) (heap ++ (node x none ∷ [])) ≡ some linked
    unfolding set_next
    set_next_lem = rw (
      get_elem?-append_left heap (node x none ∷ []) a used ∙ at,
      store-eq-set (heap ++ (node x none ∷ [])) a (node end (some (length heap)))
          (omega (arith, length-append heap (node x none ∷ []))),
    )

    next_added :
        add_line true list x heap ≡ some (true, record list { last = some (length heap) }, linked)
    unfolding add_line make_node list_add
    next_added = rw (nonempty, last, set_next_lem)

-- `add_line` with a node allocated puts the line at the end of the list.
pub add_line_lem :
    (heap : List Node) (list : LineList) (xs : List FileLine) (x : FileLine)
    → Holds heap list xs
    → (list' : LineList) × (heap' : List Node) × (add_line true list x heap
        ≡ some (true, list', heap'))
      × Holds heap' list' (xs ++ (x ∷ []))
add_line_lem heap list [] x e = (
  record { head = some (length heap); last = some (length heap) },
  heap ++ (node x none ∷ []),
  first_added heap list x e,
  (
    [],
    x,
    length heap,
    refl,
    refl,
    get_elem?-append_end heap (node x none),
    omega (arith, length-append heap (node x none ∷ [])),
    refl,
  ),
)
add_line_lem heap list (y ∷ ys) x (front, end, a, e, last, at, used, s) =
    let (h, nonempty) = Seg-head heap 0 a front list.head a s in
    let heap' = linked heap list x a h end nonempty last at used in
    (
      record list { last = some (length heap) },
      heap',
      next_added heap list x a h end nonempty last at used,
      (
        y ∷ ys,
        x,
        length heap,
        refl,
        refl,
        get_elem?-set_ne (heap ++ (node x none ∷ [])) (node end (some (length heap)))
              (λ f. omega arith)
            ∙ get_elem?-append_end heap (node x none),
        omega (
          arith,
          length-append heap (node x none ∷ []),
          length-set (heap ++ (node x none ∷ [])) a (node end (some (length heap))),
        ),
        subst (λ l. Seg heap' 0 (length heap) l list.head (some (length heap))) (sym e)
            (Seg-snoc heap' 0 a (length heap) front end list.head (some (length heap)) a
              (get_elem?-set_self (heap ++ (node x none ∷ [])) a (node end (some (length heap)))
                (omega (arith, length-append heap (node x none ∷ []))))
              (omega arith) (omega arith) used
              (Seg-set (heap ++ (node x none ∷ [])) 0 a front list.head (some a) a
                (node end (some (length heap))) (omega arith)
                (Seg-append_heap heap (node x none ∷ []) 0 a front list.head (some a) (omega arith)
                  s))),
      ),
    )

-- The whole list, to its null pointer.
pub whole :
    (heap : List Node) (list : LineList) (xs : List FileLine)
    → Holds heap list xs
    → Seg heap 0 (length heap) xs list.head none
whole heap list [] e = e
whole heap list (y ∷ ys) (front, end, a, e, last, at, used, s) =
    subst (λ l. Seg heap 0 (length heap) l list.head none) (sym e)
      (Seg-snoc heap 0 a (length heap) front end list.head none a at (omega arith) (omega arith)
        used s)

-- `get_node` from `p` ends at a node of the heap with line n of `xs`, or at NULL if there is no such
-- line.
abbrev pub Gets : List Node → (xs : List FileLine) (p : Option ℕ) (n : ℕ) → Type 0
Gets heap xs p n =
    ((get_node heap p n ≡ some none) × (get_elem? xs n ≡ none))
    ⊎ ((a : ℕ) × (k : Node) × (get_node heap p n ≡ some (some a))
        × (get_elem? heap a ≡ some k)
        × (get_elem? xs n ≡ some k.line))

get_node-Seg :
    (heap : List Node) (from lim : ℕ) (xs : List FileLine) (p : Option ℕ) (n : ℕ)
    → Seg heap from lim xs p none
    → Gets heap xs p n
unfolding get_node
get_node-Seg heap from lim [] p zero e = inl (ap some e, refl)
get_node-Seg heap from lim [] p (suc n) e = inl (rw e refl, refl)
get_node-Seg heap from lim (x ∷ xs) p zero (a, next, e, at, f, l, s) =
    inr (a, node x next, ap some e, at, refl)
get_node-Seg heap from lim (x ∷ xs) p (suc n) (a, next, e, at, f, l, s) =
    rw (e, at) (get_node-Seg heap (suc a) lim xs next n s)

-- `get_node` from the head of a list follows the list's pointers and ends at a node with the line
-- of that index, or at NULL if the list has fewer lines.
pub get_node_lem :
    (heap : List Node) (list : LineList) (xs : List FileLine) (n : ℕ)
    → Holds heap list xs
    → Gets heap xs list.head n
get_node_lem heap list xs n h =
    get_node-Seg heap 0 (length heap) xs list.head n (whole heap list xs h)
