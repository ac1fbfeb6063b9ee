-- ===== src/LineList/Freeing.antt =====
-- `free_list` on a list of lines.
use os_tasks.Prelude.{
  ℕ, zero, suc, ◌+◌, ◌≤◌, ◌<◌, ◌≡◌, refl, ap, Option, none, some, List, [], ◌∷◌, arith, length,
  get_elem?,
}
use os_tasks.LineList.{FileLine, Node, node, LineList, free_node_recursive, free_list}
use os_tasks.LineList.Segments.{Seg}
use os_tasks.LineList.Linked.{Holds, whole}

-- The addresses rise, so that no two are the same.
abbrev pub Rising : (from : ℕ) → List ℕ → Type 0
Rising from [] = Unit
Rising from (a ∷ rest) = (from ≤ a) × Rising (suc a) rest

pub Seg-length :
    (heap : List Node) (from lim : ℕ) (xs : List FileLine) (p q : Option ℕ)
    → Seg heap from lim xs p q
    → from ≤ lim
    → from + length xs ≤ lim
Seg-length heap from lim [] p q s h = omega arith
Seg-length heap from lim (x ∷ xs) p q (a, next, e, at, f, l, s) h =
    omega (arith, Seg-length heap (suc a) lim xs next q s (omega arith))

free_next :
    (fuel a : ℕ) (heap : List Node) (n : Node) (freed : List ℕ)
    → get_elem? heap a ≡ some n
    → free_node_recursive fuel heap n.next ≡ some freed
    → free_node_recursive (suc fuel) heap (some a) ≡ some (a ∷ freed)
unfolding free_node_recursive
free_next fuel a heap n freed at run = rw (at, run)

free_node_recursive_lem :
    (fuel : ℕ) (heap : List Node) (from lim : ℕ) (xs : List FileLine) (p : Option ℕ)
    → Seg heap from lim xs p none
    → length xs < fuel
    → (freed : List ℕ) × (free_node_recursive fuel heap p ≡ some freed)
      × (length freed ≡ length xs)
      × Rising from freed
unfolding free_node_recursive
free_node_recursive_lem zero heap from lim xs p s h = absurd (omega arith)
free_node_recursive_lem (suc fuel) heap from lim [] p e h = ([], rw e refl, refl, tt)
free_node_recursive_lem (suc fuel) heap from lim (x ∷ xs) p (a, next, e, at, f, l, s) h =
    let (freed, run, same, rising) =
      free_node_recursive_lem fuel heap (suc a) lim xs next s (omega arith) in
    (a ∷ freed, rw e (free_next fuel a heap (node x next) freed at run), ap suc same, (f, rising))

-- `free_list` of a list ends, within the fuel that it is given, and frees as many nodes as the list has
-- lines, no one twice: their addresses rise.
pub free_list_lem :
    (heap : List Node) (list : LineList) (xs : List FileLine)
    → Holds heap list xs
    → (freed : List ℕ) × (free_list heap list ≡ some freed)
      × (length freed ≡ length xs)
      × Rising 0 freed
unfolding free_list
free_list_lem heap list xs h =
    let s = whole heap list xs h in
    free_node_recursive_lem (suc (length heap)) heap 0 (length heap) xs list.head s
      (omega (arith, Seg-length heap 0 (length heap) xs list.head none s (omega arith)))
