-- ===== src/LineList/Tests.antt =====
-- Runs of the list of lines.
use os_tasks.Prelude.{ℕ, length, ◌≡◌, refl, true, some, none, List, [], ◌∷◌, ◌++◌, arith}
use os_tasks.LineList.{FileLine, file_line, Node, node, LineList, add_line, free_list}
use os_tasks.LineList.Freeing.{Rising, free_list_lem}
use os_tasks.LineList.Linked.{Holds, add_line_lem}

abbrev first : FileLine
first = file_line 0 3

abbrev second : FileLine
second = file_line 4 2

abbrev lines : List FileLine
lines = first ∷ second ∷ []

-- The list of the two lines, with a node that is not of the list between them.
abbrev heap : List Node
heap = node first (some 2) ∷ node second none ∷ node second none ∷ []

abbrev table : LineList
table = record { head = some 0; last = some 2 }

table-Holds : Holds heap table lines
table-Holds = (
  first ∷ [],
  second,
  2,
  refl,
  refl,
  refl,
  omega arith,
  (0, some 2, refl, refl, omega arith, omega arith, refl),
)

add_line_example :
    (list' : LineList) × (heap' : List Node) × (add_line true table first heap
      ≡ some (true, list', heap'))
    × Holds heap' list' (lines ++ (first ∷ []))
add_line_example = add_line_lem heap table lines first table-Holds

free_list_example :
    (freed : List ℕ) × (free_list heap table ≡ some freed) × (length freed ≡ 2) × Rising 0 freed
free_list_example = free_list_lem heap table lines table-Holds
