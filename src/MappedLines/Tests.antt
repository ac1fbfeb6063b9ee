-- ===== src/MappedLines/Tests.antt =====
-- A run of the scan of a mapped file.
use os_tasks.Prelude.{◌≡◌, refl, true, some, List, [], ◌∷◌, ◌++◌, ℕ, length}
use os_tasks.LineList.{FileLine, Node, init_list, LineList}
use os_tasks.LineList.Linked.{Holds}
use os_tasks.FileLines.Table.{table_from}
use os_tasks.MappedLines.{scan_mapped_file}
use os_tasks.MappedLines.Scanning.{scan_mapped_file_lem}

-- Two lines, and 9 without a line break.
abbrev text : List ℕ
text = 7 ∷ 10 ∷ 8 ∷ 10 ∷ 9 ∷ []

scan_mapped_file_example :
    (list : LineList) × (heap : List Node) × (ts : List FileLine) × (l : FileLine)
    × (scan_mapped_file (λ n. true) text (length text) init_list [] ≡ some (true, list, heap))
    × Holds heap list ts
    × (table_from 0 0 text ≡ ts ++ (l ∷ []))
scan_mapped_file_example = scan_mapped_file_lem (λ n. true) (λ n. refl) text
