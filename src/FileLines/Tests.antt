-- ===== src/FileLines/Tests.antt =====
-- Runs of the scan and of the printing.
use os_tasks.Prelude.{◌≡◌, refl, true, some, List, [], ◌∷◌, inl, inr, ℕ, map}
use os_tasks.RoundBuffer.{Received, received}
use os_tasks.LineList.{Node, init_list, LineList}
use os_tasks.LineList.Linked.{Holds}
use os_tasks.FileLines.{scan_file}
use os_tasks.FileLines.Table.{table_from, slice, AreLines}
use os_tasks.FileLines.Scanning.{scan_file_lem}

-- 7, 8, a line break and 9, in two pieces.
abbrev text : List ℕ
text = 7 ∷ 8 ∷ 10 ∷ 9 ∷ []

abbrev rounds : List (ℕ × Received)
rounds = (0, received (7 ∷ [])) ∷ (1, received (8 ∷ 10 ∷ 9 ∷ [])) ∷ (4, received []) ∷ []

scan_file_example :
    (list : LineList) × (heap : List Node) × (scan_file (λ n. true) rounds init_list []
      ≡ some (true, list, heap))
    × Holds heap list (table_from 0 0 text)
    × AreLines (map (slice text) (table_from 0 0 text)) text
scan_file_example =
    scan_file_lem (λ n. true) (λ n. refl) rounds text
      (
        refl,
        inr (
          7,
          [],
          8 ∷ 10 ∷ 9 ∷ [],
          refl,
          refl,
          (refl, inr (8, 10 ∷ 9 ∷ [], [], refl, refl, (refl, inl (refl, refl)))),
        ),
      )
