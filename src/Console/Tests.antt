-- ===== src/Console/Tests.antt =====
-- Runs of the dialogue.
use os_tasks.Prelude.{
  concat, false, ◌≡◌, refl, true, some, List, [], ◌∷◌, ℕ, suc, inl, inr, drop, map, pos,
}
use os_tasks.RoundBuffer.{Received, received}
use os_tasks.LineList.{Node, LineList, init_list}
use os_tasks.FileLines.{scan_file, Printing, c_string}
use os_tasks.FileLines.Table.{table_from, AreLines}
use os_tasks.FileLines.Showing.{Shows}
use os_tasks.Console.{handle_number, file_printer, handle_input, input_timeout, quit, shown}
use os_tasks.Console.Timeout.{all_pieces, NoneEmpty, timeout_prints}
use os_tasks.Console.Numbers.{Answers, scan_file-Answers}

-- 7, a line break and 9.
abbrev text : List ℕ
text = 7 ∷ 10 ∷ 9 ∷ []

abbrev rounds : List (ℕ × Received)
rounds = (0, received text) ∷ (3, received []) ∷ []

-- A read delivers one byte.
abbrev one_by_one : List ℕ → List Printing
one_by_one [] = []
one_by_one (x ∷ xs) = record { bytes = received (x ∷ []); put = true } ∷ one_by_one xs

one_by_one_lem : (xs : List ℕ) → Shows (one_by_one xs) xs
one_by_one_lem [] = refl
one_by_one_lem (x ∷ xs) = (refl, (x, [], xs, refl, refl, one_by_one_lem xs))

scan_file-Answers_example :
    (list : LineList) × (heap : List Node) × (scan_file (λ n. true) rounds init_list []
      ≡ some (true, list, heap))
    × ((n : ℕ)
        → Answers text
            (table_from 0 0 text)
            n
            (handle_number (file_printer (λ p. one_by_one (drop p text))) heap list (pos (suc n))))
scan_file-Answers_example =
    scan_file-Answers (λ n. true) (λ n. refl) rounds text (λ p. one_by_one (drop p text))
      (refl, inr (7, 10 ∷ 9 ∷ [], [], refl, refl, (refl, inl (refl, refl))))
      (λ p. one_by_one_lem (drop p text))

timeout_prints_example :
    (list : LineList) × (heap : List Node) × (pieces : List (List (List ℕ))) × (scan_file
        (λ n. true)
        rounds
        init_list
        []
      ≡ some (true, list, heap))
    × (handle_input
          (λ s. record { value = pos 0; rest = s; error = false })
          (file_printer (λ p. one_by_one (drop p text)))
          heap
          list
          input_timeout
        ≡ some (quit 0 (shown (map c_string (all_pieces pieces)) ∷ [])))
    × NoneEmpty pieces
    × AreLines (map concat pieces) text
timeout_prints_example =
    timeout_prints (λ n. true) (λ n. refl) rounds text (λ p. one_by_one (drop p text))
      (λ s. record { value = pos 0; rest = s; error = false })
      (refl, inr (7, 10 ∷ 9 ∷ [], [], refl, refl, (refl, inl (refl, refl))))
      (λ p. one_by_one_lem (drop p text))
