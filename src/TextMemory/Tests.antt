-- ===== src/TextMemory/Tests.antt =====
-- Runs of the program.
use os_tasks.Prelude.{ℕ, ◌≡◌, refl, true, false, some, List, [], ◌∷◌}
use os_tasks.TextMemory.{
  Typed, dot, starts_with_dot, text_main, read_loop, add_text, read_text, free_texts,
}
use os_tasks.TextMemory.Chain.{Types, text_main_lem}

abbrev kept : List ℕ → Typed
kept line = record { fgets = some line; copied = true; allocated = true }

abbrev ending : Typed
ending = record { fgets = some (dot ∷ 97 ∷ []); copied = false; allocated = false }

ending_dot : starts_with_dot (read_text ending.fgets) ≡ true
unfolding read_text
ending_dot = refl

text_main_example :
    text_main (kept (97 ∷ 10 ∷ []) ∷ kept (10 ∷ []) ∷ kept (98 ∷ 10 ∷ []) ∷ ending ∷ [])
    ≡ some (97 ∷ 10 ∷ 10 ∷ 98 ∷ 10 ∷ [], 2 ∷ 1 ∷ 0 ∷ [])
text_main_example =
    text_main_lem (Types.keeps refl (Types.keeps refl (Types.keeps refl (Types.ends ending_dot))))

-- Without memory for the second line, nothing is printed.
no_memory :
    text_main (
      kept (97 ∷ 10 ∷ [])
      ∷ record { fgets = some (98 ∷ 10 ∷ []); copied = true; allocated = false }
      ∷ [])
    ≡ some ([], 0 ∷ [])
unfolding text_main read_loop add_text read_text free_texts
no_memory = refl
