-- ===== src/FileLines/Table.antt =====
-- The table of lines of a text, and the lines that it stands for.
use os_tasks.Prelude.{
  ℕ, ◌+◌, ◌-◌, ◌≡◌, refl, sym, ap, ◌∙◌, true, false, List, [], ◌∷◌, ◌++◌, map, arith, ◌==◌,
  if◌then◌else◌, length, take, drop, append_assoc, Bool-cases, inl, inr, append-nil, length-append,
  drop-append_length, take-append_length,
}
use mathlib.Core.Path.{subst}
use os_tasks.ReadLine.{newline}
use os_tasks.LineList.{FileLine, file_line}

-- The table of the text `xs` at position `p`, in a line that began at `start`: a line ends at each
-- line break and at the end.
unfoldable pub table_from : (start p : ℕ) → List ℕ → List FileLine
table_from start p [] = file_line start (p - start) ∷ []
table_from start p (x ∷ xs) =
    if x == newline
    then file_line start (p - start) ∷ table_from (p + 1) (p + 1) xs
    else table_from start (p + 1) xs

-- The bytes of a line.
abbrev pub slice : List ℕ → FileLine → List ℕ
slice text l = take l.len (drop l.offset text)

-- The texts with a line break between each two.
abbrev pub join_lines : List (List ℕ) → List ℕ
join_lines [] = []
join_lines (l ∷ []) = l
join_lines (l ∷ k ∷ ls) = l ++ (newline ∷ join_lines (k ∷ ls))

abbrev pub NoBreak : List ℕ → Type 0
NoBreak [] = Unit
NoBreak (x ∷ xs) = ((x == newline) ≡ false) × NoBreak xs

abbrev pub AllNoBreak : List (List ℕ) → Type 0
AllNoBreak [] = Unit
AllNoBreak (l ∷ ls) = NoBreak l × AllNoBreak ls

-- `ls` are the lines of the text.
abbrev pub AreLines : List (List ℕ) → List ℕ → Type 0
AreLines ls text = (join_lines ls ≡ text) × AllNoBreak ls

slice_lem :
    (text pre cur xs : List ℕ) (s n : ℕ)
    → text ≡ pre ++ (cur ++ xs)
    → s ≡ length pre
    → n ≡ length cur
    → slice text (file_line s n) ≡ cur
slice_lem text pre cur xs s n e f g =
    rw (e, f, g, drop-append_length pre (cur ++ xs)) (take-append_length cur xs)

join_lines-cons :
    (l k : List ℕ) (ls rest : List (List ℕ))
    → rest ≡ k ∷ ls
    → join_lines (l ∷ rest) ≡ l ++ (newline ∷ join_lines rest)
join_lines-cons l k ls rest e = rw e refl

table_from-nonempty :
    (start p : ℕ) (xs : List ℕ)
    → (k : FileLine) × (ls : List FileLine) × (table_from start p xs ≡ k ∷ ls)
unfolding table_from
table_from-nonempty start p [] = (file_line start (p - start), [], refl)
table_from-nonempty start p (x ∷ xs) = elim (Bool-cases (x == newline)) [
  | inl e ↦ (file_line start (p - start), table_from (p + 1) (p + 1) xs, rw e)
  | inr e ↦ let (k, ls, f) = table_from-nonempty start (p + 1) xs in (k, ls, rw e f)
]

NoBreak-snoc :
    (xs : List ℕ) (x : ℕ) → NoBreak xs → (x == newline) ≡ false → NoBreak (xs ++ (x ∷ []))
NoBreak-snoc [] x h e = (e, tt)
NoBreak-snoc (y ∷ xs) x h e = (h.0, NoBreak-snoc xs x h.1 e)

is_newline : (x : ℕ) → (x == newline) ≡ true → x ≡ newline
is_newline x e = ground arith

lines_from :
    (text pre cur xs : List ℕ) (start p : ℕ)
    → text ≡ pre ++ (cur ++ xs)
    → start ≡ length pre
    → p ≡ length pre + length cur
    → NoBreak cur
    → AreLines (map (slice text) (table_from start p xs)) (cur ++ xs)
unfolding table_from
lines_from text pre cur [] start p e f g h =
    let l = slice_lem text pre cur [] start (p - start) e f (omega arith) in
    (l ∙ sym (append-nil cur), (subst NoBreak (sym l) h, tt))
lines_from text pre cur (x ∷ xs) start p e f g h = elim (Bool-cases (x == newline)) [
  | inl t ↦
      let l = slice_lem text pre cur (x ∷ xs) start (p - start) e f (omega arith) in
      let (joined, clean) =
        lines_from text (pre ++ (cur ++ (x ∷ []))) [] xs (p + 1) (p + 1)
          (e ∙ rw (append_assoc pre (cur ++ (x ∷ [])) xs, append_assoc cur (x ∷ []) xs) refl)
          (omega (arith, length-append pre (cur ++ (x ∷ [])), length-append cur (x ∷ [])))
          (omega (arith, length-append pre (cur ++ (x ∷ [])), length-append cur (x ∷ []))) tt in
      let (k, ls, more) = table_from-nonempty (p + 1) (p + 1) xs in
      rw t (
        join_lines-cons (slice text (file_line start (p - start))) (slice text k)
              (map (slice text) ls) (map (slice text) (table_from (p + 1) (p + 1) xs))
              (ap (map (slice text)) more)
            ∙ ap
                (λ c.
                  c ++ (newline ∷ join_lines (map (slice text) (table_from (p + 1) (p + 1) xs))))
                l
            ∙ ap (λ r. cur ++ (newline ∷ r)) joined
            ∙ ap (λ b. cur ++ (b ∷ xs)) (sym (is_newline x t)),
        (subst NoBreak (sym l) h, clean),
      )
  | inr t ↦ rw t (
      subst (λ all. AreLines (map (slice text) (table_from start (p + 1) xs)) all)
        (append_assoc cur (x ∷ []) xs)
        (lines_from text pre (cur ++ (x ∷ [])) xs start (p + 1)
          (e ∙ ap (λ l. pre ++ l) (sym (append_assoc cur (x ∷ []) xs))) f
          (omega (arith, length-append cur (x ∷ []))) (NoBreak-snoc cur x h t)))
]

-- The table of a whole text: its lines, joined by line breaks, are the text, and no line has a line
-- break in it.
pub table_from-lines : (text : List ℕ) → AreLines (map (slice text) (table_from 0 0 text)) text
table_from-lines text = lines_from text [] [] text 0 0 refl refl refl tt
