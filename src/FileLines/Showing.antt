-- ===== src/FileLines/Showing.antt =====
-- `print_line` prints a line's bytes, in the pieces that `read` delivers.
use os_tasks.Prelude.{
  concat, ne_zero, ℕ, zero, suc, ◌+◌, ◌-◌, ◌≤◌, ◌<◌, ◌≡◌, ◌≢◌, refl, sym, ap, ◌∙◌, Bool, true, some,
  List, [], ◌∷◌, ◌++◌, map, arith, ltb, if◌then◌else◌, length, take, drop, take-append, take-all,
  length-take, length-drop, length-append,
}
use os_tasks.RoundBuffer.{received}
use os_tasks.LineList.{FileLine}
use os_tasks.FileLines.Table.{slice}
use os_tasks.FileLines.{Printing, c_string, print_rounds, print_line}

-- The rounds deliver the bytes `xs` of the file in pieces that are not empty, and every `puts`
-- succeeds.
abbrev pub Shows : List Printing → List ℕ → Type 0
Shows [] xs = xs ≡ []
Shows (r ∷ rounds) xs =
    (r.put ≡ true)
    × ((y : ℕ) × (ys : List ℕ) × (zs : List ℕ) × (r.bytes ≡ received (y ∷ ys))
        × (xs ≡ (y ∷ ys) ++ zs)
        × Shows rounds zs)

abbrev pub AllNonempty : List (List ℕ) → Type 0
AllNonempty [] = Unit
AllNonempty (l ∷ ls) = (0 < length l) × AllNonempty ls

abbrev taken : (count : ℕ) → List ℕ → ℕ
taken count xs = if ltb (length xs) count then length xs else count

module _ (r : Printing) (rounds : List Printing) (count : ℕ) (xs : List ℕ) (h : count ≢ 0)
    (got : r.bytes ≡ received xs) (puts : r.put ≡ true) where
  print_rounds_next :
      (ok : Bool) (strings : List (List ℕ))
      → print_rounds rounds (count - taken count xs) ≡ some (ok, strings)
      → print_rounds (r ∷ rounds) count ≡ some (ok, c_string (take (taken count xs) xs) ∷ strings)
  unfolding print_rounds
  print_rounds_next ok strings e = rw (ne_zero count h, got, puts, e)

print_rounds_done : (rounds : List Printing) → print_rounds rounds 0 ≡ some (true, [])
unfolding print_rounds
print_rounds_done [] = refl
print_rounds_done (r ∷ rounds) = refl

take-taken : (count : ℕ) (xs : List ℕ) → take (taken count xs) xs ≡ take count xs
take-taken count xs = ground (arith, take-all count xs, take-all (length xs) xs)

taken_pos :
    (count : ℕ) (xs : List ℕ) → count ≢ 0 → 0 < length xs → 0 < length (take (taken count xs) xs)
taken_pos count xs h k = ground (arith, length-take (taken count xs) xs)

sub_taken : (count : ℕ) (xs : List ℕ) → count - taken count xs ≡ count - length xs
sub_taken count xs = ground arith

abbrev Printed : List Printing → ℕ → List ℕ → Type 0
Printed rounds count xs =
    (pieces : List (List ℕ)) × (print_rounds rounds count ≡ some (true, map c_string pieces))
    × (concat pieces ≡ take count xs)
    × AllNonempty pieces

print_rounds_lem :
    (rounds : List Printing) (count : ℕ) (xs : List ℕ)
    → Shows rounds xs
    → count ≤ length xs
    → Printed rounds count xs
print_rounds_lem rounds zero xs s h = ([], print_rounds_done rounds, refl, tt)
print_rounds_lem [] (suc n) xs e h = absurd (omega (arith, ap (λ (l : List ℕ). length l) e))
print_rounds_lem (r ∷ rounds) (suc n) xs (puts, (y, ys, zs, got, e, more)) h =
    let c = taken (suc n) (y ∷ ys) in
    let (pieces, run, joined, full) =
      print_rounds_lem rounds (suc n - c) zs more
        (ground (arith, ap (λ (l : List ℕ). length l) e, length-append (y ∷ ys) zs)) in
    (
      take c (y ∷ ys) ∷ pieces,
      print_rounds_next r rounds (suc n) (y ∷ ys) (λ f. omega arith) got puts true
          (map c_string pieces) run,
      ap (λ l. take c (y ∷ ys) ++ l) joined
          ∙ ap (λ l. l ++ take (suc n - c) zs) (take-taken (suc n) (y ∷ ys))
          ∙ ap (λ k. take (suc n) (y ∷ ys) ++ take k zs) (sub_taken (suc n) (y ∷ ys))
          ∙ sym (take-append (suc n) (y ∷ ys) zs)
          ∙ ap (take (suc n)) (sym e),
      (taken_pos (suc n) (y ∷ ys) (λ f. omega arith) (omega arith), full),
    )

-- If `read` delivers what the text holds from the line's offset on, in any pieces, and `puts`
-- succeeds, `print_line` ends and succeeds: it gives to `puts` one string for each piece, which
-- together are the line's bytes; `puts` prints a string to its first 0, and a line break.
pub print_line_lem :
    (rounds : ℕ → List Printing) (text : List ℕ) (l : FileLine)
    → l.offset + l.len ≤ length text
    → Shows (rounds l.offset) (drop l.offset text)
    → (pieces : List (List ℕ)) × (print_line rounds l ≡ some (true, map c_string pieces))
      × (concat pieces ≡ slice text l)
      × AllNonempty pieces
unfolding print_line
print_line_lem rounds text l h s =
    print_rounds_lem (rounds l.offset) l.len (drop l.offset text) s
      (omega (arith, length-drop l.offset text))
