-- ===== src/Console/Numbers.antt =====
-- What the program of 5,6. File answers to a number: the scan, the list and the printing together.
use os_tasks.Prelude.{
  concat, ℕ, zero, suc, ◌+◌, ◌-◌, ◌≤◌, ◌≡◌, ◌⊎◌, inl, inr, Bool, true, Option, none, some, List, [],
  ◌∷◌, map, arith, ◌==◌, length, drop, get_elem?, Bool-cases, pos,
}
use mathlib.Core.Path.{subst}
use os_tasks.RoundBuffer.{Received}
use os_tasks.ReadLine.{newline}
use os_tasks.LineList.{FileLine, file_line, Node, LineList, init_list, get_node}
use os_tasks.LineList.Linked.{Holds, get_node_lem}
use os_tasks.FileLines.{c_string, scan_file, Printing}
use os_tasks.FileLines.Table.{table_from, slice}
use os_tasks.FileLines.Scanning.{ReadsFile, scan_file_lem}
use os_tasks.FileLines.Showing.{Shows, print_line_lem}
use os_tasks.Console.{Printer, Outcome, go_on, no_such_line, shown, handle_number, file_printer}

-- The line, if there is one, does not reach over the bound.
abbrev pub Bound : (bound : ℕ) → Option FileLine → Type 0
Bound bound none = Unit
Bound bound (some k) = k.offset + k.len ≤ bound

abbrev pub Within : (bound : ℕ) → List FileLine → Type 0
Within bound ts = (n : ℕ) → Bound bound (get_elem? ts n)

Within-cons :
    (bound : ℕ) (k : FileLine) (ts : List FileLine)
    → k.offset + k.len ≤ bound
    → Within bound ts
    → Within bound (k ∷ ts)
Within-cons bound k ts h w zero = h
Within-cons bound k ts h w (suc n) = w n

pub table-Within :
    (start p : ℕ) (xs : List ℕ) → start ≤ p → Within (p + length xs) (table_from start p xs)
unfolding table_from
table-Within start p [] h =
    Within-cons (p + 0) (file_line start (p - start)) [] (omega arith) (λ n. tt)
table-Within start p (x ∷ xs) h =
    let end : p + 1 + length xs ≡ p + length (x ∷ xs) = omega arith in
    elim (Bool-cases (x == newline)) [
      | inl t ↦ rw t (
          Within-cons (p + length (x ∷ xs)) (file_line start (p - start))
            (table_from (p + 1) (p + 1) xs) (omega arith)
            (subst (λ b. Within b (table_from (p + 1) (p + 1) xs)) end
              (table-Within (p + 1) (p + 1) xs (omega arith))))
      | inr f ↦ rw f (
          subst (λ b. Within b (table_from start (p + 1) xs)) end
            (table-Within start (p + 1) xs (omega arith)))
    ]

module _ (p : Printer) (heap : List Node) (table : LineList) (n : ℕ) where
  no_line :
      get_node heap table.head n ≡ some none
      → handle_number p heap table (pos (suc n)) ≡ some (go_on (no_such_line ∷ []))
  unfolding handle_number
  no_line e = rw e

  some_line :
      (a : ℕ) (k : Node) (strings : List (List ℕ))
      → get_node heap table.head n ≡ some (some a)
      → get_elem? heap a ≡ some k
      → p.print k.line ≡ some (true, strings)
      → handle_number p heap table (pos (suc n)) ≡ some (go_on (shown strings ∷ []))
  unfolding handle_number
  some_line a k strings e at run = rw (e, at, run)

-- What the answer to the number n + 1 is, with the lines `ts` of the text.
abbrev pub Answers : (text : List ℕ) (ts : List FileLine) (n : ℕ) → Option Outcome → Type 0
Answers text ts n o =
    ((get_elem? ts n ≡ none) × (o ≡ some (go_on (no_such_line ∷ []))))
    ⊎ ((k : FileLine) × (pieces : List (List ℕ)) × (get_elem? ts n ≡ some k)
        × (o ≡ some (go_on (shown (map c_string pieces) ∷ [])))
        × (concat pieces ≡ slice text k))

module _ (heap : List Node) (table : LineList) (text : List ℕ) (ts : List FileLine)
    (reads : ℕ → List Printing) (h : Holds heap table ts)
    (delivers : (p : ℕ) → Shows (reads p) (drop p text)) (within : Within (length text) ts)
    (n : ℕ) where
  handle_number_lem :
      Answers text ts n (handle_number (file_printer reads) heap table (pos (suc n)))
  unfolding file_printer
  handle_number_lem = elim (get_node_lem heap table ts n h) [
    | inl (missing, e) ↦ inl (e, no_line (file_printer reads) heap table n missing)
    | inr (a, k, found, at, e) ↦
        let (pieces, run, joined, full) =
          print_line_lem reads text k.line (subst (Bound (length text)) e (within n))
            (delivers k.line.offset) in
        inr (
          k.line,
          pieces,
          e,
          some_line (file_printer reads) heap table n a k (map c_string pieces) found at run,
          joined,
        )
  ]

-- If every node can be allocated, the scan's rounds read the whole file, `read` delivers what the
-- file holds from any position on, in any pieces, and `puts` succeeds, then `scan_file` succeeds,
-- and to every positive number n + 1 the program answers that there is no such line if the file's
-- table of lines has no entry n, or else prints strings which stand for the bytes of that entry.
pub scan_file-Answers :
    (malloc : ℕ → Bool) (allocates : (n : ℕ) → malloc n ≡ true) (rounds : List (ℕ × Received))
    (text : List ℕ) (reads : ℕ → List Printing)
    → ReadsFile 0 rounds text
    → ((p : ℕ) → Shows (reads p) (drop p text))
    → (list : LineList) × (heap : List Node) × (scan_file malloc rounds init_list []
        ≡ some (true, list, heap))
      × ((n : ℕ)
          → Answers text
              (table_from 0 0 text)
              n
              (handle_number (file_printer reads) heap list (pos (suc n))))
scan_file-Answers malloc allocates rounds text reads r delivers =
    let (list, heap, run, h, lines) = scan_file_lem malloc allocates rounds text r in
    (
      list,
      heap,
      run,
      handle_number_lem heap list text (table_from 0 0 text) reads h delivers (
          subst (λ b. Within b (table_from 0 0 text))
            (let e : 0 + length text ≡ length text = omega arith in e)
            (table-Within 0 0 text (omega arith))),
    )
