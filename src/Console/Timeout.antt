-- ===== src/Console/Timeout.antt =====
-- What the program of 5,6. File prints when no number is entered in time.
use os_tasks.Prelude.{
  concat, ℕ, zero, suc, ◌+◌, ◌<◌, ◌≡◌, refl, sym, ap, ◌∙◌, Bool, true, Option, none, some, List, [],
  ◌∷◌, ◌++◌, map, arith, length, drop, get_elem?,
}
use mathlib.Core.Path.{subst}
use os_tasks.RoundBuffer.{Received}
use os_tasks.LineList.{FileLine, Node, node, LineList, init_list}
use os_tasks.LineList.Segments.{Seg}
use os_tasks.LineList.Linked.{whole}
use os_tasks.LineList.Freeing.{Seg-length}
use os_tasks.FileLines.{c_string, scan_file, Printing, print_line, print_lines}
use os_tasks.FileLines.Table.{table_from, slice, AreLines}
use os_tasks.FileLines.Scanning.{ReadsFile, scan_file_lem}
use os_tasks.FileLines.Showing.{AllNonempty, Shows, print_line_lem}
use os_tasks.Console.{Parsed, quit, shown, input_timeout, handle_input, file_printer}
use os_tasks.Console.Numbers.{Within, table-Within}

-- The pieces of all lines, one after the other.
abbrev pub all_pieces : List (List (List ℕ)) → List (List ℕ)
all_pieces [] = []
all_pieces (p ∷ ps) = p ++ all_pieces ps

-- No piece of any line is empty.
abbrev pub NoneEmpty : List (List (List ℕ)) → Type 0
NoneEmpty [] = Unit
NoneEmpty (p ∷ ps) = AllNonempty p × NoneEmpty ps

map-append_strings :
    (xs ys : List (List ℕ)) → map c_string (xs ++ ys) ≡ map c_string xs ++ map c_string ys
map-append_strings [] ys = refl
map-append_strings (x ∷ xs) ys = ap (λ l. c_string x ∷ l) (map-append_strings xs ys)

module _ (text : List ℕ) (reads : ℕ → List Printing) where
  print_lines_next :
      (fuel a : ℕ) (heap : List Node) (n : Node) (strings more : List (List ℕ))
      → get_elem? heap a ≡ some n
      → print_line reads n.line ≡ some (true, strings)
      → print_lines fuel reads heap n.next ≡ some (true, more)
      → print_lines (suc fuel) reads heap (some a) ≡ some (true, strings ++ more)
  unfolding print_lines
  print_lines_next fuel a heap n strings more at run run2 = rw (at, run, run2)

  abbrev PrintsAll : ℕ → List Node → Option ℕ → List FileLine → Type 0
  PrintsAll fuel heap p ts =
      (pieces : List (List (List ℕ))) × (print_lines fuel reads heap p
        ≡ some (true, map c_string (all_pieces pieces)))
      × (map concat pieces ≡ map (slice text) ts)
      × NoneEmpty pieces

  print_lines-Seg :
      (fuel : ℕ) (heap : List Node) (from lim : ℕ) (ts : List FileLine) (p : Option ℕ)
      → ((q : ℕ) → Shows (reads q) (drop q text))
      → Seg heap from lim ts p none
      → Within (length text) ts
      → length ts < fuel
      → PrintsAll fuel heap p ts
  unfolding print_lines
  print_lines-Seg zero heap from lim ts p delivers s w h = absurd (omega arith)
  print_lines-Seg (suc fuel) heap from lim [] p delivers e w h = ([], rw e refl, refl, tt)
  print_lines-Seg (suc fuel) heap from lim (t ∷ ts) p delivers (a, next, e, at, f, l, s) w h =
      let (ps, run, joined, full) = print_line_lem reads text t (w 0) (delivers t.offset) in
      let (rest, run2, joined2, full2) =
        print_lines-Seg fuel heap (suc a) lim ts next delivers s (λ n. w (suc n)) (omega arith) in
      (
        ps ∷ rest,
        rw e (
            print_lines_next fuel a heap (node t next) (map c_string ps)
              (map c_string (all_pieces rest)) at run run2
            ∙ ap (λ l. some (true, l)) (sym (map-append_strings ps (all_pieces rest)))),
        ap (λ l. l ∷ map concat rest) joined ∙ ap (λ l. slice text t ∷ l) joined2,
        (full, full2),
      )

  timeout_reply :
      (strtol : List ℕ → Parsed) (heap : List Node) (list : LineList) (strings : List (List ℕ))
      → print_lines (suc (length heap)) reads heap list.head ≡ some (true, strings)
      → handle_input strtol (file_printer reads) heap list input_timeout
        ≡ some (quit 0 (shown strings ∷ []))
  unfolding handle_input file_printer
  timeout_reply strtol heap list strings run = rw run

-- If every node can be allocated, the scan's rounds read the whole file, `read` delivers what the
-- file holds from any position on, in any pieces, and `puts` succeeds, then `scan_file` succeeds,
-- and at a time-out `handle_input` leaves the loop with code 0 after it has given to `puts` the
-- pieces of each line in order, each piece up to its first 0 byte. Joined, the pieces of a line are
-- the line, and the lines joined by line breaks are the file. No piece is empty: an empty line has
-- no piece, so nothing is printed for it.
pub timeout_prints :
    (malloc : ℕ → Bool) (allocates : (n : ℕ) → malloc n ≡ true) (rounds : List (ℕ × Received))
    (text : List ℕ) (reads : ℕ → List Printing) (strtol : List ℕ → Parsed)
    → ReadsFile 0 rounds text
    → ((q : ℕ) → Shows (reads q) (drop q text))
    → (list : LineList) × (heap : List Node) × (pieces : List (List (List ℕ))) × (scan_file malloc
          rounds init_list []
        ≡ some (true, list, heap))
      × (handle_input strtol (file_printer reads) heap list input_timeout
          ≡ some (quit 0 (shown (map c_string (all_pieces pieces)) ∷ [])))
      × NoneEmpty pieces
      × AreLines (map concat pieces) text
timeout_prints malloc allocates rounds text reads strtol r delivers =
    let (list, heap, run, h, lines) = scan_file_lem malloc allocates rounds text r in
    let ts = table_from 0 0 text in
    let s = whole heap list ts h in
    let within =
      subst (λ b. Within b ts) (let e : 0 + length text ≡ length text = omega arith in e)
        (table-Within 0 0 text (omega arith)) in
    let (pieces, all, same, full) =
      print_lines-Seg text reads (suc (length heap)) heap 0 (length heap) ts list.head delivers s
        within (omega (arith, Seg-length heap 0 (length heap) ts list.head none s (omega arith))) in
    (
      list,
      heap,
      pieces,
      run,
      timeout_reply text reads strtol heap list (map c_string (all_pieces pieces)) all,
      full,
      subst (λ l. AreLines l text) (sym same) lines,
    )
