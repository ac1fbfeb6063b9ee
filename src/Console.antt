-- ===== src/Console.antt =====
-- The dialogue of 5,6. File/main.c and 7. mmap/main.c, which is the same but for how a line is
-- printed. `none` is the use of a null pointer, an access outside of an array, or the end of the fuel
-- or of the given results.
pub mod Numbers
pub mod Timeout
mod Tests
use os_tasks.Prelude.{
  ℕ, zero, suc, ◌+◌, ◌-◌, Bool, true, false, not, ◌&&◌, ◌||◌, Option, none, some, ◌>>=◌, List, [],
  ◌∷◌, ◌++◌, ◌==◌, if◌then◌else◌, length, take, get_or, get_elem?, ℤ, pos, negsuc,
}
use os_tasks.RoundBuffer.{Received}
use os_tasks.ReadLine.{
  File, Round, Line, line, rl_fail, rl_eof, rl_timeout, ends_line, read_line, make_buffered_file,
}
use os_tasks.LineList.{FileLine, Node, LineList, init_list, get_node}
use os_tasks.FileLines.{c_string, scan_file, Printing, print_line, print_lines}
use os_tasks.MappedLines.{
  Mapping, load_file, scan_mapped_file, Output, print_mapped_line, print_mapped_lines,
}

-- What `strtol` gives: the value, what follows the number, and whether `errno` is set.
pub record Parsed : Type 0 where
  pub value : ℤ
  pub rest : List ℕ
  pub error : Bool

-- `none` is the result 0.
unfoldable pub str_to_long : (strtol : List ℕ → Parsed) (str : List ℕ) → Option ℤ
str_to_long strtol str =
    let r = strtol (c_string str) in
    if not (get_or r.rest 0 0 == 0) || r.error then none else some r.value

-- What `input_valid_line` gives: the line without its line break, or the reader's error.
pub data Input : Type 0 where
  entered : List ℕ → Input
  input_fail input_eof input_timeout : Input

-- The two loops of `input_valid_line`: in the inner one, or at the start of the outer one with
-- `too_long` 0.
pub input_loop :
    ℕ → (too_long : Bool) → List Round → File → (size : ℕ) → Option (Input × List Round × File)
input_loop zero too_long rounds f size = none
input_loop (suc fuel) too_long rounds f size = read_line true rounds f size >>= λ (l, rounds', f').
    elim l [
      | rl_fail ↦ some (input_fail, rounds', f')
      | rl_eof ↦ some (input_eof, rounds', f')
      | rl_timeout ↦ some (input_timeout, rounds', f')
      | line [] ↦ none
      | line (x ∷ []) ↦ input_loop fuel too_long rounds' f' size
      | line (x ∷ y ∷ s) ↦ elim (ends_line (x ∷ y ∷ s)) [
        | false ↦ input_loop fuel true rounds' f' size
        | true ↦ elim too_long [
          | true ↦ input_loop fuel false rounds' f' size
          | false ↦ some (entered (take (length (y ∷ s)) (x ∷ y ∷ s)), rounds', f')
        ]
      ]
    ]

pub input_valid_line :
    (fuel : ℕ) → List Round → File → (size : ℕ) → Option (Input × List Round × File)
input_valid_line fuel rounds f size = input_loop fuel false rounds f size

-- How the program prints a line, and all lines from a node on.
pub record Printer : Type 0 where
  pub print : FileLine → Option (Bool × List (List ℕ))
  pub print_all : List Node → Option ℕ → Option (Bool × List (List ℕ))

-- What is said, or printed.
pub data Reply : Type 0 where
  not_a_number not_positive no_such_line : Reply
  shown : List (List ℕ) → Reply

-- Whether the dialogue goes on, or ends with `err`.
pub data Outcome : Type 0 where
  go_on : List Reply → Outcome
  quit : (err : ℕ) → List Reply → Outcome

-- The rest of the loop's body, for the number `num`.
unfoldable pub handle_number : Printer → List Node → LineList → ℤ → Option Outcome
handle_number p heap table (negsuc n) = some (go_on (not_positive ∷ []))
handle_number p heap table (pos zero) = some (quit 0 [])
handle_number p heap table (pos (suc n)) = get_node heap table.head n >>= λ q. elim q [
  | none ↦ some (go_on (no_such_line ∷ []))
  | some a ↦ get_elem? heap a >>= λ node. p.print node.line >>= λ (ok, strings).
      some (if ok then go_on (shown strings ∷ []) else quit 1 (shown strings ∷ []))
]

-- The body of the loop for what was entered.
unfoldable pub handle_input :
    (strtol : List ℕ → Parsed) → Printer → List Node → LineList → Input → Option Outcome
handle_input strtol p heap table input_eof = some (quit 0 [])
handle_input strtol p heap table input_fail = some (quit 1 [])
handle_input strtol p heap table input_timeout =
    p.print_all heap table.head >>= λ (ok, strings). some (quit 0 (shown strings ∷ []))
handle_input strtol p heap table (entered str) = elim (str_to_long strtol str) [
  | none ↦ some (go_on (not_a_number ∷ []))
  | some num ↦ handle_number p heap table num
]

-- The loop of `main`, on fuel, which each line of input uses too: `err` at its end, and what was said.
pub dialogue :
    ℕ
    → (strtol : List ℕ → Parsed) → Printer
    → List Node
    → LineList
    → List Round
    → File
    → Option (ℕ × List Reply)
dialogue zero strtol p heap table rounds f = none
dialogue (suc fuel) strtol p heap table rounds f =
    input_valid_line fuel rounds f 22 >>= λ (input, rounds', f').
    handle_input strtol p heap table input >>= λ o. elim o [
      | quit err said ↦ some (err, said)
      | go_on said ↦
          dialogue fuel strtol p heap table rounds' f' >>= λ (err, more). some (err, said ++ more)
    ]

-- What the system gives to either `main`: the calls of `make_buffered_file`, the input, `strtol` and
-- `malloc`.
pub record Session : Type 0 where
  pub buf : Option (List ℕ)
  pub res_allocated : Bool
  pub f_allocated : Bool
  pub rounds : List Round
  pub strtol : List ℕ → Parsed
  pub malloc : ℕ → Bool

-- From the scan on. A failed scan leaves `err` 0; a reader that could not be made is used all the
-- same, which is the use of a null pointer.
pub serve_lines :
    (fuel : ℕ) → Session → Printer → Option (Bool × LineList × List Node) → Option (ℕ × List Reply)
serve_lines fuel env p scanned = scanned >>= λ (ok, table, heap).
    if ok
    then (make_buffered_file env.buf env.res_allocated env.f_allocated (pos 0) 1024 >>= λ f.
        dialogue fuel env.strtol p heap table env.rounds f)
    else some (0, [])

-- `print_line` and `print_lines` of 5,6. File.
pub file_printer : (reads : ℕ → List Printing) → Printer
file_printer reads = record {
  print = print_line reads;
  print_all = λ heap n. print_lines (suc (length heap)) reads heap n;
}

-- `main` of 5,6. File.
pub file_main :
    (fuel argc : ℕ) (opened closed : Bool)
    → Session
    → (scan : List (ℕ × Received)) (reads : ℕ → List Printing) → Option (ℕ × List Reply)
file_main fuel argc opened closed env scan reads =
    if not (argc == 2) || not opened
    then some (1, [])
    else (serve_lines fuel env (file_printer reads) (scan_file env.malloc scan init_list [])
        >>= λ (err, said). some (if closed then err else 1, said))

-- `main` of 7. mmap.
pub mapped_main :
    (fuel argc : ℕ) (opened : Bool) (size : ℕ)
    → Mapping
    → Session
    → (out : FileLine → Output) → Option (ℕ × List Reply)
mapped_main fuel argc opened size m env out =
    if not (argc == 2) then some (1, []) else elim (load_file opened size m) [
      | none ↦ some (1, [])
      | some (ptr, size) ↦
          serve_lines fuel env
            (record {
              print = print_mapped_line out ptr;
              print_all = λ heap n. print_mapped_lines (suc (length heap)) out ptr heap n;
            })
            (scan_mapped_file env.malloc ptr size init_list [])
    ]
