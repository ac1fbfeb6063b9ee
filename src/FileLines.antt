-- ===== src/FileLines.antt =====
-- 5,6. File/main.c: the table of a file's lines, and printing them. `malloc n` says whether the node
-- with address n can be allocated. A round of the scan is the position that `lseek` gives and what
-- `read` delivers there. `none` is the use of a null pointer, or the end of the given results.
pub mod Table
pub mod Scanning
pub mod Showing
mod Tests
use os_tasks.Prelude.{
  ℕ, zero, suc, ◌+◌, ◌-◌, Bool, true, false, not, ◌||◌, Option, none, some, ◌>>=◌, List, [], ◌∷◌,
  ◌++◌, ◌==◌, ltb, if◌then◌else◌, length, take, get_elem?, ℤ, pos, negsuc,
}
use os_tasks.RoundBuffer.{Received, received, read_failed, Errno}
use os_tasks.ReadLine.{newline}
use os_tasks.LineList.{FileLine, file_line, Node, LineList, init_list, add_line}

-- The local variables of `scan_file`, with the list: `curr.len` is set before each use.
pub record Scan : Type 0 where
  pub heap : List Node
  pub table : LineList
  pub offset : ℕ
  pub new_line : Bool

abbrev pub scan_start : List Node → LineList → Scan
scan_start heap table = record { heap = heap; table = table; offset = 0; new_line = true }

-- The line that ends at `p`.
unfoldable pub end_line : (malloc : ℕ → Bool) (p : ℕ) → Scan → Option (Bool × Scan)
end_line malloc p s =
    add_line (malloc (length s.heap)) s.table (file_line s.offset (p - s.offset)) s.heap
    >>= λ (added, table, heap).
        some (added, record s { heap = heap; table = table; new_line = true })

-- The body of the inner loop for the byte `b` at the file's position `p`; false where the scan
-- fails.
unfoldable pub scan_byte : (malloc : ℕ → Bool) (p b : ℕ) → Scan → Option (Bool × Scan)
scan_byte malloc p b s =
    let s = (if s.new_line then record s { offset = p; new_line = false } else s) in
    if b == newline then end_line malloc p s else some (true, s)

-- The inner loop, over the bytes of `buf`, from the position `p` on.
unfoldable pub scan_bytes :
    (malloc : ℕ → Bool) (p : ℕ) (bytes : List ℕ) → Scan → Option (Bool × Scan)
scan_bytes malloc p [] s = some (true, s)
scan_bytes malloc p (b ∷ bytes) s = scan_byte malloc p b s >>= λ (more, s'). elim more [
  | true ↦ scan_bytes malloc (p + 1) bytes s'
  | false ↦ some (false, s')
]

-- The outer loop. At the end of the file it scans one line break more.
unfoldable pub scan_rounds : (malloc : ℕ → Bool) → List (ℕ × Received) → Scan → Option (Bool × Scan)
scan_rounds malloc [] s = none
scan_rounds malloc ((p, read_failed err) ∷ rounds) s = some (false, s)
scan_rounds malloc ((p, received []) ∷ rounds) s = scan_bytes malloc p (newline ∷ []) s
scan_rounds malloc ((p, received (x ∷ xs)) ∷ rounds) s =
    scan_bytes malloc p (x ∷ xs) s >>= λ (more, s'). elim more [
      | true ↦ scan_rounds malloc rounds s'
      | false ↦ some (false, s')
    ]

unfoldable pub scan_file :
    (malloc : ℕ → Bool)
    → List (ℕ × Received)
    → LineList
    → List Node
    → Option (Bool × LineList × List Node)
scan_file malloc rounds list heap =
    scan_rounds malloc rounds (scan_start heap list) >>= λ (ok, s). some (ok, s.table, s.heap)

-- The bytes of a C string: up to the first 0.
abbrev pub c_string : List ℕ → List ℕ
c_string [] = []
c_string (x ∷ xs) = let rest = c_string xs in if x == 0 then [] else x ∷ rest

-- A round of `print_line`: what `read` delivers, and whether `puts` succeeds.
pub record Printing : Type 0 where
  pub bytes : Received
  pub put : Bool

-- The loop of `print_line` with `count_left` bytes to print, after `lseek`; with the strings that were
-- given to `puts`.
unfoldable pub print_rounds : List Printing → (count_left : ℕ) → Option (Bool × List (List ℕ))
print_rounds [] count_left = if count_left == 0 then some (true, []) else none
print_rounds (r ∷ rounds) count_left = if count_left == 0 then some (true, []) else elim r.bytes [
  | read_failed err ↦ some (false, [])
  | received xs ↦
      let cnt = (if ltb (length xs) count_left then length xs else count_left) in
      let s = c_string (take cnt xs) in
      let rest = print_rounds rounds (count_left - cnt) in
      if r.put then (rest >>= λ (ok, strings). some (ok, s ∷ strings)) else some (false, s ∷ [])
]

-- `rounds` gives the rounds after `lseek` to a position.
unfoldable pub print_line : (rounds : ℕ → List Printing) → FileLine → Option (Bool × List (List ℕ))
print_line rounds line = print_rounds (rounds line.offset) line.len

-- The loop of `print_lines`, on fuel above the number of lines.
unfoldable pub print_lines :
    ℕ → (rounds : ℕ → List Printing) → List Node → (n : Option ℕ) → Option (Bool × List (List ℕ))
print_lines zero rounds heap n = none
print_lines (suc fuel) rounds heap none = some (true, [])
print_lines (suc fuel) rounds heap (some a) = get_elem? heap a >>= λ node.
    print_line rounds node.line >>= λ (ok, strings). elim ok [
      | false ↦ some (false, strings)
      | true ↦ print_lines fuel rounds heap node.next >>= λ (ok, more). some (ok, strings ++ more)
    ]
