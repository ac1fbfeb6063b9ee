-- ===== src/MappedLines.antt =====
-- 7. mmap/main.c: the table of the lines of a file in memory, and printing them. `none` is an access
-- outside of the mapping, or the use of a null pointer.
pub mod Scanning
mod Tests
use os_tasks.Prelude.{
  ℕ, zero, suc, ◌+◌, ◌-◌, Bool, true, false, not, ◌||◌, Option, none, some, ◌>>=◌, List, [], ◌∷◌,
  ◌++◌, ◌==◌, ltb, leb, if◌then◌else◌, length, take, drop, get_elem?,
}
use os_tasks.ReadLine.{newline}
use os_tasks.LineList.{FileLine, file_line, Node, LineList, add_line}

-- What `mmap` gives: memory, NULL, or MAP_FAILED, which is another pointer.
pub data Mapping : Type 0 where
  mapped : List ℕ → Mapping
  null_pointer map_failed : Mapping

-- `none` is NULL; else the memory, of which there is none at MAP_FAILED, and the size.
pub load_file : (opened : Bool) (size : ℕ) → Mapping → Option (List ℕ × ℕ)
load_file opened size m =
    if opened
    then elim m [
      | mapped bytes ↦ some (bytes, size)
      | null_pointer ↦ none
      | map_failed ↦ some ([], size)
    ]
    else none

-- Whether `ptr[i]` is a line break.
unfoldable pub breaks_at : (ptr : List ℕ) (i : ℕ) → Option Bool
breaks_at ptr i = get_elem? ptr i >>= λ b. some (b == newline)

-- The loop of `scan_file`, with `n` rounds left, from `i` on, in a line that began at `offset`.
unfoldable pub scan_mapped :
    (malloc : ℕ → Bool) (n i : ℕ) (ptr : List ℕ) (offset : ℕ)
    → LineList
    → List Node
    → Option (Bool × LineList × List Node)
scan_mapped malloc zero i ptr offset list heap = some (true, list, heap)
scan_mapped malloc (suc n) i ptr offset list heap = breaks_at ptr i >>= λ end. elim end [
  | false ↦ scan_mapped malloc n (i + 1) ptr offset list heap
  | true ↦
      add_line (malloc (length heap)) list (file_line offset (i - offset)) heap
      >>= λ (added, list', heap'). elim added [
        | false ↦ some (false, list', heap')
        | true ↦ scan_mapped malloc n (i + 1) ptr (i + 1) list' heap'
      ]
]

unfoldable pub scan_mapped_file :
    (malloc : ℕ → Bool) (ptr : List ℕ) (size : ℕ)
    → LineList
    → List Node
    → Option (Bool × LineList × List Node)
scan_mapped_file malloc ptr size list heap = scan_mapped malloc size 0 ptr 0 list heap

-- What `fwrite` and `printf` give: the bytes written, and whether the line break was printed.
pub record Output : Type 0 where
  pub written : ℕ
  pub broken : Bool

-- The result with the bytes that were given to `fwrite`.
pub print_mapped_line :
    (out : FileLine → Output) (ptr : List ℕ) → FileLine → Option (Bool × List (List ℕ))
print_mapped_line out ptr line =
    if leb (line.offset + line.len) (length ptr)
    then some (
      not (ltb (out line).written line.len || not (out line).broken),
      take line.len (drop line.offset ptr) ∷ [],
    )
    else none

-- The loop of `print_lines`, on fuel above the number of lines.
pub print_mapped_lines :
    ℕ
    → (out : FileLine → Output) (ptr : List ℕ) → List Node
    → (n : Option ℕ) → Option (Bool × List (List ℕ))
print_mapped_lines zero out ptr heap n = none
print_mapped_lines (suc fuel) out ptr heap none = some (true, [])
print_mapped_lines (suc fuel) out ptr heap (some a) = get_elem? heap a >>= λ node.
    print_mapped_line out ptr node.line >>= λ (ok, strings). elim ok [
      | false ↦ some (false, strings)
      | true ↦ print_mapped_lines fuel out ptr heap node.next >>= λ (ok, more).
          some (ok, strings ++ more)
    ]
