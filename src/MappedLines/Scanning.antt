-- ===== src/MappedLines/Scanning.antt =====
-- The scan of the mapped file makes the table of the other program, without its last line.
use os_tasks.Prelude.{
  ℕ, suc, ◌+◌, ◌-◌, ◌≡◌, refl, sym, ap, ◌∙◌, Bool, true, false, some, List, [], ◌∷◌, ◌++◌, ◌==◌,
  length, drop, get_elem?, append_assoc, append-nil, Bool-cases, inl, inr,
}
use os_tasks.Prelude.Updates.{get_elem?-drop, drop_next}
use mathlib.Core.Path.{subst}
use os_tasks.ReadLine.{newline}
use os_tasks.LineList.{FileLine, file_line, Node, LineList, init_list, add_line}
use os_tasks.LineList.Linked.{Holds, add_line_lem}
use os_tasks.FileLines.Table.{table_from}
use os_tasks.MappedLines.{breaks_at, scan_mapped, scan_mapped_file}

module _ (malloc : ℕ → Bool) (allocates : (n : ℕ) → malloc n ≡ true) (ptr : List ℕ) where
  module _ (n i b offset : ℕ) (list : LineList) (heap : List Node)
      (at : get_elem? ptr i ≡ some b) where
    breaks_at_lem : (t : Bool) → (b == newline) ≡ t → breaks_at ptr i ≡ some t
    unfolding breaks_at
    breaks_at_lem t e = rw at (ap some e)

    other_byte :
        (b == newline) ≡ false
        → scan_mapped malloc (suc n) i ptr offset list heap
          ≡ scan_mapped malloc n (i + 1) ptr offset list heap
    unfolding scan_mapped
    other_byte e = rw (breaks_at_lem false e)

    line_break :
        (list' : LineList) (heap' : List Node)
        → (b == newline) ≡ true
        → add_line true list (file_line offset (i - offset)) heap ≡ some (true, list', heap')
        → scan_mapped malloc (suc n) i ptr offset list heap
          ≡ scan_mapped malloc n (i + 1) ptr (i + 1) list' heap'
    unfolding scan_mapped
    line_break list' heap' e run = rw (breaks_at_lem true e, allocates (length heap), run)

  abbrev Mapped : (n i offset : ℕ) (xs : List ℕ) → LineList → List Node → List FileLine → Type 0
  Mapped n i offset xs list heap ts =
      (list' : LineList) × (heap' : List Node) × (cs : List FileLine) × (l : FileLine)
      × (scan_mapped malloc n i ptr offset list heap ≡ some (true, list', heap'))
      × Holds heap' list' (ts ++ cs)
      × (table_from offset i xs ≡ cs ++ (l ∷ []))

  scan_mapped_lem :
      (xs : List ℕ) (i offset : ℕ) (list : LineList) (heap : List Node) (ts : List FileLine)
      → drop i ptr ≡ xs
      → Holds heap list ts
      → Mapped (length xs) i offset xs list heap ts
  unfolding scan_mapped table_from
  scan_mapped_lem [] i offset list heap ts e h = (
    list,
    heap,
    [],
    file_line offset (i - offset),
    refl,
    subst (Holds heap list) (sym (append-nil ts)) h,
    refl,
  )
  scan_mapped_lem (x ∷ xs) i offset list heap ts e h =
      let at = get_elem?-drop ptr i x xs e in
      let next = drop_next ptr i x xs e in
      elim (Bool-cases (x == newline)) [
        | inr f ↦
            let (list', heap', cs, l, run, h', table) =
              scan_mapped_lem xs (i + 1) offset list heap ts next h in
            (
              list',
              heap',
              cs,
              l,
              other_byte (length xs) i x offset list heap at f ∙ run,
              h',
              rw f table,
            )
        | inl t ↦
            let k = file_line offset (i - offset) in
            let (list1, heap1, added, h1) = add_line_lem heap list ts k h in
            let (list', heap', cs, l, run, h', table) =
              scan_mapped_lem xs (i + 1) (i + 1) list1 heap1 (ts ++ (k ∷ [])) next h1 in
            (
              list',
              heap',
              k ∷ cs,
              l,
              line_break (length xs) i x offset list heap at list1 heap1 t added ∙ run,
              subst (Holds heap' list') (append_assoc ts (k ∷ []) cs) h',
              rw t (ap (λ r. k ∷ r) table),
            )
      ]

  -- If every node can be allocated, the scan of a whole mapped file into an empty list ends and
  -- succeeds, and its list holds the table that the program of 5,6. File makes of the same file,
  -- without its last line: what follows the last line break is in no line.
  pub scan_mapped_file_lem :
      (list : LineList) × (heap : List Node) × (ts : List FileLine) × (l : FileLine)
      × (scan_mapped_file malloc ptr (length ptr) init_list [] ≡ some (true, list, heap))
      × Holds heap list ts
      × (table_from 0 0 ptr ≡ ts ++ (l ∷ []))
  unfolding scan_mapped_file
  scan_mapped_file_lem = scan_mapped_lem ptr 0 0 init_list [] [] refl refl
