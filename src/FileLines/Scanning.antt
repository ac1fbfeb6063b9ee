-- ===== src/FileLines/Scanning.antt =====
-- `scan_file` makes the table of the file's lines, in whatever pieces the file is read.
use os_tasks.Prelude.{
  ℕ, ◌+◌, ◌-◌, ◌≡◌, ◌⊎◌, refl, sym, ap, ◌∙◌, Bool, true, false, some, List, [], ◌∷◌, ◌++◌, map,
  arith, ◌==◌, if◌then◌else◌, length, append_assoc, append-nil, Bool-cases, inl, inr,
}
use mathlib.Core.Path.{subst}
use os_tasks.RoundBuffer.{Received, received}
use os_tasks.ReadLine.{newline}
use os_tasks.LineList.{FileLine, file_line, Node, LineList, init_list}
use os_tasks.LineList.Linked.{Holds, add_line_lem}
use os_tasks.FileLines.{Scan, scan_start, end_line, scan_byte, scan_bytes, scan_rounds, scan_file}
use os_tasks.FileLines.Table.{table_from, slice, AreLines, table_from-lines}

-- Where the line at hand begins, at the position `p`.
abbrev start_of : Scan → ℕ → ℕ
start_of s p = if s.new_line then p else s.offset

module _ (malloc : ℕ → Bool) (allocates : (n : ℕ) → malloc n ≡ true) where
  scan_byte_other :
      (p b : ℕ) (s : Scan)
      → (b == newline) ≡ false
      → scan_byte malloc p b s ≡ some (true, record s { offset = start_of s p; new_line = false })
  unfolding scan_byte
  scan_byte_other p b s e = elim (Bool-cases s.new_line) [ inl t ↦ rw (e, t) | inr f ↦ rw (e, f) ]

  end_line_lem :
      (p : ℕ) (s : Scan) (ts : List FileLine)
      → Holds s.heap s.table ts
      → (s' : Scan) × (end_line malloc p s ≡ some (true, s'))
        × Holds s'.heap s'.table (ts ++ (file_line s.offset (p - s.offset) ∷ []))
        × (s'.new_line ≡ true)
  unfolding end_line
  end_line_lem p s ts h =
      let (table, heap, run, h') =
        add_line_lem s.heap s.table ts (file_line s.offset (p - s.offset)) h in
      (
        record s { heap = heap; table = table; new_line = true },
        rw (allocates (length s.heap), run),
        h',
        refl,
      )

  scan_byte_break :
      (p b : ℕ) (s : Scan) (ts : List FileLine)
      → (b == newline) ≡ true
      → Holds s.heap s.table ts
      → (s' : Scan) × (scan_byte malloc p b s ≡ some (true, s'))
        × Holds s'.heap s'.table (ts ++ (file_line (start_of s p) (p - start_of s p) ∷ []))
        × (s'.new_line ≡ true)
  unfolding scan_byte end_line
  scan_byte_break p b s ts e h = elim (Bool-cases s.new_line) [
    | inl t ↦ rw (e, t) (end_line_lem p (record s { offset = p; new_line = false }) ts h)
    | inr f ↦ rw (e, f) (end_line_lem p s ts h)
  ]

  -- What a scan of the bytes `xs` leaves: their complete lines at the end of the table, and the start
  -- of the line at hand.
  abbrev Scanned : (p : ℕ) (xs : List ℕ) → Scan → List FileLine → Type 0
  Scanned p xs s ts =
      (s' : Scan) × (cs : List FileLine) × (scan_bytes malloc p xs s ≡ some (true, s'))
      × Holds s'.heap s'.table (ts ++ cs)
      × ((ys : List ℕ)
          → table_from (start_of s p) p (xs ++ ys)
            ≡ cs ++ table_from (start_of s' (p + length xs)) (p + length xs) ys)

  scan_bytes_next :
      (p b : ℕ) (xs : List ℕ) (s s' : Scan)
      → scan_byte malloc p b s ≡ some (true, s')
      → scan_bytes malloc p (b ∷ xs) s ≡ scan_bytes malloc (p + 1) xs s'
  unfolding scan_bytes
  scan_bytes_next p b xs s s' e = rw e

  scan_bytes_lem :
      (p : ℕ) (xs : List ℕ) (s : Scan) (ts : List FileLine)
      → Holds s.heap s.table ts
      → Scanned p xs s ts
  unfolding scan_bytes table_from
  scan_bytes_lem p [] s ts h = (
    s,
    [],
    refl,
    subst (Holds s.heap s.table) (sym (append-nil ts)) h,
    λ ys.
        ap (λ k. table_from (start_of s k) k ys)
          (let e : p ≡ p + length {A = ℕ} [] = omega arith in e),
  )
  scan_bytes_lem p (x ∷ xs) s ts h =
      let end : p + 1 + length xs ≡ p + length (x ∷ xs) = omega arith in
      elim (Bool-cases (x == newline)) [
        | inl t ↦
            let l = file_line (start_of s p) (p - start_of s p) in
            let (s1, run, h1, fresh) = scan_byte_break p x s ts t h in
            let (s2, cs, run2, h2, table) = scan_bytes_lem (p + 1) xs s1 (ts ++ (l ∷ [])) h1 in
            (
              s2,
              l ∷ cs,
              scan_bytes_next p x xs s s1 run ∙ run2,
              subst (Holds s2.heap s2.table) (append_assoc ts (l ∷ []) cs) h2,
              λ ys. rw t (
                  ap (λ r. l ∷ r)
                    (ap (λ b. table_from (if b then p + 1 else s1.offset) (p + 1) (xs ++ ys))
                        (sym fresh)
                      ∙ table ys
                      ∙ ap (λ k. cs ++ table_from (start_of s2 k) k ys) end)),
            )
        | inr f ↦
            let (s2, cs, run2, h2, table) =
              scan_bytes_lem (p + 1) xs (record s { offset = start_of s p; new_line = false }) ts
                h in
            (
              s2,
              cs,
              scan_bytes_next p x xs s (record s { offset = start_of s p; new_line = false })
                    (scan_byte_other p x s f)
                  ∙ run2,
              h2,
              λ ys. rw f (table ys ∙ ap (λ k. cs ++ table_from (start_of s2 k) k ys) end),
            )
      ]

-- The rounds read the file from the position `p` on, where it holds `xs`, to its end.
abbrev pub ReadsFile : ℕ → List (ℕ × Received) → List ℕ → Type 0
ReadsFile p [] xs = ⊥
ReadsFile p ((q, r) ∷ rounds) xs =
    (q ≡ p)
    × (((xs ≡ []) × (r ≡ received []))
        ⊎ ((y : ℕ) × (ys : List ℕ) × (zs : List ℕ) × (r ≡ received (y ∷ ys))
            × (xs ≡ (y ∷ ys) ++ zs)
            × ReadsFile (p + length (y ∷ ys)) rounds zs))

module _ (malloc : ℕ → Bool) (allocates : (n : ℕ) → malloc n ≡ true) where
  scan_rounds_next :
      (p y : ℕ) (ys : List ℕ) (rounds : List (ℕ × Received)) (s s' : Scan)
      → scan_bytes malloc p (y ∷ ys) s ≡ some (true, s')
      → scan_rounds malloc ((p, received (y ∷ ys)) ∷ rounds) s ≡ scan_rounds malloc rounds s'
  unfolding scan_rounds
  scan_rounds_next p y ys rounds s s' e = rw e

  abbrev Tabled :
      (p : ℕ) (rounds : List (ℕ × Received)) (xs : List ℕ) → Scan → List FileLine → Type 0
  Tabled p rounds xs s ts =
      (s' : Scan) × (scan_rounds malloc rounds s ≡ some (true, s'))
      × Holds s'.heap s'.table (ts ++ table_from (start_of s p) p xs)

  scan_rounds_end :
      (p : ℕ) (rounds : List (ℕ × Received)) (s : Scan) (ts : List FileLine)
      → Holds s.heap s.table ts
      → Tabled p ((p, received []) ∷ rounds) [] s ts
  unfolding scan_rounds scan_bytes table_from
  scan_rounds_end p rounds s ts h =
      let (s1, run, h1, fresh) = scan_byte_break malloc allocates p newline s ts refl h in
      (s1, rw run, h1)

  scan_rounds_lem :
      (p : ℕ) (rounds : List (ℕ × Received)) (xs : List ℕ) (s : Scan) (ts : List FileLine)
      → Holds s.heap s.table ts
      → ReadsFile p rounds xs
      → Tabled p rounds xs s ts
  scan_rounds_lem p [] xs s ts h r = absurd r
  scan_rounds_lem p ((q, bytes) ∷ rounds) xs s ts h (e, r) = elim r [
    | inl (none_left, got) ↦ rw (e, got, none_left) (scan_rounds_end p rounds s ts h)
    | inr (y, ys, zs, got, split, more) ↦
        let (s1, cs, run, h1, table) = scan_bytes_lem malloc allocates p (y ∷ ys) s ts h in
        let (s2, run2, h2) =
          scan_rounds_lem (p + length (y ∷ ys)) rounds zs s1 (ts ++ cs) h1 more in
        rw (e, got, split)
          (
            s2,
            scan_rounds_next p y ys rounds s s1 run ∙ run2,
            subst (Holds s2.heap s2.table)
                (append_assoc ts cs
                    (table_from (start_of s1 (p + length (y ∷ ys))) (p + length (y ∷ ys)) zs)
                  ∙ ap (λ l. ts ++ l) (sym (table zs)))
                h2,
          )
  ]

  -- If every node can be allocated, and the rounds read the whole file, in any pieces, `scan_file` into
  -- an empty list ends and succeeds: the list holds a table whose lines, joined by line breaks, are
  -- the file, and have no line break in them.
  pub scan_file_lem :
      (rounds : List (ℕ × Received)) (text : List ℕ)
      → ReadsFile 0 rounds text
      → (list : LineList) × (heap : List Node) × (scan_file malloc rounds init_list []
          ≡ some (true, list, heap))
        × Holds heap list (table_from 0 0 text)
        × AreLines (map (slice text) (table_from 0 0 text)) text
  unfolding scan_file
  scan_file_lem rounds text r =
      let (s, run, h) = scan_rounds_lem 0 rounds text (scan_start [] init_list) [] refl r in
      (s.table, s.heap, rw run, h, table_from-lines text)
