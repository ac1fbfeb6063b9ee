-- ===== src/ReadLine/Consume.antt =====
-- `buf_consume_line` takes the bytes up to a line break.
use os_tasks.Prelude.{
  ℕ, zero, suc, ◌+◌, ◌-◌, ◌≤◌, min, ◌≡◌, refl, sym, ap, ◌∙◌, some, List, [], ◌∷◌, ◌++◌, arith, ◌==◌,
  leb, if◌then◌else◌, length, get_elem?-eq-get_or, reads, span, take, reads-append, reads-take,
  length-reads, length-span,
}
use os_tasks.RoundBuffer.Reading.{take-span}
use os_tasks.ReadLine.{Buffer, newline, find_newline, buf_consume_line}

-- The bytes up to the first line break, with it; all if there is none.
unfoldable pub first_line : List ℕ → List ℕ
first_line [] = []
first_line (x ∷ xs) = if x == newline then x ∷ [] else x ∷ first_line xs

-- The bytes that wait in the buffer.
abbrev pub waiting : Buffer → List ℕ
waiting b = reads 0 b.buf (span b.pos b.len)

find_newline_lem :
    (n i : ℕ) (buf : List ℕ) (pos : ℕ)
    → pos + i + n ≤ length buf
    → find_newline n i buf pos ≡ some (i + length (first_line (reads 0 buf (span (pos + i) n))))
unfolding find_newline first_line reads span
find_newline_lem zero i buf pos h = ap some (let e : i ≡ i + 0 = omega arith in e)
find_newline_lem (suc n) i buf pos h =
    let ih = find_newline_lem n (i + 1) buf pos (omega arith) in
    let e : pos + (i + 1) ≡ pos + i + 1 = omega arith in
    ground (arith, get_elem?-eq-get_or buf (pos + i) 0 (omega arith), ih, e)

length-first_line : (xs : List ℕ) → length (first_line xs) ≤ length xs
unfolding first_line
length-first_line [] = omega arith
length-first_line (x ∷ xs) = ground (arith, length-first_line xs)

-- A line is the beginning of the bytes.
take-first_line : (xs : List ℕ) → take (length (first_line xs)) xs ≡ first_line xs
unfolding first_line
take-first_line [] = refl
take-first_line (x ∷ xs) = ground (arith, take-first_line xs)

span-add : (p n m : ℕ) → span p n ++ span (p + n) m ≡ span p (n + m)
unfolding span
span-add p zero m =
    ap (λ k. span k m) (let e : p + 0 ≡ p = omega arith in e)
    ∙ ap (span p) (let e : m ≡ 0 + m = omega arith in e)
span-add p (suc n) m =
    ap (λ k. p ∷ (span (p + 1) n ++ span k m)) (let e : p + suc n ≡ p + 1 + n = omega arith in e)
    ∙ ap (λ l. p ∷ l) (span-add (p + 1) n m)
    ∙ ap (span p) (let e : suc (n + m) ≡ suc n + m = omega arith in e)

shorter : (a b : ℕ) → (if leb a b then a else b) ≡ min b a
shorter a b = ground arith

-- With the waiting bytes inside the storage, `buf_consume_line` copies, of the first `size` of them,
-- those up to the first line break, with it, or all; and exactly the other bytes keep waiting, in
-- the same storage.
pub buf_consume_line_lem :
    (b : Buffer) (size : ℕ)
    → b.pos + b.len ≤ length b.buf
    → (b' : Buffer) × (buf_consume_line b size ≡ some (first_line (take size (waiting b)), b'))
      × (first_line (take size (waiting b)) ++ waiting b' ≡ waiting b)
      × (b'.pos + b'.len ≡ b.pos + b.len)
      × (b'.buf ≡ b.buf)
unfolding buf_consume_line
buf_consume_line_lem b size h = (
  record b { pos = b.pos + cnt; len = b.len - cnt },
  rw (shorter b.len size, find_newline_lem n 0 b.buf b.pos (omega arith), at_start)
      (ap (λ xs. some (xs, record b { pos = b.pos + cnt; len = b.len - cnt })) copied),
  ap (λ xs. xs ++ reads 0 b.buf (span (b.pos + cnt) (b.len - cnt))) (sym copied)
      ∙ sym (reads-append 0 b.buf (span b.pos cnt) (span (b.pos + cnt) (b.len - cnt)))
      ∙ ap (reads 0 b.buf) (span-add b.pos cnt (b.len - cnt))
      ∙ ap (λ k. reads 0 b.buf (span b.pos k))
          (let e : cnt + (b.len - cnt) ≡ b.len = omega (arith, cnt_le) in e),
  omega (arith, cnt_le),
  refl,
)
  where
    n : ℕ
    n = min size b.len

    data_taken : take size (waiting b) ≡ reads 0 b.buf (span b.pos n)
    data_taken =
        sym (reads-take 0 b.buf size (span b.pos b.len))
        ∙ ap (reads 0 b.buf) (take-span size b.pos b.len)

    cnt : ℕ
    cnt = length (first_line (take size (waiting b)))

    cnt_le : cnt ≤ n
    cnt_le = omega (
      arith,
      length-first_line (take size (waiting b)),
      ap (λ (l : List ℕ). length l) data_taken,
      length-reads 0 b.buf (span b.pos n),
      length-span b.pos n,
    )

    at_start : 0 + length (first_line (reads 0 b.buf (span (b.pos + 0) n))) ≡ cnt
    at_start =
        (let e : 0 + length (first_line (reads 0 b.buf (span (b.pos + 0) n)))
              ≡ length (first_line (reads 0 b.buf (span (b.pos + 0) n))) =
            omega arith in
          e)
        ∙ ap (λ k. length (first_line (reads 0 b.buf (span k n))))
            (let e : b.pos + 0 ≡ b.pos = omega arith in e)
        ∙ ap (λ l. length (first_line l)) (sym data_taken)

    copied : reads 0 b.buf (span b.pos cnt) ≡ first_line (take size (waiting b))
    copied =
        ap (λ k. reads 0 b.buf (span b.pos k))
          (let e : cnt ≡ min cnt n = omega (arith, cnt_le) in e)
        ∙ ap (reads 0 b.buf) (sym (take-span cnt b.pos n))
        ∙ reads-take 0 b.buf cnt (span b.pos n)
        ∙ ap (take cnt) (sym data_taken)
        ∙ take-first_line (take size (waiting b))
