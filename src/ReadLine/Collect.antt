-- ===== src/ReadLine/Collect.antt =====
-- What `read_line` should give: the input collected byte by byte, and what one copy does to it.
use os_tasks.Prelude.{
  ℕ, zero, suc, ◌-◌, ◌≡◌, refl, ap, ◌∙◌, false, List, [], ◌∷◌, ◌++◌, arith, ◌==◌, if◌then◌else◌,
  is_nil, length, take, drop, append_assoc, append-nil, Bool-cases, inl, inr,
}
use os_tasks.ReadLine.{Line, line, rl_eof, newline, ends_line}
use os_tasks.ReadLine.Consume.{first_line}

-- The specification, one byte after the other: the line that comes of the bytes `res` so far, `size`
-- bytes of room and the input, and what is left of the input.
unfoldable pub collect : (res : List ℕ) (size : ℕ) (input : List ℕ) → Line × List ℕ
collect res zero input = (line res, input)
collect res (suc n) [] = (if is_nil res then rl_eof else line (res ++ (newline ∷ [])), [])
collect res (suc n) (x ∷ input) =
    let rest = collect (res ++ (x ∷ [])) n input in
    if x == newline then (line (res ++ (x ∷ [])), input) else rest

ends_line-cons : (x : ℕ) (c : List ℕ) → (x == newline) ≡ false → ends_line (x ∷ c) ≡ ends_line c
ends_line-cons x [] e = e
ends_line-cons x (y ∷ c) e = refl

pub ends_line-append : (res c : List ℕ) → ends_line res ≡ false → ends_line (res ++ c) ≡ ends_line c
ends_line-append [] c e = refl
ends_line-append (x ∷ []) [] e = e
ends_line-append (x ∷ []) (y ∷ c) e = refl
ends_line-append (x ∷ y ∷ res) c e = ends_line-append (y ∷ res) c e

-- What one copy does to the specification.
abbrev pub after : (res c : List ℕ) (size : ℕ) (input : List ℕ) → Line × List ℕ
after res c size input =
    let rest = collect (res ++ c) (size - length c) input in
    if ends_line c then (line (res ++ c), input) else rest

after-cons :
    (res c : List ℕ) (x n : ℕ) (input : List ℕ)
    → (x == newline) ≡ false
    → after (res ++ (x ∷ [])) c n input ≡ after res (x ∷ c) (suc n) input
after-cons res c x n input e =
    rw (ends_line-cons x c e, append_assoc res (x ∷ []) c)
      (ap
        (λ k.
          if ends_line c then (line (res ++ (x ∷ c)), input) else collect (res ++ (x ∷ c)) k input)
        (let f : n - length c ≡ suc n - length (x ∷ c) = omega arith in f))

pub collect_copy :
    (size : ℕ) (w ys res : List ℕ)
    → collect res size (w ++ ys)
      ≡ after res (first_line (take size w)) size (drop (length (first_line (take size w))) w ++ ys)
unfolding collect first_line
collect_copy zero w ys res = rw (append-nil res) refl
collect_copy (suc n) [] ys res =
    rw (append-nil res) (ap (λ k. collect res k ys) (let f : suc n ≡ suc n - 0 = omega arith in f))
collect_copy (suc n) (x ∷ w) ys res = elim (Bool-cases (x == newline)) [
  | inl e ↦ rw (e, e)
  | inr e ↦ rw (e) (
      collect_copy n w ys (res ++ (x ∷ []))
      ∙ after-cons res (first_line (take n w)) x n (drop (length (first_line (take n w))) w ++ ys)
          e)
]
