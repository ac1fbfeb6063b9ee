-- ===== src/ReadLine/Whole.antt =====
-- `read_line` over the calls of `read`: the lines of the input, however it arrives.
use os_tasks.Prelude.{
  ne_zero, ℕ, zero, suc, ◌-◌, ◌<◌, ◌≡◌, ◌≢◌, ◌⊎◌, refl, sym, ap, ◌∙◌, Bool, true, false, Option,
  some, List, [], ◌∷◌, ◌++◌, arith, if◌then◌else◌, is_nil, length, span, take, drop,
  drop-append_length, length-reads, length-span, Bool-cases, inl, inr,
}
use mathlib.Core.Path.{subst, subst₂}
use os_tasks.ReadLine.{
  Buffer, File, Round, Line, line, rl_eof, newline, filled, at_end, next_data, ends_line, read_loop,
  read_line, buf_consume_line,
}
use os_tasks.ReadLine.Consume.{first_line, waiting, buf_consume_line_lem}
use os_tasks.ReadLine.Collect.{collect, after, collect_copy, ends_line-append}
use os_tasks.ReadLine.Supply.{Delivers, IsGood, next_data_lem}

module _ (fuel : ℕ) (timer : Bool) (rounds rounds' : List Round) (res : List ℕ) (size : ℕ)
    (b : Buffer) where
  loop_ends :
      size ≢ 0
      → next_data timer rounds b ≡ some (at_end, rounds')
      → read_loop (suc fuel) timer rounds res size b
        ≡ some (if is_nil res then rl_eof else line (res ++ (newline ∷ [])), rounds', b)
  unfolding read_loop
  loop_ends h e = rw (ne_zero size h, e)

  module _ (b1 b2 : Buffer) (c : List ℕ) (h : size ≢ 0)
      (next : next_data timer rounds b ≡ some (filled b1, rounds'))
      (copied : buf_consume_line b1 size ≡ some (c, b2)) where
    loop_line :
        ends_line (res ++ c) ≡ true
        → read_loop (suc fuel) timer rounds res size b ≡ some (line (res ++ c), rounds', b2)
    unfolding read_loop
    loop_line e = rw (ne_zero size h, next, copied, e)

    loop_more :
        ends_line (res ++ c) ≡ false
        → read_loop (suc fuel) timer rounds res size b
          ≡ read_loop fuel timer rounds' (res ++ c) (size - length c) b2
    unfolding read_loop
    loop_more e = rw (ne_zero size h, next, copied, e)

first_line_pos : (n : ℕ) (w : List ℕ) → n ≢ 0 → 0 < length w → 0 < length (first_line (take n w))
unfolding first_line
first_line_pos zero w h k = absurd (h refl)
first_line_pos (suc n) [] h k = absurd (omega arith)
first_line_pos (suc n) (x ∷ w) h k = ground arith

loop_full :
    (fuel : ℕ) (timer : Bool) (rounds : List Round) (res : List ℕ) (b : Buffer)
    → read_loop (suc fuel) timer rounds res 0 b ≡ some (line res, rounds, b)
unfolding read_loop
loop_full fuel timer rounds res b = refl

waiting_end : (b : Buffer) (xs : List ℕ) → waiting b ++ xs ≡ [] → waiting b ++ [] ≡ []
waiting_end b xs e = nil_append (waiting b) xs e
  where
    nil_append : (ws ys : List ℕ) → ws ++ ys ≡ [] → ws ++ [] ≡ []
    nil_append [] ys e = refl
    nil_append (w ∷ ws) ys e =
        absurd
          (let f : suc (length (ws ++ ys)) ≡ 0 = ap (λ (l : List ℕ). length l) e in omega arith)

-- The loop's outcome, by the specification.
abbrev pub Collects :
    (timer : Bool) (room : ℕ) → Option (Line × List Round × Buffer) → Line × List ℕ → Type 0
Collects timer room out spec =
    (rounds' : List Round) × (b' : Buffer) × (zs : List ℕ) × (out ≡ some (spec.0, rounds', b'))
    × (spec.1 ≡ waiting b' ++ zs)
    × IsGood room b'
    × (Delivers timer room rounds' zs ⊎ (spec.1 ≡ []))

read_loop_lem :
    (fuel : ℕ) (timer : Bool) (room : ℕ) (rounds : List Round) (res : List ℕ) (size : ℕ)
    (b : Buffer) (xs : List ℕ)
    → size < fuel
    → ends_line res ≡ false
    → IsGood room b
    → Delivers timer room rounds xs
    → Collects timer room
        (read_loop fuel timer rounds res size b)
        (collect res size (waiting b ++ xs))
unfolding collect
read_loop_lem zero timer room rounds res size b xs h e g d = absurd (omega arith)
read_loop_lem (suc fuel) timer room rounds res zero b xs h e g d =
    (rounds, b, xs, loop_full fuel timer rounds res b, refl, g, inl d)
read_loop_lem (suc fuel) timer room rounds res (suc n) b xs h e g d =
    elim (next_data_lem timer room rounds b xs g d) [
      | inr (rounds', nd, none_left) ↦
          subst
            (λ l.
              Collects timer room (read_loop (suc fuel) timer rounds res (suc n) b)
                (collect res (suc n) l))
            (sym none_left)
            (
              rounds',
              b,
              [],
              loop_ends fuel timer rounds rounds' res (suc n) b (λ f. omega arith) nd,
              sym (waiting_end b xs none_left),
              g,
              inr refl,
            )
      | inl (b1, rounds', zs, nd, p, same, g1, d1) ↦
          let (b2, run, split, ends, storage) = buf_consume_line_lem b1 (suc n) g1.0 in
          let c = first_line (take (suc n) (waiting b1)) in
          let good : IsGood room b2 = omega (arith, ap (λ (l : List ℕ). length l) storage) in
          let spec : collect res (suc n) (waiting b ++ xs)
              ≡ after res c (suc n) (waiting b2 ++ zs) =
            ap (collect res (suc n)) (sym same)
            ∙ collect_copy (suc n) (waiting b1) zs res
            ∙ ap (λ l. after res c (suc n) (l ++ zs))
                (ap (drop (length c)) (sym split) ∙ drop-append_length c (waiting b2)) in
          let more = read_loop_lem fuel timer room rounds' (res ++ c) (suc n - length c) b2 zs (
            omega (
              arith,
              first_line_pos (suc n) (waiting b1),
              length-reads 0 b1.buf (span b1.pos b1.len),
              length-span b1.pos b1.len,
            )) in
          elim (Bool-cases (ends_line c)) [
            | inl t ↦
                subst (Collects timer room (read_loop (suc fuel) timer rounds res (suc n) b))
                  (sym (
                    spec
                    ∙ ap
                        (λ k.
                          if k
                          then (line (res ++ c), waiting b2 ++ zs)
                          else collect (res ++ c) (suc n - length c) (waiting b2 ++ zs))
                        t))
                  (
                    rounds',
                    b2,
                    zs,
                    loop_line fuel timer rounds rounds' res (suc n) b b1 b2 c (λ f. omega arith) nd
                        run (ends_line-append res c e ∙ t),
                    refl,
                    good,
                    inl d1,
                  )
            | inr f ↦
                let no_end = ends_line-append res c e ∙ f in
                subst₂ (Collects timer room)
                  (sym (
                    loop_more fuel timer rounds rounds' res (suc n) b b1 b2 c (λ f. omega arith) nd
                      run no_end))
                  (sym (
                    spec
                    ∙ ap
                        (λ k.
                          if k
                          then (line (res ++ c), waiting b2 ++ zs)
                          else collect (res ++ c) (suc n - length c) (waiting b2 ++ zs))
                        f))
                  (more no_end good d1)
          ]
    ]

-- If the calls of `read` deliver the bytes `xs`, in any pieces that fit in the buffer and, with a
-- timer, in time, and then the end of the input, `read_line` with room for a terminator ends, and its
-- result is that of collecting the waiting bytes and then `xs` one by one: up to a line break, or all
-- there is room for, or all there is with a line break put behind it; RL_EOF where there is nothing.
-- What is left of this input is what waits in the buffer and what the rounds left deliver.
pub read_line_lem :
    (timer : Bool) (room : ℕ) (rounds : List Round) (f : File) (size : ℕ) (xs : List ℕ)
    → size ≢ 0
    → IsGood room f.buf
    → Delivers timer room rounds xs
    → (rounds' : List Round) × (b' : Buffer) × (zs : List ℕ) × (read_line timer rounds f size
        ≡ some ((collect [] (size - 1) (waiting f.buf ++ xs)).0, rounds', record f { buf = b' }))
      × ((collect [] (size - 1) (waiting f.buf ++ xs)).1 ≡ waiting b' ++ zs)
      × IsGood room b'
      × (Delivers timer room rounds' zs ⊎ ((collect [] (size - 1) (waiting f.buf ++ xs)).1 ≡ []))
unfolding read_line
read_line_lem timer room rounds f size xs h g d =
    let (rounds', b', zs, run, rest, good, left) =
      read_loop_lem size timer room rounds [] (size - 1) f.buf xs (omega arith) refl g d in
    (rounds', b', zs, rw (ne_zero size h, run), rest, good, left)
