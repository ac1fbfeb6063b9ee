-- ===== src/ReadLine/Supply.antt =====
-- What the calls of `read` deliver, and how it reaches the buffer.
use os_tasks.Prelude.{
  ne_zero, ℕ, zero, suc, ◌+◌, ◌≤◌, ◌<◌, ◌≡◌, ◌⊎◌, refl, sym, ap, ◌∙◌, Bool, true, false, some, List,
  [], ◌∷◌, ◌++◌, arith, ◌==◌, length, reads, span, take, drop, get_or, take-append_length,
  length-drop, length-append, inl, inr,
}
use native.Mathlib.Decide.{ℕ_discrete}
use os_tasks.RoundBuffer.{Received, received}
use os_tasks.ReadLine.{Buffer, Round, ready, filled, at_end, fill_buffer, store_read, next_data}
use os_tasks.ReadLine.Consume.{waiting}

-- The rounds deliver the bytes `xs`, in pieces that fit in `room` bytes, and then the end of the input;
-- with a timer, each in time.
abbrev pub InTime : Bool → Round → Type 0
InTime timer r = (timer ≡ true) → r.selected ≡ ready true false

abbrev pub Delivers : (timer : Bool) (room : ℕ) → List Round → List ℕ → Type 0
Delivers timer room [] xs = ⊥
Delivers timer room (r ∷ rounds) xs =
    InTime timer r
    × (((xs ≡ []) × (r.bytes ≡ received []))
        ⊎ ((y : ℕ) × (ys : List ℕ) × (zs : List ℕ) × (r.bytes ≡ received (y ∷ ys))
            × (length (y ∷ ys) ≤ room)
            × (xs ≡ (y ∷ ys) ++ zs)
            × Delivers timer room rounds zs))

drop_cons : (mem : List ℕ) (p : ℕ) → p < length mem → drop p mem ≡ get_or mem p 0 ∷ drop (p + 1) mem
drop_cons [] p h = absurd (omega arith)
drop_cons (x ∷ mem) zero h = refl
drop_cons (x ∷ mem) (suc p) h =
    drop_cons mem p (omega arith)
    ∙ ap (λ k. get_or mem p 0 ∷ drop k (x ∷ mem))
        (let e : suc (p + 1) ≡ suc p + 1 = omega arith in e)

-- Reading a span is cutting it out.
reads-span :
    (mem : List ℕ) (n p : ℕ) → p + n ≤ length mem → reads 0 mem (span p n) ≡ take n (drop p mem)
unfolding reads span
reads-span mem zero p h = refl
reads-span mem (suc n) p h =
    ap (λ l. get_or mem p 0 ∷ l) (reads-span mem n (p + 1) (omega arith))
    ∙ ap (take (suc n)) (sym (drop_cons mem p (omega arith)))

abbrev pub IsGood : (room : ℕ) → Buffer → Type 0
IsGood room b = (b.pos + b.len ≤ length b.buf) × (room ≤ length b.buf)

abbrev stored : (y : ℕ) (ys : List ℕ) → Buffer → Buffer
stored y ys b = record b {
  buf = (y ∷ ys) ++ drop (suc (length ys)) b.buf;
  pos = 0;
  len = suc (length ys);
}

waiting-stored : (y : ℕ) (ys : List ℕ) (b : Buffer) → waiting (stored y ys b) ≡ y ∷ ys
waiting-stored y ys b =
    reads-span ((y ∷ ys) ++ drop (suc (length ys)) b.buf) (suc (length ys)) 0
      (omega (arith, length-append (y ∷ ys) (drop (suc (length ys)) b.buf)))
    ∙ take-append_length (y ∷ ys) (drop (suc (length ys)) b.buf)

stored-IsGood :
    (room y : ℕ) (ys : List ℕ) (b : Buffer)
    → length (y ∷ ys) ≤ room
    → IsGood room b
    → IsGood room (stored y ys b)
stored-IsGood room y ys b h g = omega (
  arith,
  length-append (y ∷ ys) (drop (suc (length ys)) b.buf),
  length-drop (suc (length ys)) b.buf,
)

fill_buffer_lem :
    (timer : Bool) (r : Round) (b : Buffer)
    → InTime timer r
    → fill_buffer timer r b ≡ some (store_read r.bytes b)
unfolding fill_buffer
fill_buffer_lem true r b t = rw (t refl)
fill_buffer_lem false r b t = refl

-- Data for the next copy: what waits with what is still to come stays the same input; or it ends.
abbrev pub Next : Bool → ℕ → List Round → Buffer → List ℕ → Type 0
Next timer room rounds buf xs =
    ((b : Buffer) × (rounds' : List Round) × (zs : List ℕ) × (next_data timer rounds buf
        ≡ some (filled b, rounds'))
      × (0 < b.len)
      × (waiting b ++ zs ≡ waiting buf ++ xs)
      × IsGood room b
      × Delivers timer room rounds' zs)
    ⊎ ((rounds' : List Round) × (next_data timer rounds buf ≡ some (at_end, rounds'))
        × (waiting buf ++ xs ≡ []))

waiting_nil : (b : Buffer) → b.len ≡ 0 → waiting b ≡ []
unfolding reads span
waiting_nil b e = ap (λ n. reads 0 b.buf (span b.pos n)) e

is_zero : (n : ℕ) → n ≡ 0 → (n == 0) ≡ true
is_zero n e = ground arith

next_read :
    (timer : Bool) (r : Round) (rounds : List Round) (b : Buffer) (bytes : Received)
    → b.len ≡ 0
    → InTime timer r
    → r.bytes ≡ bytes
    → next_data timer (r ∷ rounds) b ≡ some (store_read bytes b, rounds)
unfolding next_data
next_read timer r rounds b bytes e t got =
    rw (is_zero b.len e, fill_buffer_lem timer r b t ∙ ap (λ x. some (store_read x b)) got)

pub next_data_lem :
    (timer : Bool) (room : ℕ) (rounds : List Round) (buf : Buffer) (xs : List ℕ)
    → IsGood room buf
    → Delivers timer room rounds xs
    → Next timer room rounds buf xs
unfolding next_data store_read
next_data_lem timer room [] buf xs g d = absurd d
next_data_lem timer room (r ∷ rounds) buf xs g (t, d) = elim (ℕ_discrete buf.len 0) [
  | no some_left ↦
      inl (buf, r ∷ rounds, xs, rw (ne_zero buf.len some_left), omega arith, refl, g, (t, d))
  | yes empty ↦ elim d [
    | inl (e, got) ↦ inr (
      rounds,
      next_read timer r rounds buf (received []) empty t got,
      rw (waiting_nil buf empty, e),
    )
    | inr (y, ys, zs, got, fits, e, more) ↦ inl (
      stored y ys buf,
      rounds,
      zs,
      next_read timer r rounds buf (received (y ∷ ys)) empty t got,
      omega arith,
      ap (λ l. l ++ zs) (waiting-stored y ys buf)
          ∙ sym e
          ∙ ap (λ l. l ++ xs) (sym (waiting_nil buf empty)),
      stored-IsGood room y ys buf fits g,
      more,
    )
  ]
]
