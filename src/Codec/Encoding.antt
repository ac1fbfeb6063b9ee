-- ===== src/Codec/Encoding.antt =====
-- `encode` and `encode_command` append one message to the destination.
use os_tasks.Prelude.{
  ◌⊎◌, ◌||◌, ◌&&◌, ℕ, suc, ◌+◌, ◌-◌, ◌≤◌, ◌<◌, ◌≡◌, refl, sym, ap, ◌∙◌, Bool, true, false, Option,
  some, List, [], ◌∷◌, ◌++◌, arith, ltb, ◌==◌, inl, inr, length, length-append, take, drop, get_or,
  get_elem?, get_elem?-eq-get_or, fill, reads, positions, length-positions,
}
use native.Mathlib.Decide.{dec_lt, ℕ_discrete}
use mathlib.Core.Path.{subst, subst₂}
use os_tasks.RoundBuffer.{RoundBuffer, buf_advance_read_ptr, buf_advance_write_ptr}
use os_tasks.RoundBuffer.Reading.{buf_advance_read_ptr_lem}
use os_tasks.RoundBuffer.Writing.{
  Appended, appended, appended-Appended, buf_advance_write_ptr-appended, buf_free_length_lem,
}
use os_tasks.RoundBuffer.Inv.{IsValid, IsUnwrapped, contents, length-contents}
use os_tasks.BufIter.{get_read_iter, get_write_iter}
use os_tasks.BufIter.Walk.{Walks, get_read_iter-Walks, get_write_iter-Walks}
use os_tasks.Codec.{encode, end_byte, esc_byte}
use os_tasks.Codec.Escape.{
  message, escape, escape_byte, escape_plain, escape_special, fits, fits_next, fits_stop, fits-le,
  fits_maximal, length-escape-fits,
}
use os_tasks.Codec.EncodeCore.{drop-cons, encode_core}

-- How many of the bytes waiting in `src` the next message to `dst` takes.
abbrev pub encodable : RoundBuffer → RoundBuffer → ℕ
encodable src dst = fits (dst.capacity - dst.length - 3) (contents src)

-- A byte is taken, but for END with room for one byte.
fits_first :
    (room : ℕ) (xs : List ℕ)
    → 0 < length xs
    → 0 < room
    → (get_or xs 0 0 ≡ esc_byte → 1 < room)
    → (0 < fits room xs) ⊎ ((fits room xs ≡ 0) × (get_or xs 0 0 ≡ end_byte) × (room ≡ 1))
fits_first room [] h l esc = absurd (omega arith)
fits_first room (x ∷ xs) h l esc = elim (dec_lt room (length (escape_byte x))) [
  | no k ↦ inl (rw (fits_next room x xs (omega arith)) (omega arith))
  | yes k ↦ elim (ℕ_discrete x end_byte) [
    | yes e ↦
        inr (
          fits_stop room x xs k,
          e,
          omega (arith, ap length (escape_special x (ground (arith, e)))),
        )
    | no e ↦ elim (ℕ_discrete x esc_byte) [
      | yes f ↦ absurd (omega (arith, esc f, ap length (escape_special x (ground (arith, f)))))
      | no f ↦ absurd (omega (arith, ap length (escape_plain x (ground (arith, e, f)))))
    ]
  ]
]

-- Two iterator places of a buffer with room for two bytes.
two_places : (qs : List ℕ) → 2 ≤ length qs → (a b : ℕ) × (rest : List ℕ) × (qs ≡ a ∷ b ∷ rest)
two_places [] h = absurd (omega arith)
two_places (a ∷ []) h = absurd (omega arith)
two_places (a ∷ b ∷ rest) h = (a, b, rest, refl)

module _ (src dst : RoundBuffer) (id : ℕ) (vs : IsValid src) (vd : IsValid dst)
    (u : IsUnwrapped dst) (some_data : 0 < src.length) (room : 4 ≤ dst.capacity - dst.length)
    (first : get_or (contents src) 0 0 ≡ esc_byte → 5 ≤ dst.capacity - dst.length) where
  abbrev places : List ℕ
  places = positions dst.capacity (dst.offset + dst.length) (dst.capacity - dst.length)

  abbrev data_places : List ℕ
  data_places = positions src.capacity src.offset src.length

  length-message-le :
      length (message id (take (encodable src dst) (contents src))) ≤ dst.capacity - dst.length
  unfolding message
  length-message-le = omega (
    arith,
    length-escape-fits (dst.capacity - dst.length - 3) (contents src),
    length-append (escape (take (encodable src dst) (contents src))) (end_byte ∷ []),
  )

  first_test :
      (ltb (dst.capacity - dst.length) 4
        || ((get_or (contents src) 0 0 == esc_byte) && ltb (dst.capacity - dst.length) 5))
      ≡ false
  first_test = ground arith

  -- The result of `encode`, by the places of the data and the free places.
  abbrev outcome : List ℕ → List ℕ → Option (Bool × RoundBuffer × RoundBuffer)
  outcome ds qs =
      let k = fits (dst.capacity - dst.length - 3) (reads 0 src.buffer ds) in
      let xs = message id (take k (reads 0 src.buffer ds)) in
      some (
        true,
        (buf_advance_read_ptr src k).1,
        (buf_advance_write_ptr (record dst { buffer = fill dst.buffer qs xs }) (length xs)).1,
      )

  outcome_at :
      (p q q' : ℕ) (ps qs : List ℕ)
      → data_places ≡ p ∷ ps
      → places ≡ q ∷ q' ∷ qs
      → encode src dst id ≡ outcome (p ∷ ps) (q ∷ q' ∷ qs)
  unfolding reads
  outcome_at p q q' ps qs e f =
      encode_core src dst id src.capacity dst.capacity (dst.capacity - dst.length) p q q' ps qs
        (subst (Walks src.capacity (get_read_iter src)) e (get_read_iter-Walks src vs some_data))
        (omega arith)
        (subst (Walks dst.capacity (get_write_iter dst)) f
          (get_write_iter-Walks dst vd u (omega arith)))
        (omega arith) (omega arith) (buf_free_length_lem dst vd) room
        (omega (
          arith,
          ap (λ (l : List ℕ). length l) f,
          length-positions dst.capacity (dst.offset + dst.length) (dst.capacity - dst.length),
        ))
        (omega arith)
        (subst
          (λ (ds : List ℕ).
            (ltb (dst.capacity - dst.length) 4
              || ((get_or (reads 0 src.buffer ds) 0 0 == esc_byte)
                  && ltb (dst.capacity - dst.length) 5))
            ≡ false)
          e first_test)

  -- With data to send, and room for a message, `encode` puts one message with the connection's id
  -- into `dst`: of the bytes of `src` in their order as many as fit, which it takes out of `src`.
  pub encode_puts :
      encode src dst id
      ≡ some (
        true,
        (buf_advance_read_ptr src (encodable src dst)).1,
        appended dst (message id (take (encodable src dst) (contents src))),
      )
  encode_puts =
      let (p, ps, e) =
        drop-cons 0 data_places
          (omega (arith, length-positions src.capacity src.offset src.length)) in
      let (q, q', qs, f) = two_places places (
        omega (
          arith,
          length-positions dst.capacity (dst.offset + dst.length) (dst.capacity - dst.length),
        )) in
      subst₂ (λ a b. encode src dst id ≡ outcome a b) (sym e) (sym f) (outcome_at p q q' ps qs e f)
      ∙ ap (λ (b : RoundBuffer). some (true, (buf_advance_read_ptr src (encodable src dst)).1, b))
          (buf_advance_write_ptr-appended dst (message id (take (encodable src dst) (contents src)))
            vd length-message-le)

  -- With valid buffers, data to send, the room that `encode` tests for (4 bytes, or 5 if ESC is first),
  -- and the data of `dst` not going round the end, `encode` returns 1; it moves the `k` oldest bytes
  -- of `src` into one message for the connection at the end of `dst`, and `k` is the largest number
  -- of bytes whose message fits. At least one byte is moved, but for one case that the test lets
  -- through: with END first and exactly 4 free bytes none is, and the message is empty. Both
  -- buffers stay valid.
  pub encode_appends :
      (k : ℕ) × (src' : RoundBuffer) × (dst' : RoundBuffer) × (encode src dst id
        ≡ some (true, src', dst'))
      × (contents src' ≡ drop k (contents src))
      × (contents dst' ≡ contents dst ++ message id (take k (contents src)))
      × ((k ≡ src.length)
          ⊎ (dst.capacity - dst.length < length (message id (take (suc k) (contents src)))))
      × ((0 < k)
          ⊎ ((k ≡ 0) × (get_or (contents src) 0 0 ≡ end_byte) × (dst.capacity - dst.length ≡ 4)))
      × IsValid src'
      × IsValid dst'
  unfolding message
  encode_appends = (
    k,
    (buf_advance_read_ptr src k).1,
    appended dst (message id (take k (contents src))),
    encode_puts,
    (buf_advance_read_ptr_lem src k vs).holds,
    put.holds,
    largest,
    moved,
    (buf_advance_read_ptr_lem src k vs).valid,
    put.valid,
  )
    where
      k : ℕ
      k = encodable src dst

      put :
          Appended dst
            (message id (take k (contents src)))
            (appended dst (message id (take k (contents src))))
      put =
          appended-Appended dst (message id (take k (contents src))) vd
            (omega (arith, length-message-le))

      moved :
          (0 < k)
          ⊎ ((k ≡ 0) × (get_or (contents src) 0 0 ≡ end_byte) × (dst.capacity - dst.length ≡ 4))
      moved =
          elim (fits_first (dst.capacity - dst.length - 3) (contents src)
            (omega (arith, length-contents src)) (omega arith) (λ e. omega (arith, first e))) [
              | inl h ↦ inl h
              | inr (z, e, h) ↦ inr (z, e, omega arith)
            ]

      largest :
          (k ≡ src.length)
          ⊎ (dst.capacity - dst.length
              < suc (suc (length (escape (take (suc k) (contents src)) ++ (end_byte ∷ [])))))
      largest = elim (dec_lt k (length (contents src))) [
        | no h ↦ inl (
            omega
              (arith, length-contents src, fits-le (dst.capacity - dst.length - 3) (contents src)))
        | yes h ↦ inr (
            omega (
              arith,
              fits_maximal (dst.capacity - dst.length - 3) (contents src) h,
              length-append (escape (take (suc k) (contents src))) (end_byte ∷ []),
            ))
      ]

pub get_or-contents :
    (src : RoundBuffer)
    → IsValid src
    → 0 < src.length
    → get_elem? src.buffer (get_read_iter src).ptr ≡ some (get_or (contents src) 0 0)
unfolding reads
get_or-contents src v h =
    let (p, ps, e) =
      drop-cons 0 (positions src.capacity src.offset src.length)
        (omega (arith, length-positions src.capacity src.offset src.length)) in
    let w : Walks src.capacity (get_read_iter src) (p ∷ ps) =
      subst (Walks src.capacity (get_read_iter src)) e (get_read_iter-Walks src v h) in
    rw (w.0, e) (get_elem?-eq-get_or src.buffer p 0 (omega arith))
