-- ===== src/Codec/RoundTrip.antt =====
-- The round trip of `encode` and `decode`.
use os_tasks.Prelude.{
  ℕ, ◌-◌, ◌≤◌, ◌<◌, ◌≡◌, refl, sym, ap, ◌∙◌, true, some, List, [], ◌∷◌, ◌++◌, arith, length,
  length-append, drop, take, take-append-drop, length-take,
}
use os_tasks.RoundBuffer.{RoundBuffer, buf_advance_read_ptr}
use os_tasks.RoundBuffer.Inv.{IsValid, IsUnwrapped, contents, length-contents}
use os_tasks.RoundBuffer.Reading.{buf_advance_read_ptr_lem}
use os_tasks.Codec.{encode, decode, end_byte}
use os_tasks.Codec.Escape.{escape, message}
use os_tasks.Codec.Encoding.{encode_appends}
use os_tasks.Codec.Decoding.{decode_unescapes}

head_dropped : (id : ℕ) (xs : List ℕ) → drop 2 (message id xs) ≡ escape xs ++ (end_byte ∷ [])
unfolding message
head_dropped id xs = refl

-- What `encode` has put into an empty tunnel buffer of at least 5 bytes, `decode` gives back:
-- after the two leading bytes (END and the id) are taken out, it moves the very bytes that
-- `encode` took from `src`, which is not empty, to the end of `dst`, finds the end of the message,
-- and leaves the tunnel buffer empty, if the three buffers are valid, `dst` has room for one byte
-- more than `src` holds, and the data of `dst` does not go round the end.
pub decode-encode :
    (src tunnel dst : RoundBuffer) (id : ℕ)
    → IsValid src
    → IsValid tunnel
    → IsUnwrapped tunnel
    → IsValid dst
    → IsUnwrapped dst
    → contents tunnel ≡ []
    → 0 < src.length
    → 5 ≤ tunnel.capacity
    → src.length < dst.capacity - dst.length
    → (src' : RoundBuffer) × (tunnel' : RoundBuffer) × (tunnel'' : RoundBuffer)
      × (dst' : RoundBuffer) × (xs : List ℕ) × (encode src tunnel id ≡ some (true, src', tunnel'))
      × (contents src ≡ xs ++ contents src')
      × (decode (buf_advance_read_ptr tunnel' 2).1 dst ≡ some (true, tunnel'', dst'))
      × (contents dst' ≡ contents dst ++ xs)
      × (contents tunnel'' ≡ [])
decode-encode src tunnel dst id vs vt ut vd ud empty h room more =
    let (k, src', tunnel', e, s, t, _, _, _, vt') =
      encode_appends src tunnel id vs vt ut h (omega (arith, none_waiting))
        (λ f. omega (arith, none_waiting)) in
    let xs : List ℕ = take k (contents src) in
    let left = buf_advance_read_ptr_lem tunnel' 2 vt' in
    let rest : contents (buf_advance_read_ptr tunnel' 2).1 ≡ escape xs ++ (end_byte ∷ []) =
      left.holds ∙ ap (drop 2) t ∙ after_head xs in
    let (tunnel'', dst', d, t', c, _, _) =
      decode_unescapes (buf_advance_read_ptr tunnel' 2).1 dst xs (end_byte ∷ []) true left.valid vd
        ud (some_left xs (buf_advance_read_ptr tunnel' 2).1 rest) rest (omega (arith, short k))
        ([], refl, omega (arith, short k)) in
    (
      src',
      tunnel',
      tunnel'',
      dst',
      xs,
      e,
      sym (take-append-drop k (contents src)) ∙ ap (λ l. xs ++ l) (sym s),
      d,
      c,
      t',
    )
  where
    none_waiting : tunnel.length ≡ 0
    none_waiting = omega (arith, ap (λ (l : List ℕ). length l) empty, length-contents tunnel)

    after_head :
        (xs : List ℕ) → drop 2 (contents tunnel ++ message id xs) ≡ escape xs ++ (end_byte ∷ [])
    after_head xs = rw empty (head_dropped id xs)

    some_left :
        (xs : List ℕ) (b : RoundBuffer) → contents b ≡ escape xs ++ (end_byte ∷ []) → 0 < b.length
    some_left xs b e = omega (
      arith,
      ap (λ (l : List ℕ). length l) e,
      length-append (escape xs) (end_byte ∷ []),
      length-contents b,
    )

    short : (k : ℕ) → length (take k (contents src)) < dst.capacity - dst.length
    short k = omega (arith, length-take k (contents src), length-contents src)
