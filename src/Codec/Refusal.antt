-- ===== src/Codec/Refusal.antt =====
-- `encode` where it has nothing to send, no room, or room for no byte.
use os_tasks.Prelude.{
  ne_zero, ◌⊎◌, ◌||◌, ◌&&◌, ℕ, ◌-◌, ◌<◌, ◌≡◌, ap, ◌∙◌, true, some, List, [], ◌∷◌, ◌++◌, arith, ltb,
  ◌==◌, inl, inr, length, take, get_or,
}
use native.Mathlib.Decide.{ℕ_discrete}
use os_tasks.RoundBuffer.{RoundBuffer, buf_advance_read_ptr}
use os_tasks.RoundBuffer.Reading.{buf_advance_read_ptr_lem}
use os_tasks.RoundBuffer.Writing.{appended, appended-Appended, buf_free_length_lem}
use os_tasks.RoundBuffer.Inv.{IsValid, IsUnwrapped, contents}
use os_tasks.Codec.{encode, end_byte, esc_byte}
use os_tasks.Codec.Escape.{message, escape, fits, fits_stop, fits-nil, escape_special}
use os_tasks.Codec.Encoding.{encodable, encode_puts, get_or-contents}

-- The buffers stay as they are without data, where `encode` returns 1, and with data for which `dst`
-- has no room (4 bytes, or 5 if the first byte is ESC), where it returns 0.
pub encode_unchanged :
    (src dst : RoundBuffer) (id : ℕ)
    → IsValid src
    → IsValid dst
    → (src.length ≡ 0)
      ⊎ (dst.capacity - dst.length < 4)
      ⊎ (get_or (contents src) 0 0 ≡ esc_byte) × (dst.capacity - dst.length < 5)
    → encode src dst id ≡ some (src.length == 0, src, dst)
unfolding encode
encode_unchanged src dst id vs vd (inl e) = ground arith
encode_unchanged src dst id vs vd (inr room) = elim (ℕ_discrete src.length 0) [
  | yes e ↦ ground arith
  | no h ↦ rw (
    ne_zero src.length h,
    get_or-contents src vs (omega arith),
    buf_free_length_lem dst vd,
    blocked room,
  )
]
  where
    blocked :
        (dst.capacity - dst.length < 4)
          ⊎ (get_or (contents src) 0 0 ≡ esc_byte) × (dst.capacity - dst.length < 5)
        → (ltb (dst.capacity - dst.length) 4
            || ((get_or (contents src) 0 0 == esc_byte) && ltb (dst.capacity - dst.length) 5))
          ≡ true
    blocked (inl h) = ground arith
    blocked (inr (e, h)) = ground arith

fits_end : (xs : List ℕ) (r : ℕ) → get_or xs 0 0 ≡ end_byte → r < 2 → fits r xs ≡ 0
fits_end [] r e h = fits-nil r
fits_end (x ∷ xs) r e h = fits_stop r x xs (omega (arith, ap length (escape_special x (rw e))))

-- At exactly 4 free bytes, a first byte END is let through by the room test although its escaped
-- form does not fit: `encode` returns 1 and puts a message with no bytes, and takes none.
pub encode_empty_message :
    (src dst : RoundBuffer) (id : ℕ)
    → IsValid src
    → IsValid dst
    → IsUnwrapped dst
    → 0 < src.length
    → dst.capacity - dst.length ≡ 4
    → get_or (contents src) 0 0 ≡ end_byte
    → (src' : RoundBuffer) × (dst' : RoundBuffer) × (encode src dst id ≡ some (true, src', dst'))
      × (contents src' ≡ contents src)
      × (contents dst' ≡ contents dst ++ message id [])
unfolding message escape
encode_empty_message src dst id vs vd u h room e = (
  (buf_advance_read_ptr src 0).1,
  appended dst (message id []),
  encode_puts src dst id vs vd u h (omega arith) (λ f. absurd (omega arith))
      ∙ ap
          (λ k. some (
            true,
            (buf_advance_read_ptr src k).1,
            appended dst (message id (take k (contents src))),
          ))
          none_taken,
  (buf_advance_read_ptr_lem src 0 vs).holds,
  (appended-Appended dst (message id []) vd (omega arith)).holds,
)
  where
    none_taken : encodable src dst ≡ 0
    none_taken =
        ap (λ r. fits (r - 3) (contents src)) room ∙ fits_end (contents src) 1 e (omega arith)
