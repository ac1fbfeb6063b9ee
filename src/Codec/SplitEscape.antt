-- ===== src/Codec/SplitEscape.antt =====
-- `decode` where an ESC is the last byte that has arrived.
use os_tasks.Prelude.{
  ne_zero, ℕ, zero, suc, ◌+◌, ◌≤◌, ◌<◌, ◌≡◌, refl, ap, ◌∙◌, some, none, List, [], ◌∷◌, arith,
  length, get_or, get_elem?,
}
use os_tasks.RoundBuffer.{RoundBuffer, buf_reading_iov, buf_free_length}
use os_tasks.RoundBuffer.Inv.{IsValid, contents, length-contents}
use os_tasks.RoundBuffer.Writing.{buf_free_length_lem}
use os_tasks.BufIter.{buf_iter_next, get_read_iter}
use os_tasks.Codec.{Decoder, decode_body, decode_loop, decode, esc_byte}
use os_tasks.Codec.Encoding.{get_or-contents}
use os_tasks.Codec.Decoding.{begun}

get_elem?_out {ℓ} : {A : Type ℓ} (xs : List A) (i : ℕ) → length xs ≤ i → get_elem? xs i ≡ none
get_elem?_out [] i h = refl
get_elem?_out (x ∷ xs) zero h = absurd (omega arith)
get_elem?_out (x ∷ xs) (suc i) h = get_elem?_out xs i (omega arith)

-- Behind a single byte of data the iterator stands past it.
ptr-next_single :
    (src : RoundBuffer)
    → IsValid src
    → src.length ≡ 1
    → (buf_iter_next (get_read_iter src)).1.ptr ≡ src.offset + 1
unfolding get_read_iter buf_iter_next buf_reading_iov
ptr-next_single src v h = ground arith

split_body :
    (src : List ℕ) (s : Decoder) (p : ℕ)
    → get_elem? src s.src_it.ptr ≡ some esc_byte
    → (buf_iter_next s.src_it).1.ptr ≡ p
    → get_elem? src p ≡ none
    → decode_body src s ≡ none
unfolding decode_body
split_body src s p e f g = rw (e, f, g)

split_loop :
    (fuel : ℕ) (src : List ℕ) (s : Decoder)
    → 0 < s.dst_rem
    → decode_body src s ≡ none
    → decode_loop (suc fuel) src s ≡ none
unfolding decode_loop
split_loop fuel src s h e = rw (ne_zero s.dst_rem (omega arith), e)

-- An ESC that is the last byte available and stands at the end of the storage: if `dst` has room,
-- `decode` goes on to read the byte behind it, outside of the storage.
pub decode_split_escape :
    (src dst : RoundBuffer)
    → IsValid src
    → IsValid dst
    → dst.length < dst.capacity
    → contents src ≡ esc_byte ∷ []
    → src.offset + 1 ≡ src.capacity
    → decode src dst ≡ none
unfolding decode
decode_split_escape src dst vs vd room c last = rw (
    split_loop (buf_free_length dst) src.buffer (begun src dst (buf_free_length dst))
      (omega (arith, buf_free_length_lem dst vd))
      (split_body src.buffer (begun src dst (buf_free_length dst)) (src.offset + 1)
        (get_or-contents src vs (omega (arith, single))
          ∙ ap (λ (l : List ℕ). some (get_or l 0 0)) c)
        (ptr-next_single src vs single) (get_elem?_out src.buffer (src.offset + 1) (omega arith))))
  where
    single : src.length ≡ 1
    single = omega (arith, ap (λ (l : List ℕ). length l) c, length-contents src)
