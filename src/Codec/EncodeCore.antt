-- ===== src/Codec/EncodeCore.antt =====
-- The calls that `encode` makes once there is data and room, over the places of its iterators.
use os_tasks.Prelude.{
  ne_zero, ◌||◌, ◌&&◌, store, ℕ, zero, suc, ◌+◌, ◌-◌, ◌^◌, ◌≤◌, ◌<◌, ◌≡◌, refl, sym, ap, true,
  false, some, List, [], ◌∷◌, ◌++◌, arith, ltb, ◌==◌, length, length-append, ◌≢◌, take, drop, set,
  length-set, get_or, get_elem?, get_elem?-eq-get_or, fill, reads, length-fill, store-eq-set,
  add_size, sub_size,
}
use mathlib.Core.Path.{subst}
use os_tasks.RoundBuffer.{RoundBuffer, buf_free_length, buf_advance_read_ptr, buf_advance_write_ptr}
use os_tasks.BufIter.{BufIter, get_read_iter, get_write_iter}
use os_tasks.BufIter.Walk.{Walks}
use os_tasks.Codec.{Encoder, encode, end_byte, esc_byte}
use os_tasks.Codec.Escape.{message, escape, fits, length-escape-fits}
use os_tasks.Codec.Emit.{fill-nil, fill-append}
use os_tasks.Codec.EncodeRound.{put_byte_lem, after_put}
use os_tasks.Codec.EncodeLoop.{encode_loop_lem, LoopPuts}

-- The place after `k` of a longer list of places.
pub drop-cons :
    (k : ℕ) (qs : List ℕ) → k < length qs → (q : ℕ) × (rest : List ℕ) × (drop k qs ≡ q ∷ rest)
drop-cons k [] h = absurd (omega arith)
drop-cons zero (q ∷ qs) h = (q, qs, refl)
drop-cons (suc k) (q ∷ qs) h = drop-cons k qs (omega arith)

-- One more byte, at the place where the iterator stands.
pub store_last :
    (n : ℕ) (mem : List ℕ) (it : BufIter) (qs es : List ℕ) (x : ℕ)
    → Walks n it (drop (length es) qs)
    → length es < length qs
    → n ≤ length mem
    → store (fill mem qs es) it.ptr x ≡ some (fill mem qs (es ++ (x ∷ [])))
unfolding fill
store_last n mem it qs es x w h l =
    let (q, rest, e) = drop-cons (length es) qs h in
    let w' : Walks n it (q ∷ rest) = subst (Walks n it) e w in
    rw
      (
        w'.0,
        store-eq-set (fill mem qs es) q x (omega (arith, length-fill mem qs es)),
        fill-append mem qs es (x ∷ []),
        e,
      )
      (ap some (sym (fill-nil (set (fill mem qs es) q x) rest)))

module _ (src dst : RoundBuffer) (id m n free p q q' : ℕ) (ps qs : List ℕ)
    (reading : Walks m (get_read_iter src) (p ∷ ps)) (src_in : m ≤ length src.buffer)
    (writing : Walks n (get_write_iter dst) (q ∷ q' ∷ qs)) (dst_in : n ≤ length dst.buffer)
    (some_data : src.length ≢ 0) (free_is : buf_free_length dst ≡ free) (enough : 4 ≤ free)
    (places : free ≡ length qs + 2) (small : free ≤ 2 ^ 62)
    (first_fits : (ltb free 4 || ((get_or src.buffer p 0 == esc_byte) && ltb free 5)) ≡ false) where
  abbrev pub bytes : List ℕ
  bytes = reads 0 src.buffer (p ∷ ps)

  abbrev pub taken : ℕ
  taken = fits (free - 3) bytes

  abbrev started : Encoder
  started = record {
    src_it = get_read_iter src;
    dst_it = get_write_iter dst;
    dst_mem = dst.buffer;
    dst_rem = sub_size free 3;
    src_total = 0;
    dst_total = 0;
  }

  abbrev headed : Encoder
  headed = after_put (after_put started q end_byte) q' id

  encode_puts : LoopPuts (suc free) n src.buffer headed bytes qs
  encode_puts =
      encode_loop_lem (suc free) m n src.buffer headed p ps qs
        (record {
          reading = reading;
          src_in = src_in;
          writing = writing.3.3;
          dst_in = omega (
            arith,
            length-set dst.buffer q end_byte,
            length-set (set dst.buffer q end_byte) q' id,
          );
          room = omega arith;
          small = omega arith;
          totals = omega arith;
        })
        (omega arith)

  load_first : get_elem? src.buffer (get_read_iter src).ptr ≡ some (get_or src.buffer p 0)
  load_first = rw reading.0 (get_elem?-eq-get_or src.buffer p 0 (omega arith))

  abbrev taken_now : ℕ
  taken_now = fits headed.dst_rem bytes

  abbrev body : List ℕ
  body = escape (take taken_now bytes)

  closing :
      store encode_puts.0.dst_mem encode_puts.0.dst_it.ptr end_byte
      ≡ some (fill headed.dst_mem qs (body ++ (end_byte ∷ [])))
  closing = rw encode_puts.2.mem (
      store_last n headed.dst_mem encode_puts.0.dst_it qs body end_byte encode_puts.2.walks
        (omega (arith, length-escape-fits headed.dst_rem bytes))
        (omega
          (arith, length-set dst.buffer q end_byte, length-set (set dst.buffer q end_byte) q' id)))

  same_taken : taken_now ≡ taken
  same_taken = ap (λ k. fits k bytes) (omega arith)

  total_read : encode_puts.0.src_total ≡ taken
  total_read = omega (arith, encode_puts.2.src_total, same_taken)

  total_written : add_size encode_puts.0.dst_total 1 ≡ length (message id (take taken bytes))
  unfolding message
  total_written = omega (
    arith,
    encode_puts.2.dst_total,
    ap (λ k. length (escape (take k bytes))) same_taken,
    length-append (escape (take taken bytes)) (end_byte ∷ []),
    length-escape-fits headed.dst_rem bytes,
  )

  pub encode_core :
      encode src dst id
      ≡ some (
        true,
        (buf_advance_read_ptr src taken).1,
        (buf_advance_write_ptr
            (record dst { buffer = fill dst.buffer (q ∷ q' ∷ qs) (message id (take taken bytes)) })
            (length (message id (take taken bytes)))).1,
      )
  unfolding encode fill message
  encode_core = rw (
    ne_zero src.length some_data,
    load_first,
    free_is,
    first_fits,
    put_byte_lem end_byte n started q (q' ∷ qs) writing dst_in,
    put_byte_lem id n (after_put started q end_byte) q' qs writing.3
        (omega (arith, length-set dst.buffer q end_byte)),
    encode_puts.1,
    closing,
    total_read,
    total_written,
    same_taken,
  )
