-- ===== src/Codec.antt =====
-- 34-35. Port forwarding/pump.c, `encode`, `decode` and `encode_command`: messages of the tunnel.
-- A message is END, the connection's id, its bytes with END and ESC escaped by ESC, and END; id 0
-- marks a command. The functions move bytes between two different buffers and return both; `none`
-- is an access outside of a buffer's storage. A loop runs on fuel, which is above `dst_rem` at the
-- start; `dst_rem` falls in every round, and `none` would also be the end of the fuel.
pub mod Escape
pub mod Emit
pub mod EncodeRound
pub mod EncodeLoop
pub mod EncodeCore
pub mod Encoding
pub mod Refusal
pub mod Command
pub mod DecodeRound
pub mod DecodeLoop
pub mod Decoding
pub mod RoundTrip
pub mod SplitEscape
mod Tests
use os_tasks.Prelude.{
  ℕ, zero, suc, ◌+◌, ◌-◌, Bool, true, false, ◌&&◌, ◌||◌, Option, none, some, ◌>>=◌, List, [], ◌∷◌,
  ltb, ◌==◌, if◌then◌else◌, add_size, sub_size, store, get_elem?,
}
use os_tasks.RoundBuffer.{RoundBuffer, buf_free_length, buf_advance_read_ptr, buf_advance_write_ptr}
use os_tasks.BufIter.{BufIter, buf_iter_next, get_read_iter, get_write_iter}

abbrev pub end_byte : ℕ
end_byte = 0x7e

abbrev pub esc_byte : ℕ
esc_byte = 0x7f

-- The local variables of `encode`, with the destination's storage.
pub record Encoder : Type 0 where
  pub src_it : BufIter
  pub dst_it : BufIter
  pub dst_mem : List ℕ
  pub dst_rem : ℕ
  pub src_total : ℕ
  pub dst_total : ℕ

-- `*it.ptr = x; buf_iter_next(&it)`
pub emit : ℕ → List ℕ × BufIter → Option (List ℕ × BufIter)
unfolding store
emit x (mem, it) = store mem it.ptr x >>= λ mem. some (mem, (buf_iter_next it).1)

-- The same at the destination of `encode`, with `dst_total++`.
pub put_byte : ℕ → Encoder → Option Encoder
put_byte x s = emit x (s.dst_mem, s.dst_it) >>= λ (mem, it).
    some (record s { dst_mem = mem; dst_it = it; dst_total = add_size s.dst_total 1 })

-- The body of the loop; the result is false where it breaks.
pub encode_body : (src : List ℕ) → Encoder → Option (Bool × Encoder)
encode_body src s = get_elem? src s.src_it.ptr >>= λ b.
    let special = (b == esc_byte) || (b == end_byte) in
    if special && ltb s.dst_rem 2
    then some (false, s)
    else (if special
        then put_byte esc_byte (record s { dst_rem = sub_size s.dst_rem 1 })
        else some s)
      >>= λ s.
          put_byte b
            (record s { dst_rem = sub_size s.dst_rem 1; src_total = add_size s.src_total 1 })
          >>= λ s.
              let (more, src_it) = buf_iter_next s.src_it in
              some (more, record s { src_it = src_it })

pub encode_loop : ℕ → (src : List ℕ) → Encoder → Option Encoder
encode_loop zero src s = none
encode_loop (suc fuel) src s =
    if s.dst_rem == 0
    then some s
    else encode_body src s >>= λ (more, s'). elim more [
      | true ↦ encode_loop fuel src s'
      | false ↦ some s'
    ]

-- `first` is a byte, so it is never -1.
pub encode : (src dst : RoundBuffer) (connection_id : ℕ) → Option (Bool × RoundBuffer × RoundBuffer)
encode src dst connection_id =
    if src.length == 0
    then some (true, src, dst)
    else let dst_avail = buf_free_length dst in
      let src_it = get_read_iter src in
      get_elem? src.buffer src_it.ptr >>= λ first.
      if ltb dst_avail 4 || ((first == esc_byte) && ltb dst_avail 5)
      then some (false, src, dst)
      else put_byte end_byte (record {
        src_it = src_it;
        dst_it = get_write_iter dst;
        dst_mem = dst.buffer;
        dst_rem = sub_size dst_avail 3;
        src_total = 0;
        dst_total = 0;
      })
        >>= λ s. put_byte connection_id s >>= λ s. encode_loop (suc dst_avail) src.buffer s >>= λ s.
            store s.dst_mem s.dst_it.ptr end_byte >>= λ mem. some (
              true,
              (buf_advance_read_ptr src s.src_total).1,
              (buf_advance_write_ptr (record dst { buffer = mem }) (add_size s.dst_total 1)).1,
            )

-- The local variables of `decode`, with the destination's storage.
pub record Decoder : Type 0 where
  pub src_it : BufIter
  pub dst_it : BufIter
  pub dst_mem : List ℕ
  pub dst_rem : ℕ
  pub src_total : ℕ
  pub dst_total : ℕ
  pub end_reached : Bool

pub decode_body : (src : List ℕ) → Decoder → Option (Bool × Decoder)
decode_body src s = get_elem? src s.src_it.ptr >>= λ b.
    let s = record s { src_total = add_size s.src_total 1 } in
    if b == end_byte
    then some (false, record s { end_reached = true })
    else (if b == esc_byte
        then (let it = (buf_iter_next s.src_it).1 in
            get_elem? src it.ptr >>= λ b.
            some (b, record s { src_it = it; src_total = add_size s.src_total 1 }))
        else some (b, s))
      >>= λ (b, s). emit b (s.dst_mem, s.dst_it) >>= λ (mem, dst_it).
          let (more, src_it) = buf_iter_next s.src_it in
          some (
            more,
            record s {
              dst_mem = mem;
              dst_it = dst_it;
              dst_total = add_size s.dst_total 1;
              dst_rem = sub_size s.dst_rem 1;
              src_it = src_it;
            },
          )

pub decode_loop : ℕ → (src : List ℕ) → Decoder → Option Decoder
decode_loop zero src s = none
decode_loop (suc fuel) src s =
    if s.dst_rem == 0
    then some s
    else decode_body src s >>= λ (more, s'). elim more [
      | true ↦ decode_loop fuel src s'
      | false ↦ some s'
    ]

-- Whether the end of the message was reached, and the two buffers.
pub decode : (src dst : RoundBuffer) → Option (Bool × RoundBuffer × RoundBuffer)
decode src dst =
    let dst_rem = buf_free_length dst in
    decode_loop (suc dst_rem) src.buffer (record {
      src_it = get_read_iter src;
      dst_it = get_write_iter dst;
      dst_mem = dst.buffer;
      dst_rem = dst_rem;
      src_total = 0;
      dst_total = 0;
      end_reached = false;
    })
    >>= λ s. some (
      s.end_reached,
      (buf_advance_read_ptr src s.src_total).1,
      (buf_advance_write_ptr (record dst { buffer = s.dst_mem }) s.dst_total).1,
    )

-- The same for bytes one after the other.
pub emit_all : List ℕ → List ℕ × BufIter → Option (List ℕ × BufIter)
emit_all [] s = some s
emit_all (x ∷ xs) s = emit x s >>= λ s'. emit_all xs s'

-- The result is 0 if there is no room in the tunnel's buffer.
pub encode_command : (buf : RoundBuffer) (cmd arg : ℕ) → Option (Bool × RoundBuffer)
encode_command buf cmd arg =
    if ltb (buf_free_length buf) 5
    then some (false, buf)
    else emit_all (end_byte ∷ 0 ∷ cmd ∷ arg ∷ end_byte ∷ []) (buf.buffer, get_write_iter buf)
      >>= λ (mem, it). some (true, (buf_advance_write_ptr (record buf { buffer = mem }) 5).1)
