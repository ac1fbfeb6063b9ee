-- ===== src/Codec/Decoding.antt =====
-- `decode` takes one message apart, also where it arrives or is taken in parts.
use os_tasks.Prelude.{
  ℕ, suc, ◌+◌, ◌-◌, ◌≤◌, ◌<◌, ◌≡◌, refl, sym, ap, ◌∙◌, Bool, false, some, List, ◌++◌, arith, length,
  positions, length-positions, drop, drop-append_length,
}
use native.Mathlib.Decide.{ℕ_discrete}
use os_tasks.RoundBuffer.{RoundBuffer, buf_advance_read_ptr}
use os_tasks.RoundBuffer.Inv.{IsValid, IsUnwrapped, contents}
use os_tasks.RoundBuffer.Reading.{Advanced, buf_advance_read_ptr_lem}
use os_tasks.RoundBuffer.Writing.{
  Appended, appended, appended-Appended, buf_free_length_lem, buf_advance_write_ptr-appended,
}
use os_tasks.BufIter.{get_read_iter, get_write_iter}
use os_tasks.BufIter.Walk.{Walks, get_read_iter-Walks, get_write_iter-Walks}
use os_tasks.Codec.{Decoder, decode}
use os_tasks.Codec.Emit.{drop-drop}
use os_tasks.Codec.Escape.{escape}
use os_tasks.Codec.DecodeLoop.{Stops, end_length, LoopDecodes, decode_loop_lem}

-- The state of `decode` before its loop.
abbrev pub begun : RoundBuffer → RoundBuffer → ℕ → Decoder
begun src dst free = record {
  src_it = get_read_iter src;
  dst_it = get_write_iter dst;
  dst_mem = dst.buffer;
  dst_rem = free;
  src_total = 0;
  dst_total = 0;
  end_reached = false;
}

module _ (src dst : RoundBuffer) (ys zs : List ℕ) (e : Bool) (vs : IsValid src) (vd : IsValid dst)
    (u : IsUnwrapped dst) (some_data : 0 < src.length) (holds : contents src ≡ escape ys ++ zs)
    (fits_in : length ys ≤ dst.capacity - dst.length)
    (stops : Stops e zs (dst.capacity - dst.length - length ys)) where
  abbrev places : List ℕ
  places = positions dst.capacity (dst.offset + dst.length) (dst.capacity - dst.length)

  writing_now : Walks dst.capacity (get_write_iter dst) places
  unfolding positions
  writing_now = elim (ℕ_discrete (dst.capacity - dst.length) 0) [
    | yes full ↦ rw full tt
    | no room ↦ get_write_iter-Walks dst vd u (omega arith)
  ]

  decodes :
      LoopDecodes
        (suc (dst.capacity - dst.length))
        src.buffer
        (begun src dst (dst.capacity - dst.length))
        places
        ys
        e
  decodes =
      decode_loop_lem (suc (dst.capacity - dst.length)) src.capacity dst.capacity src.buffer places
        ys zs e (begun src dst (dst.capacity - dst.length))
        (positions src.capacity src.offset src.length)
        (record {
          reading = get_read_iter-Walks src vs some_data;
          src_in = omega arith;
          writing = writing_now;
          dst_in = omega arith;
          room = omega (
            arith,
            length-positions dst.capacity (dst.offset + dst.length) (dst.capacity - dst.length),
          );
          dst_small = omega arith;
          src_small = omega (arith, length-positions src.capacity src.offset src.length);
        })
        refl holds fits_in stops (omega arith)
        (omega (arith, length-positions src.capacity src.offset src.length))

  total_read : decodes.0.src_total ≡ length (escape ys) + end_length e
  total_read = omega (arith, decodes.2.src_total)

  total_written : decodes.0.dst_total ≡ length ys
  total_written = omega (arith, decodes.2.dst_total)

  decode_lem :
      decode src dst
      ≡ some (e, (buf_advance_read_ptr src (length (escape ys) + end_length e)).1, appended dst ys)
  unfolding decode
  decode_lem =
      rw
        (
          buf_free_length_lem dst vd,
          decodes.1,
          decodes.2.end_reached,
          total_read,
          decodes.2.mem,
          total_written,
        )
        (ap
          (λ (b : RoundBuffer).
            some (e, (buf_advance_read_ptr src (length (escape ys) + end_length e)).1, b))
          (buf_advance_write_ptr-appended dst ys vd fits_in))

  -- With valid buffers, data that begins with the escaped form of `ys`, room for `ys` in `dst`,
  -- and the data of `dst` not going round the end: if an END follows and there is room left,
  -- `decode` returns 1 and takes the END too; if the data or the room ends there, it returns 0. It
  -- moves exactly the bytes `ys` to the end of `dst`, and both buffers stay valid.
  pub decode_unescapes :
      (src' : RoundBuffer) × (dst' : RoundBuffer) × (decode src dst ≡ some (e, src', dst'))
      × (contents src' ≡ drop (end_length e) zs)
      × (contents dst' ≡ contents dst ++ ys)
      × IsValid src'
      × IsValid dst'
  decode_unescapes = (
    (buf_advance_read_ptr src (length (escape ys) + end_length e)).1,
    appended dst ys,
    decode_lem,
    left.holds
        ∙ ap (drop (length (escape ys) + end_length e)) holds
        ∙ sym (drop-drop (length (escape ys)) (end_length e) (escape ys ++ zs))
        ∙ ap (drop (end_length e)) (drop-append_length (escape ys) zs),
    put.holds,
    left.valid,
    put.valid,
  )
    where
      left :
          Advanced src
            (length (escape ys) + end_length e)
            (buf_advance_read_ptr src (length (escape ys) + end_length e))
      left = buf_advance_read_ptr_lem src (length (escape ys) + end_length e) vs

      put : Appended dst ys (appended dst ys)
      put = appended-Appended dst ys vd (omega arith)
