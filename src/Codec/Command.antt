-- ===== src/Codec/Command.antt =====
-- `encode_command` appends one command to the tunnel's buffer.
use os_tasks.Prelude.{
  ℕ, ◌+◌, ◌-◌, ◌≤◌, ◌<◌, ◌≡◌, ap, true, false, some, List, [], ◌∷◌, arith, ltb, lt→ltb,
  if◌then◌else◌, length, set, length-set, fill, positions, length-positions,
}
use native.Mathlib.Decide.{dec_lt}
use os_tasks.RoundBuffer.{RoundBuffer}
use os_tasks.RoundBuffer.Inv.{IsValid, IsUnwrapped}
use os_tasks.RoundBuffer.Writing.{appended, buf_free_length_lem, buf_advance_write_ptr-appended}
use os_tasks.BufIter.{BufIter, buf_iter_next, get_write_iter}
use os_tasks.BufIter.Walk.{Walks, get_write_iter-Walks}
use os_tasks.Codec.{emit_all, encode_command, end_byte}
use os_tasks.Codec.Emit.{emit_lem, fill-nil}
use os_tasks.Codec.Escape.{le→ltb}

abbrev command_bytes : ℕ → ℕ → List ℕ
command_bytes cmd arg = end_byte ∷ 0 ∷ cmd ∷ arg ∷ end_byte ∷ []

emit_all_lem :
    (n : ℕ) (mem : List ℕ) (it : BufIter) (qs xs : List ℕ)
    → length xs ≤ length qs
    → Walks n it qs
    → n ≤ length mem
    → (it' : BufIter) × (emit_all xs (mem, it) ≡ some (fill mem qs xs, it'))
unfolding fill emit_all
emit_all_lem n mem it qs [] h w l = (it, rw (fill-nil mem qs))
emit_all_lem n mem it [] (x ∷ xs) h w l = absurd (omega arith)
emit_all_lem n mem it (q ∷ qs) (x ∷ xs) h w l =
    let (it', e) =
      emit_all_lem n (set mem q x) (buf_iter_next it).1 qs xs (omega arith) w.3
        (omega (arith, length-set mem q x)) in
    (it', rw (emit_lem x n mem it q qs w l) e)

-- `encode_command` puts END, 0, the command, its argument and END into the tunnel's buffer and
-- returns 1, if there is room for these 5 bytes; else it returns 0 and changes nothing.
pub encode_command_lem :
    (buf : RoundBuffer) (cmd arg : ℕ)
    → IsValid buf
    → IsUnwrapped buf
    → encode_command buf cmd arg
      ≡ some (
          if ltb (buf.capacity - buf.length) 5
          then (false, buf)
          else (true, appended buf (end_byte ∷ 0 ∷ cmd ∷ arg ∷ end_byte ∷ [])))
unfolding encode_command
encode_command_lem buf cmd arg v u = elim (dec_lt (buf.capacity - buf.length) 5) [
  | yes h ↦ rw (buf_free_length_lem buf v, lt→ltb (buf.capacity - buf.length) 5 h)
  | no h ↦
      rw (buf_free_length_lem buf v, le→ltb (buf.capacity - buf.length) 5 (omega arith), (puts h).1)
        (ap (λ (b : RoundBuffer). some (true, b))
          (buf_advance_write_ptr-appended buf (command_bytes cmd arg) v (omega arith)))
]
  where
    puts :
        ¬ (buf.capacity - buf.length < 5)
        → (it' : BufIter) × (emit_all (command_bytes cmd arg) (buf.buffer, get_write_iter buf)
            ≡ some (
              fill buf.buffer
                  (positions buf.capacity (buf.offset + buf.length) (buf.capacity - buf.length))
                  (command_bytes cmd arg),
              it',
            ))
    puts h =
        emit_all_lem buf.capacity buf.buffer (get_write_iter buf)
          (positions buf.capacity (buf.offset + buf.length) (buf.capacity - buf.length))
          (command_bytes cmd arg)
          (omega (
            arith,
            length-positions buf.capacity (buf.offset + buf.length) (buf.capacity - buf.length),
          ))
          (get_write_iter-Walks buf v u (omega arith)) (omega arith)
