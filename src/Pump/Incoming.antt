-- ===== src/Pump/Incoming.antt =====
-- What `recv_from_tunnel` does with the messages in the tunnel's buffer.
use os_tasks.Prelude.{
  ne_zero, ℕ, ◌-◌, ◌%◌, ◌≤◌, ◌<◌, ◌≡◌, ◌≢◌, refl, ap, ◌∙◌, Bool, Option, some, ◌>>=◌, List, [], ◌∷◌,
  ◌++◌, arith, lt→ltb, ◌==◌, if◌then◌else◌, length, take, drop, get_elem?, set, get_elem?-set_ne,
  pos, negsuc,
}
use os_tasks.RoundBuffer.{RoundBuffer, buf_empty, buf_data_length, buf_advance_read_ptr}
use os_tasks.RoundBuffer.Inv.{IsValid, IsUnwrapped, contents, length-contents}
use os_tasks.RoundBuffer.Reading.{buf_peek_lem, buf_peek_byte_lem, buf_advance_read_ptr_lem}
use os_tasks.Codec.{end_byte, decode}
use os_tasks.Codec.Escape.{escape, le→ltb}
use os_tasks.Codec.DecodeLoop.{Stops, end_length}
use os_tasks.Codec.Decoding.{decode_unescapes}
use os_tasks.Connection.{Connection}
use os_tasks.Pump.{
  World, running, with_sending_to, with_objects, skip, decode_to, continue_message, next_message,
  receive_message, receive_command, recv_from_tunnel,
}
use os_tasks.Prelude.Updates.{set-set}
use os_tasks.Pump.Objects.{modify_lem}

-- The world after bytes have gone from the tunnel's buffer to the buffer of connection `c`.
abbrev pub delivered :
    {R : Type 0}
    → World R
    → (tunnel : ℕ) → Connection
    → (c : ℕ) → Connection
    → RoundBuffer
    → RoundBuffer
    → World R
delivered w tunnel t c d in_buf out_buf = record w {
  objects =
      set (set w.objects tunnel (record t { in_buf = in_buf })) c (record d { out_buf = out_buf });
}

module _ {R : Type 0} (w : World R) (tunnel c : ℕ) (t d : Connection)
    (at : get_elem? w.objects tunnel ≡ some t) (at_c : get_elem? w.objects c ≡ some d)
    (apart : tunnel ≢ c) where
  decode_to_delivers :
      (e : Bool) (in_buf out_buf : RoundBuffer)
      → decode t.in_buf d.out_buf ≡ some (e, in_buf, out_buf)
      → decode_to tunnel c w ≡ some (e, delivered w tunnel t c d in_buf out_buf)
  unfolding decode_to
  decode_to_delivers e in_buf out_buf run = rw (
    at,
    at_c,
    run,
    (modify_lem tunnel (λ t'. record t' { in_buf = in_buf }) w.objects t at).0,
    (modify_lem c (λ d'. record d' { out_buf = out_buf })
        (set w.objects tunnel (record t { in_buf = in_buf })) d
        (get_elem?-set_ne w.objects (record t { in_buf = in_buf }) apart ∙ at_c)).0,
  )

skip_lem :
    {R : Type 0} (w : World R) (tunnel n : ℕ) (t : Connection)
    → get_elem? w.objects tunnel ≡ some t
    → skip tunnel n w
      ≡ some (
          with_objects w
            (set w.objects tunnel (record t { in_buf = (buf_advance_read_ptr t.in_buf n).1 })))
unfolding skip
skip_lem w tunnel n t at = rw (
    (modify_lem tunnel (λ c. record c { in_buf = (buf_advance_read_ptr c.in_buf n).1 }) w.objects t
      at).0)

three_bytes :
    (x y : ℕ) (ws : List ℕ) → 0 < length ws → (z : ℕ) × (take 3 (x ∷ y ∷ ws) ≡ x ∷ y ∷ z ∷ [])
three_bytes x y [] h = absurd (omega arith)
three_bytes x y (z ∷ ws) h = (z, refl)

abbrev pub Handler : Type 0 → Type 0
Handler R = (cmd arg : ℕ) → World R → Option (World R)

module _ {R : Type 0} (handler : Handler R) (w : World R) (tunnel : ℕ) (t : Connection)
    (connections : List (Option ℕ)) (at : get_elem? w.objects tunnel ≡ some t)
    (vt : IsValid t.in_buf) (enough : 3 < t.in_buf.length) where
  -- Between two messages, the first three bytes decide.
  recv_next :
      (id x : ℕ)
      → w.pump.sending_to ≡ negsuc 0
      → take 3 (contents t.in_buf) ≡ end_byte ∷ id ∷ x ∷ []
      → recv_from_tunnel handler tunnel connections w ≡ (
          if id == 0
          then receive_command handler tunnel x t.in_buf.length w
          else receive_message tunnel connections id w)
  unfolding recv_from_tunnel continue_message next_message buf_empty buf_data_length
  recv_next id x idle e = rw (
    at,
    ne_zero t.in_buf.length (λ z. omega arith),
    idle,
    at,
    lt→ltb 3 t.in_buf.length enough,
    buf_peek_lem t.in_buf 3 vt,
    ne_zero t.in_buf.length (λ z. omega arith),
    e,
  )

  -- Between two messages, with END, 0, a command, its argument and END in front in the tunnel's
  -- valid buffer: `recv_from_tunnel` takes three bytes, calls the handler once with the command
  -- and its argument (as a byte), and takes two more bytes out of what the handler leaves. If the
  -- handler leaves the tunnel's buffer alone, exactly what stood behind the command is left in it.
  pub recv_command :
      (cmd arg : ℕ) (zs : List ℕ)
      → w.pump.sending_to ≡ negsuc 0
      → contents t.in_buf ≡ end_byte ∷ 0 ∷ cmd ∷ arg ∷ end_byte ∷ zs
      → (b : RoundBuffer) × (recv_from_tunnel handler tunnel connections w ≡ (
          handler cmd (arg % 256) (with_objects w (set w.objects tunnel (record t { in_buf = b })))
          >>= λ w. skip tunnel 2 w >>= λ w. some (running w)))
        × (contents b ≡ arg ∷ end_byte ∷ zs)
        × (contents (buf_advance_read_ptr b 2).1 ≡ zs)
        × IsValid (buf_advance_read_ptr b 2).1
  unfolding receive_command
  recv_command cmd arg zs idle holds =
      let adv = buf_advance_read_ptr_lem t.in_buf 3 vt in
      let b = (buf_advance_read_ptr t.in_buf 3).1 in
      let left = buf_advance_read_ptr_lem b 2 adv.valid in
      let now : contents b ≡ arg ∷ end_byte ∷ zs = adv.holds ∙ ap (drop 3) holds in
      (
        b,
        recv_next 0 cmd idle (ap (take 3) holds)
            ∙ rw (
              le→ltb t.in_buf.length 5
                  (omega (arith, length-contents t.in_buf, ap (λ (l : List ℕ). length l) holds)),
              skip_lem w tunnel 3 t at,
              (modify_lem tunnel (λ x. record t { in_buf = b }) w.objects t at).1,
              buf_peek_byte_lem b adv.valid,
              now,
            ),
        now,
        left.holds ∙ ap (drop 2) now,
        left.valid,
      )

  module _ (c : ℕ) (d : Connection) (id : ℕ) (ys zs : List ℕ) (e : Bool)
      (at_c : get_elem? w.objects c ≡ some d) (apart : tunnel ≢ c) (vd : IsValid d.out_buf)
      (ud : IsUnwrapped d.out_buf) (listed : get_elem? connections id ≡ some (some c))
      (is_data : id ≢ 0) (idle : w.pump.sending_to ≡ negsuc 0)
      (holds : contents t.in_buf ≡ end_byte ∷ id ∷ (escape ys ++ zs))
      (fits_in : length ys ≤ d.out_buf.capacity - d.out_buf.length)
      (stops : Stops e zs (d.out_buf.capacity - d.out_buf.length - length ys)) where
    receive_message_delivers :
        (in_buf out_buf : RoundBuffer)
        → decode (buf_advance_read_ptr t.in_buf 2).1 d.out_buf ≡ some (e, in_buf, out_buf)
        → receive_message tunnel connections id w
          ≡ some (
              running (
                if e
                then delivered w tunnel t c d in_buf out_buf
                else with_sending_to (delivered w tunnel t c d in_buf out_buf) (pos id)))
    unfolding receive_message
    receive_message_delivers in_buf out_buf run =
        let t1 : Connection = record t { in_buf = (buf_advance_read_ptr t.in_buf 2).1 } in
        rw (
          listed,
          skip_lem w tunnel 2 t at,
          decode_to_delivers (with_objects w (set w.objects tunnel t1)) tunnel c t1 d
              (modify_lem tunnel (λ x. t1) w.objects t at).1
              (get_elem?-set_ne w.objects t1 apart ∙ at_c) apart e in_buf out_buf run,
          set-set w.objects tunnel t1 (record t { in_buf = in_buf }),
        )

    -- Between two messages, with more than three bytes in the tunnel's buffer, of which the first
    -- are END, the id of a listed connection (not 0, and not the tunnel), and the escaped form of
    -- `ys`, for which that connection's buffer has room, both buffers being valid and the
    -- connection's data not going round the end: `recv_from_tunnel` moves exactly `ys` behind the
    -- data of that connection's buffer and changes nothing else. If END follows and there is room
    -- left, it takes END too and is between two messages again; if the data or the room ends
    -- there, it notes the connection as the one to go on with.
    pub recv_data :
        (in_buf : RoundBuffer) × (out_buf : RoundBuffer) × (recv_from_tunnel handler tunnel
            connections w
          ≡ some (
              running (
                if e
                then delivered w tunnel t c d in_buf out_buf
                else with_sending_to (delivered w tunnel t c d in_buf out_buf) (pos id))))
        × (contents in_buf ≡ drop (end_length e) zs)
        × (contents out_buf ≡ contents d.out_buf ++ ys)
        × IsValid in_buf
        × IsValid out_buf
    recv_data =
        let adv = buf_advance_read_ptr_lem t.in_buf 2 vt in
        let (in_buf, out_buf, run, hi, ho, vi, vo) =
          decode_unescapes (buf_advance_read_ptr t.in_buf 2).1 d.out_buf ys zs e adv.valid vd ud
            (omega (arith, adv.length_left)) (adv.holds ∙ ap (drop 2) holds) fits_in stops in
        let (x, three) =
          three_bytes end_byte id (escape ys ++ zs)
            (omega (arith, length-contents t.in_buf, ap (λ (l : List ℕ). length l) holds)) in
        (
          in_buf,
          out_buf,
          recv_next id x idle (ap (take 3) holds ∙ three)
              ∙ rw (ne_zero id is_data) (receive_message_delivers in_buf out_buf run),
          hi,
          ho,
          vi,
          vo,
        )
