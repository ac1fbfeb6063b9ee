-- ===== src/Pump.antt =====
-- 34-35. Port forwarding/pump.c, `struct pump` and its transfer: from the tunnel to the connections,
-- and from the command queue and the connections to the tunnel. A `struct connection *` is an
-- index in `objects`, the connections of the manager, so that the pump and the command handler
-- share them; `rest` is what else the handler works on. The handler is an argument. `none` is the
-- use of a null pointer or an access outside of an array.
pub mod Objects
pub mod Commands
pub mod Incoming
pub mod Rounds
mod Tests
use os_tasks.Prelude.{
  ℕ, zero, suc, ◌+◌, ◌-◌, ◌%◌, Bool, true, false, not, ◌||◌, Option, none, some, ◌>>=◌, List, [],
  ◌∷◌, ltb, ◌==◌, if◌then◌else◌, ℤ, pos, negsuc, get_elem?, store,
}
use os_tasks.RoundBuffer.{
  RoundBuffer, buf_empty, buf_data_length, buf_peek, buf_peek_byte, buf_advance_read_ptr,
}
use os_tasks.CmdQueue.{
  Command, command, CmdQueue, make_cmd_queue, cmdq_length, cmdq_enqueue, cmdq_dequeue,
}
use os_tasks.Codec.{encode, decode, encode_command, end_byte}
use os_tasks.Connection.{Connection, is_alive, is_negative}

-- `struct pump`, without the handler.
pub record Pump : Type 0 where
  pub sending_to : ℤ
  pub current_index : ℕ
  pub cmd_queue : CmdQueue

-- The pump with the connections, and the rest of the program's state.
pub record World (R : Type 0) : Type 0 where
  pub pump : Pump
  pub objects : List Connection
  pub rest : R

-- `exited` is `exit(2)`, after a violation of the protocol.
pub data Progress (R : Type 0) : Type 0 where
  running : World R → Progress R
  exited : Progress R

-- What the calls of `malloc` give: the two of `make_cmd_queue`, and that of the pump.
unfoldable pub make_pump :
    (queue : Option (List Command)) (q_allocated pump_allocated : Bool) (cmd_queue_size : ℕ)
    → Option Pump
make_pump queue q_allocated pump_allocated cmd_queue_size =
    make_cmd_queue queue q_allocated cmd_queue_size >>= λ q.
    if pump_allocated
    then some (record { sending_to = negsuc 0; current_index = 0; cmd_queue = q })
    else none

unfoldable pub send_command : Pump → (cmd arg : ℕ) → Option (Bool × Pump)
send_command pump cmd arg = cmdq_enqueue pump.cmd_queue (command cmd arg) >>= λ (res, q).
    some (res, record pump { cmd_queue = q })

-- `f` at a connection.
unfoldable pub modify : ℕ → (Connection → Connection) → List Connection → Option (List Connection)
modify addr f objects = get_elem? objects addr >>= λ c. store objects addr (f c)

-- `(uint8_t) n`
abbrev pub to_byte : ℤ → ℕ
to_byte (pos n) = n % 256
to_byte (negsuc n) = 255 - n % 256

-- The connection's id in round `i` of the transfer.
unfoldable pub round_index : (index i : ℕ) → ℕ
round_index index i = (index + i) % 255 + 1

module _ {R : Type 0} where
  abbrev pub with_objects : World R → List Connection → World R
  with_objects w os = record w { objects = os }

  abbrev pub with_sending_to : World R → ℤ → World R
  with_sending_to w id = record w { pump = record (w.pump) { sending_to = id } }

  -- `buf_advance_read_ptr(tunnel->in_buf, n)`
  unfoldable pub skip : (tunnel n : ℕ) → World R → Option (World R)
  skip tunnel n w =
      modify tunnel (λ c. record c { in_buf = (buf_advance_read_ptr c.in_buf n).1 }) w.objects
      >>= λ os. some (with_objects w os)

  -- `decode(tunnel->in_buf, c->out_buf)`
  unfoldable pub decode_to : (tunnel c : ℕ) → World R → Option (Bool × World R)
  decode_to tunnel c w = get_elem? w.objects tunnel >>= λ t. get_elem? w.objects c >>= λ d.
      decode t.in_buf d.out_buf >>= λ (reached, in_buf, out_buf).
      modify tunnel (λ t. record t { in_buf = in_buf }) w.objects >>= λ os.
      modify c (λ d. record d { out_buf = out_buf }) os >>= λ os. some (reached, with_objects w os)

  -- The first part of `recv_from_tunnel`: false if it returns there.
  pub continue_message :
      (tunnel : ℕ) (connections : List (Option ℕ)) → World R → Option (Bool × World R)
  continue_message tunnel connections w = elim w.pump.sending_to [
    | pos id ↦ get_elem? connections id >>= λ p. p >>= λ c. decode_to tunnel c w >>= λ (reached, w).
        some (reached, if reached then with_sending_to w (negsuc 0) else w)
    | negsuc zero ↦ some (true, w)
    | negsuc (suc n) ↦ none
  ]

  pub receive_command :
      (cmd_handler : (cmd arg : ℕ) → World R → Option (World R)) (tunnel cmd available : ℕ)
      → World R
      → Option (Progress R)
  receive_command cmd_handler tunnel cmd available w =
      if ltb available 5
      then some (running w)
      else skip tunnel 3 w >>= λ w. get_elem? w.objects tunnel >>= λ t.
          buf_peek_byte t.in_buf >>= λ arg.
          cmd_handler cmd (to_byte arg) w >>= λ w. skip tunnel 2 w >>= λ w. some (running w)

  pub receive_message :
      (tunnel : ℕ) (connections : List (Option ℕ)) (conn_id : ℕ) → World R → Option (Progress R)
  receive_message tunnel connections conn_id w = get_elem? connections conn_id >>= λ p. elim p [
    | none ↦ some exited
    | some c ↦ skip tunnel 2 w >>= λ w. decode_to tunnel c w >>= λ (reached, w).
        some (running (if reached then w else with_sending_to w (pos conn_id)))
  ]

  -- The second part of `recv_from_tunnel`.
  pub next_message :
      (cmd_handler : (cmd arg : ℕ) → World R → Option (World R)) (tunnel : ℕ)
      (connections : List (Option ℕ))
      → World R
      → Option (Progress R)
  next_message cmd_handler tunnel connections w = get_elem? w.objects tunnel >>= λ t.
      let available = buf_data_length t.in_buf in
      if ltb 3 available
      then elim (buf_peek t.in_buf 3) [
        | none ↦ some exited
        | some start ↦ get_elem? start 0 >>= λ s0. get_elem? start 1 >>= λ conn_id.
            get_elem? start 2 >>= λ cmd.
            if not (s0 == end_byte)
            then some exited
            else if conn_id == 0
            then receive_command cmd_handler tunnel cmd available w
            else receive_message tunnel connections conn_id w
      ]
      else some (running w)

  pub recv_from_tunnel :
      (cmd_handler : (cmd arg : ℕ) → World R → Option (World R)) (tunnel : ℕ)
      (connections : List (Option ℕ))
      → World R
      → Option (Progress R)
  recv_from_tunnel cmd_handler tunnel connections w = get_elem? w.objects tunnel >>= λ t.
      if buf_empty t.in_buf
      then some (running w)
      else continue_message tunnel connections w >>= λ (go_on, w).
          if go_on then next_message cmd_handler tunnel connections w else some (running w)

  -- The loop on the commands; it runs on fuel above the queue's length. The result is false where
  -- `pump_transfer` returns.
  pub transfer_commands : ℕ → (tunnel : ℕ) → World R → Option (Bool × World R)
  transfer_commands zero tunnel w = none
  transfer_commands (suc fuel) tunnel w =
      if cmdq_length w.pump.cmd_queue == 0
      then some (true, w)
      else cmdq_dequeue w.pump.cmd_queue >>= λ (cmd, q).
          let w = record w { pump = record (w.pump) { cmd_queue = q } } in
          get_elem? w.objects tunnel >>= λ t.
          encode_command t.out_buf cmd.cmd cmd.arg >>= λ (put, out_buf).
          modify tunnel (λ t. record t { out_buf = out_buf }) w.objects >>= λ os. elim put [
            | true ↦ transfer_commands fuel tunnel (with_objects w os)
            | false ↦ some (false, with_objects w os)
          ]

  -- `encode(c->in_buf, tunnel->out_buf, c->id)`
  unfoldable pub encode_from : (tunnel c : ℕ) → World R → Option (Bool × World R)
  encode_from tunnel c w = get_elem? w.objects tunnel >>= λ t. get_elem? w.objects c >>= λ d.
      encode d.in_buf t.out_buf (to_byte d.id) >>= λ (put, in_buf, out_buf).
      modify c (λ d. record d { in_buf = in_buf }) w.objects >>= λ os.
      modify tunnel (λ t. record t { out_buf = out_buf }) os >>= λ os. some (put, with_objects w os)

  -- The body of the loop on the connections; false where it breaks.
  pub transfer_body :
      (tunnel : ℕ) (connections : List (Option ℕ)) (ind : ℕ) → World R → Option (Bool × World R)
  transfer_body tunnel connections ind w = get_elem? connections ind >>= λ p. elim p [
    | none ↦ some (true, w)
    | some c ↦ get_elem? w.objects c >>= λ d.
        if not (is_alive d.state) || not (is_alive d.in_state)
        then some (true, w)
        else encode_from tunnel c w >>= λ (put, w).
            some
              (put, if put then w else record w { pump = record (w.pump) { current_index = ind } })
  ]

  -- The loop with `n` rounds left, from `i` on.
  pub transfer_loop :
      (n i index tunnel : ℕ) (connections : List (Option ℕ)) → World R → Option (World R)
  transfer_loop zero i index tunnel connections w = some w
  transfer_loop (suc n) i index tunnel connections w =
      transfer_body tunnel connections (round_index index i) w >>= λ (go_on, w'). elim go_on [
        | true ↦ transfer_loop n (i + 1) index tunnel connections w'
        | false ↦ some w'
      ]

  pub pump_transfer :
      (cmd_handler : (cmd arg : ℕ) → World R → Option (World R)) (connections : List (Option ℕ))
      → World R
      → Option (Progress R)
  pump_transfer cmd_handler connections w = get_elem? connections 0 >>= λ p. p >>= λ tunnel.
      recv_from_tunnel cmd_handler tunnel connections w >>= λ r. elim r [
        | exited ↦ some exited
        | running w ↦
            transfer_commands (suc (cmdq_length w.pump.cmd_queue)) tunnel w >>= λ (go_on, w).
            if go_on
            then (transfer_loop 255 0 w.pump.current_index tunnel connections w >>= λ w.
                some (running w))
            else some (running w)
      ]
