-- ===== src/Pump/Tests.antt =====
-- Runs of the pump.
use os_tasks.Prelude.{
  ℕ, ◌≡◌, refl, ◌>>=◌, true, some, none, Option, List, [], ◌∷◌, arith, negsuc, pos, reads,
  positions,
}
use os_tasks.RoundBuffer.{RoundBuffer, buf_advance_read_ptr}
use os_tasks.RoundBuffer.Inv.{IsValid, contents}
use os_tasks.CmdQueue.{CmdQueue, command}
use os_tasks.Codec.Escape.{escape, escape_byte}
use os_tasks.Connection.{Connection, no_flags}
use os_tasks.Pump.{World, running, skip, with_objects, recv_from_tunnel}
use os_tasks.Pump.Commands.{Transfers, transfer_commands_lem}
use os_tasks.Pump.Incoming.{Handler, delivered, recv_data, recv_command}

abbrev ignore : Handler ℕ
ignore cmd arg w = some w

abbrev buffer : List ℕ → ℕ → RoundBuffer
buffer xs n = record { offset = 0; length = n; capacity = 8; buffer = xs }

abbrev zeros : List ℕ
zeros = 0 ∷ 0 ∷ 0 ∷ 0 ∷ 0 ∷ 0 ∷ 0 ∷ 0 ∷ []

abbrev connection : ℕ → RoundBuffer → Connection
connection id in_buf = record {
  id = pos id;
  state = no_flags;
  in_state = no_flags;
  out_state = no_flags;
  address = 0;
  in_buf = in_buf;
  out_buf = buffer zeros 0;
}

-- Two commands wait, and there is room for one.
abbrev queue : CmdQueue
queue = record { cap = 2; offset = 1; length = 2; queue = command 5 7 ∷ command 1 7 ∷ [] }

-- The tunnel at address 1, connection 7 at address 0.
abbrev world : RoundBuffer → World ℕ
world tunnel_in = record {
  pump = record { sending_to = negsuc 0; current_index = 0; cmd_queue = queue };
  objects = connection 7 (buffer zeros 0) ∷ connection 0 tunnel_in ∷ [];
  rest = 0;
}

abbrev listed : List (Option ℕ)
listed = some 1 ∷ none ∷ none ∷ none ∷ none ∷ none ∷ none ∷ some 0 ∷ []

-- END, 7, ESC, END, 66 and END.
abbrev data_in : RoundBuffer
data_in = buffer (126 ∷ 7 ∷ 127 ∷ 126 ∷ 66 ∷ 126 ∷ 0 ∷ 0 ∷ []) 6

-- END, 0, ACK, 7 and END.
abbrev command_in : RoundBuffer
command_in = buffer (126 ∷ 0 ∷ 5 ∷ 7 ∷ 126 ∷ 0 ∷ 0 ∷ 0 ∷ []) 5

transfer_commands_example : Transfers 3 1 (world data_in) (connection 0 data_in)
transfer_commands_example =
    transfer_commands_lem 3 1 (world data_in) (connection 0 data_in) refl (omega arith)
      (omega arith) refl (omega arith)

recv_data_example :
    (in_buf : RoundBuffer) × (out_buf : RoundBuffer) × (recv_from_tunnel ignore 1 listed
        (world data_in)
      ≡ some (
          running (
            delivered
              (world data_in)
              1
              (connection 0 data_in)
              0
              (connection 7 (buffer zeros 0))
              in_buf
              out_buf)))
    × (contents in_buf ≡ [])
    × (contents out_buf ≡ 126 ∷ 66 ∷ [])
    × IsValid in_buf
    × IsValid out_buf
unfolding reads positions escape escape_byte
recv_data_example =
    recv_data ignore (world data_in) 1 (connection 0 data_in) listed refl (omega arith)
      (omega arith) 0 (connection 7 (buffer zeros 0)) 7 (126 ∷ 66 ∷ []) (126 ∷ []) true refl
      (λ e. omega arith) (omega arith) (omega arith) refl (λ e. omega arith) refl refl (omega arith)
      ([], refl, omega arith)

recv_command_example :
    (b : RoundBuffer) × (recv_from_tunnel ignore 1 listed (world command_in) ≡ (
      ignore 5 7
        (with_objects (world command_in) (connection 7 (buffer zeros 0) ∷ connection 0 b ∷ []))
      >>= λ w. skip 1 2 w >>= λ w. some (running w)))
    × (contents b ≡ 7 ∷ 126 ∷ [])
    × (contents (buf_advance_read_ptr b 2).1 ≡ [])
    × IsValid (buf_advance_read_ptr b 2).1
unfolding reads positions
recv_command_example =
    recv_command ignore (world command_in) 1 (connection 0 command_in) listed refl (omega arith)
      (omega arith) 5 7 [] refl refl
