-- ===== src/Forward/Tests.antt =====
-- Runs of the program.
use os_tasks.Prelude.{
  ℕ, ◌≡◌, refl, zero, suc, ◌<◌, arith, true, false, Option, none, some, List, [], ◌∷◌, ◌++◌, length,
  ℤ, pos, negsuc, replicate, store,
}
use os_tasks.RoundBuffer.{RoundBuffer, buf_create, received, sent, eintr, eagain}
use os_tasks.CmdQueue.{command, make_cmd_queue}
use os_tasks.Connection.{
  Connection, no_flags, Allocations, make_connection, PollFd, no_events, pollin_only,
}
use os_tasks.Manager.{Slot, cm_connect, cm_add_connection}
use os_tasks.Manager.Poll.{
  polled, poll_failed, accept_failed, poll_until, cm_shutdown, init_manager, init_accepting_manager,
}
use os_tasks.Pump.{World, make_pump}
use os_tasks.Proxy.{parse_port}
use os_tasks.Controller.{Control, id_stack_init}
use os_tasks.Controller.Updating.{table_of}
use os_tasks.Controller.Start.{StartCalls, start_controller, start_manager, start_tunnel}
use os_tasks.Forward.{
  buffer_size, client_command, parse_command, parse_args, Round, termination_signal_handler,
  controller_stopped, main_loop, forward_main,
}
use os_tasks.Manager.Live.{LiveAt, IsTable}
use os_tasks.Forward.Stopping.{Runs, IsTold, closes, forward_main_stops}

-- `strtol` and `inet_aton` that know one number each.
abbrev strtol : List ℕ → ℤ
strtol text = pos (length text)

abbrev inet_aton : List ℕ → Option ℕ
inet_aton text = some (length text)

abbrev argv : List (List ℕ)
argv = [] ∷ client_command ∷ (56 ∷ 48 ∷ []) ∷ (49 ∷ []) ∷ (57 ∷ 48 ∷ 48 ∷ []) ∷ []

settings :
    parse_args strtol inet_aton argv
    ≡ some (record { is_server = false; listen_port = 2; dst_address = 65539 })
unfolding parse_args parse_command parse_port
settings = refl

abbrev granted : Allocations
granted = record {
  in_ptr = some (replicate 102400 0);
  in_res = true;
  out_ptr = some (replicate 102400 0);
  out_res = true;
  connection = true;
}

abbrev unused : Slot
unused = record {
  conn = none;
  pfd = record { fd = pos 0; events = no_events; revents = no_events };
}

abbrev calls : StartCalls
calls = record {
  c_allocated = true;
  queue = some (command 0 0 ∷ []);
  q_allocated = true;
  pump_allocated = true;
  slots = replicate 1022 unused;
  pipe_fds = some (3, 4);
  acceptor_sock = some 5;
  acceptor_bound = true;
  acceptor_listening = true;
  allocations = granted;
  connect_sock = some 6;
  connected = true;
  tunnel = record {
    sock = none;
    bound = true;
    listening = true;
    accepted = none;
    allocations = granted;
  };
}

abbrev buffer : RoundBuffer
buffer = record { offset = 0; length = 0; capacity = 102400; buffer = replicate 102400 0 }

abbrev tunnel : Connection
tunnel = record {
  id = pos 0;
  state = no_flags;
  in_state = no_flags;
  out_state = no_flags;
  address = 65539;
  in_buf = buffer;
  out_buf = buffer;
}

abbrev entry : ℕ → PollFd
entry n = record { fd = pos n; events = pollin_only; revents = no_events }

abbrev started : World Control
started = record {
  pump = record {
    sending_to = negsuc 0;
    current_index = 0;
    cmd_queue = record { cap = 512; offset = 0; length = 0; queue = command 0 0 ∷ [] };
  };
  objects = tunnel ∷ [];
  rest = record {
    manager = record {
      buf_size = 10240;
      connections_count = 1;
      pipe = pos 4;
      acceptor = entry 5;
      pipe_in = entry 3;
      slots = record { conn = some 0; pfd = entry 6 } ∷ replicate 1021 unused;
    };
    free_ids = id_stack_init;
    address = 65539;
    accepting = true;
    buf_size = 10240;
    calls = [];
  };
}

starts : start_controller calls buffer_size true 65539 ≡ some (some started, [])
unfolding start_controller start_manager start_tunnel make_pump make_cmd_queue make_connection
    buf_create cm_connect cm_add_connection init_manager init_accepting_manager store
starts = refl

-- A signal interrupts `poll`; the handler has written to the pipe.
abbrev round : Round
round = record {
  env = record {
    poll_results = poll_failed eintr ∷ polled no_events pollin_only (no_events ∷ []) ∷ [];
    pipe_read = some (some 1);
    allocations = granted;
    accept_result = accept_failed eagain 0;
    readv = λ fd room. received [];
    writev = λ fd xs. sent 0;
  };
  handler = λ cmd arg w. some w;
}

live_slots : (j : ℕ) → j < 1 → LiveAt 1 started.rest.manager.slots j
live_slots zero h = (record { conn = some 0; pfd = entry 6 }, 0, refl, refl, omega arith)
live_slots (suc j) h = absurd (omega arith)

started-IsTable : IsTable (table_of started)
started-IsTable = record { size = refl; bound = omega arith; live = live_slots }

told : IsTold started round.env
unfolding poll_until termination_signal_handler cm_shutdown
told = record {
  acceptor = no_events;
  pipe = pollin_only;
  events = no_events ∷ [];
  polls = refl;
  ready = refl;
  fd = pos 4;
  byte = 1;
  written = refl;
  waiting = refl;
}

forward_main_stops_example :
    (w' : World Control) × (main_loop (round ∷ []) started ≡ some (controller_stopped, w'))
    × (forward_main strtol inet_aton argv calls (round ∷ []) ≡ some (0, w'.rest.calls ++ closes w'))
forward_main_stops_example =
    forward_main_stops strtol inet_aton argv calls [] [] round
      (record { is_server = false; listen_port = 2; dst_address = 65539 }) started started []
      settings starts Runs.stays started-IsTable told
