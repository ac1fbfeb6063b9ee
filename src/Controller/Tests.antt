-- ===== src/Controller/Tests.antt =====
-- Runs of the stack of free ids, and of the controller on a tunnel and a new connection.
use os_tasks.Prelude.{
  positions, reads, ℕ, zero, suc, ◌<◌, ◌≡◌, refl, inr, arith, true, false, Option, none, some, List,
  [], ◌∷◌, get_elem?, replicate, ℤ, pos, negsuc,
}
use mathlib.Core.Path.{subst}
use os_tasks.RoundBuffer.{received, sent, eintr, RoundBuffer}
use os_tasks.CmdQueue.{command}
use os_tasks.Connection.{Allocations, Connection, Flags, no_flags, PollFd, no_events, pollin_only}
use os_tasks.Manager.{close, Slot, Table}
use os_tasks.Manager.Live.{LiveAt, IsTable}
use os_tasks.Pump.{World}
use os_tasks.Controller.{
  cmd_new, cmd_ack, id_stack_init, id_stack_pop, init_ids, Sorting, sort_connections, Control,
}
use os_tasks.Controller.Ids.{id_stack_init-IsStack}
use os_tasks.Controller.Sorted.{IsId, AllIds, PointsTo, IsSorting, sort_connections_lem}
use os_tasks.Controller.Step.{is_id, on_command, handle_state_changes, update}
use os_tasks.Controller.Updating.{IsController, IsTable-objects}
use os_tasks.Controller.Courses.{Course, update_lem}
use os_tasks.Controller.Start.{StartCalls, start_controller}
use os_tasks.Controller.Starting.{Succeeds, HasTunnel, start_controller_lem}
use os_tasks.Manager.Accepting.{IsAllocated}
use os_tasks.Manager.Poll.{Environment, accepted, polled, poll_failed}
use os_tasks.Controller.Opening.{IsUnused, Opens, on_command_new}
use os_tasks.CmdQueue.Fifo.{waiting}
use os_tasks.Controller.Steady.{IsSteady}
use os_tasks.Controller.Changes.{Loops, handle_state_changes_lem}

first_id : id_stack_pop id_stack_init ≡ some (pos 1, record id_stack_init { cnt = 254 })
unfolding id_stack_pop id_stack_init init_ids
first_id = refl

abbrev buffer : RoundBuffer
buffer = record { offset = 0; length = 0; capacity = 2; buffer = 0 ∷ 0 ∷ [] }

abbrev connection : ℤ → Flags → Connection
connection id state = record {
  id = id;
  state = state;
  in_state = no_flags;
  out_state = no_flags;
  address = 0;
  in_buf = buffer;
  out_buf = buffer;
}

abbrev entry : ℕ → PollFd
entry n = record { fd = pos n; events = pollin_only; revents = no_events }

abbrev slot : ℕ → Slot
slot a = record { conn = some a; pfd = entry a }

-- The tunnel, and a connection that has no id yet.
abbrev table : Table
table = record {
  manager = record {
    buf_size = 2;
    connections_count = 2;
    pipe = pos 4;
    acceptor = entry 5;
    pipe_in = entry 6;
    slots = slot 0 ∷ slot 1 ∷ replicate 1020 (record { conn = none; pfd = entry 0 });
  };
  objects =
      connection (pos 0) no_flags ∷ connection (negsuc 0) (record no_flags { cs_new = true }) ∷ [];
}

live_slots : (j : ℕ) → j < 2 → LiveAt 2 table.manager.slots j
live_slots zero h = (slot 0, 0, refl, refl, omega arith)
live_slots (suc zero) h = (slot 1, 1, refl, refl, omega arith)
live_slots (suc (suc j)) h = absurd (omega arith)

table-IsTable : IsTable table
table-IsTable = record { size = refl; bound = omega arith; live = live_slots }

abbrev id_of : (c : Connection) → Option Connection → Connection
id_of c none = c
id_of c (some d) = d

two_ids : (x y : Connection) → IsId x.id → IsId y.id → AllIds (x ∷ y ∷ [])
two_ids x y h k zero c e = subst (λ o. IsId (id_of c o).id) e h
two_ids x y h k (suc zero) c e = subst (λ o. IsId (id_of c o).id) e k
two_ids x y h k (suc (suc a)) c e = absurd (cc)

sort_connections_example :
    (s : Sorting) × (sort_connections 2 0 table.manager.slots
        (record { free_ids = id_stack_init; sorted = replicate 256 none; objects = table.objects })
      ≡ some s)
    × IsSorting 2 s
sort_connections_example =
    sort_connections_lem table id_stack_init table-IsTable id_stack_init-IsStack (
      two_ids (connection (pos 0) no_flags)
        (connection (negsuc 0) (record no_flags { cs_new = true })) (omega arith) tt)

-- The new connection with the id 1, and a queue of two places.
abbrev world : World Control
world = record {
  pump = record {
    sending_to = negsuc 0;
    current_index = 0;
    cmd_queue = record { cap = 2; offset = 0; length = 0; queue = command 0 0 ∷ command 0 0 ∷ [] };
  };
  objects =
      connection (pos 0) no_flags ∷ connection (pos 1) (record no_flags { cs_new = true }) ∷ [];
  rest = record {
    manager = table.manager;
    free_ids = id_stack_init;
    address = 0;
    accepting = true;
    buf_size = 2;
    calls = [];
  };
}

abbrev by_id : List (Option ℕ)
by_id = some 0 ∷ some 1 ∷ replicate 254 none

nothing_more : (n i a : ℕ) → get_elem? {A = Option ℕ} (replicate n none) i ≡ some (some a) → ⊥
nothing_more zero i a e = cc
nothing_more (suc n) zero a e = cc
nothing_more (suc n) (suc i) a e = nothing_more n i a e

by_id-PointsTo : PointsTo world.objects by_id
by_id-PointsTo = (refl, at)
  where
    found : (x y : ℕ) → some (some x) ≡ some (some y) → x ≡ y
    found x y e = cc

    at :
        (i a : ℕ)
        → get_elem? by_id i ≡ some (some a)
        → (c : Connection) × (get_elem? world.objects a ≡ some c) × (c.id ≡ pos i)
    at zero a e =
        subst (λ k. (c : Connection) × (get_elem? world.objects k ≡ some c) × (c.id ≡ pos 0))
          (found 0 a e) (_, refl, refl)
    at (suc zero) a e =
        subst (λ k. (c : Connection) × (get_elem? world.objects k ≡ some c) × (c.id ≡ pos 1))
          (found 1 a e) (_, refl, refl)
    at (suc (suc i)) a e = absurd (nothing_more 254 i a e)

world-IsSteady : IsSteady world by_id
world-IsSteady = record {
  queue = record {
    storage = refl;
    small = omega arith;
    offset_in = omega arith;
    length_in = omega arith;
  };
  ids = id_stack_init-IsStack;
  all_ids =
      two_ids (connection (pos 0) no_flags) (connection (pos 1) (record no_flags { cs_new = true }))
        (omega arith) (omega arith);
  points = by_id-PointsTo;
}

handle_state_changes_example : Loops by_id world (handle_state_changes by_id world)
handle_state_changes_example = handle_state_changes_lem by_id world 0 refl world-IsSteady

world-IsController : IsController world
world-IsController = record {
  table = IsTable-objects table table.manager world.objects refl refl table-IsTable;
  free = id_stack_init-IsStack;
  all_ids = world-IsSteady.all_ids;
  queue = world-IsSteady.queue;
}

abbrev granted : Allocations
granted = record {
  in_ptr = some (0 ∷ 0 ∷ []);
  in_res = true;
  out_ptr = some (0 ∷ 0 ∷ []);
  out_res = true;
  connection = true;
}

granted-IsAllocated : IsAllocated granted
granted-IsAllocated = record {
  in_storage = (0 ∷ 0 ∷ [], refl);
  in_made = refl;
  out_storage = (0 ∷ 0 ∷ [], refl);
  out_made = refl;
  made = refl;
}

-- A signal interrupts `poll`, then a client arrives and the tunnel has a byte.
abbrev environment : Environment
environment = record {
  poll_results =
      poll_failed eintr ∷ polled pollin_only no_events (pollin_only ∷ no_events ∷ []) ∷ [];
  pipe_read = none;
  allocations = granted;
  accept_result = accepted 9 1;
  readv = λ fd room. received (7 ∷ []);
  writev = λ fd xs. sent 0;
}

abbrev ignore : (cmd arg : ℕ) → World Control → Option (World Control)
ignore cmd arg w = some w

update_example : Course environment ignore world (update environment ignore world)
update_example = update_lem environment ignore world world-IsController granted-IsAllocated (inr tt)

abbrev start : StartCalls
start = record {
  c_allocated = true;
  queue = some (replicate 512 (command 0 0));
  q_allocated = true;
  pump_allocated = true;
  slots = replicate 1022 (record { conn = none; pfd = entry 0 });
  pipe_fds = some (3, 4);
  acceptor_sock = some 5;
  acceptor_bound = true;
  acceptor_listening = true;
  allocations = granted;
  connect_sock = some 6;
  connected = true;
  tunnel = record {
    sock = some 7;
    bound = true;
    listening = true;
    accepted = some (8, 9);
    allocations = granted;
  };
}

start-Succeeds : Succeeds false start 8 (close (pos 7) ∷ [])
start-Succeeds = record {
  c_made = refl;
  queue_made = (replicate 512 (command 0 0), refl, refl);
  q_made = refl;
  pump_made = refl;
  slots_made = refl;
  pipe_made = ((3, 4), refl);
  listener = tt;
  tunnel = (7, 9, refl, refl, refl, refl, granted-IsAllocated, refl);
}

start_controller_example :
    (w : World Control) × (start_controller start 2 false 77 ≡ some (some w, close (pos 7) ∷ []))
    × IsController w
    × HasTunnel 8 w
    × (w.rest.calls ≡ close (pos 7) ∷ [])
start_controller_example =
    start_controller_lem false start 8 (close (pos 7) ∷ []) start-Succeeds 2 77

world-IsUnused : IsUnused 5 world.objects
world-IsUnused zero c e = subst (λ o. is_id 5 (id_of c o).id ≡ false) e refl
world-IsUnused (suc zero) c e = subst (λ o. is_id 5 (id_of c o).id ≡ false) e refl
world-IsUnused (suc (suc a)) c e = absurd (cc)

on_command_new_example :
    (w' : World Control) × (on_command granted (some 9) true cmd_new 5 world ≡ some w')
    × Opens 9 5 world true w'
    × (waiting w'.pump.cmd_queue ≡ command cmd_ack 5 ∷ [])
    × IsController w'
unfolding positions reads
on_command_new_example =
    on_command_new granted 9 true 5 world world-IsController (λ e. omega (arith, e)) (omega arith)
      granted-IsAllocated world-IsUnused (omega arith)
