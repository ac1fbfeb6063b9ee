-- ===== src/Controller/Starting.antt =====
-- `start_controller` makes a controller that is ready for `update`.
use os_tasks.Prelude.{
  get_elem?, ℕ, ◌≡◌, ◌≢◌, refl, sym, ap, ◌∙◌, Bool, true, false, some, List, [], ◌∷◌, pos, negsuc,
  length, arith,
}
use Prim.Native.Nat.{◌%◌, ◌*◌, ◌^◌}
use mathlib.Core.Path.{subst}
use os_tasks.Prelude.Updates.{get_elem?-in}
use os_tasks.CmdQueue.Fifo.{IsValid}
use os_tasks.CmdQueue.{Command, make_cmd_queue}
use os_tasks.Connection.{Connection, pollin_only}
use os_tasks.Manager.{max_connections, Slot, Manager, Table, Call, close}
use os_tasks.Manager.Live.{IsTable}
use os_tasks.Manager.Accepting.{
  IsAllocated, make_connection_lem, cm_add_connection_lem, grown, grown-IsTable, Adds, grown-Adds,
}
use os_tasks.Manager.Connecting.{Adds-ids, cm_connect_lem}
use os_tasks.Manager.Poll.{init_manager, init_accepting_manager}
use os_tasks.Pump.{World, Pump, make_pump}
use os_tasks.Controller.{Control, id_stack_init}
use os_tasks.Controller.Ids.{id_stack_init-IsStack}
use os_tasks.Controller.Start.{
  StartCalls, accept_tunnel, accept_tunnel_connection, start_manager, start_tunnel,
  start_controller,
}
use os_tasks.Controller.Updating.{IsController, Every, AllIds-Every}

-- The calls of the system for the tunnel succeed: the client connects the socket `fd`, the server
-- accepts it; `closed` are the calls of `close`.
abbrev pub TunnelReady : (accepting : Bool) → StartCalls → (fd : ℕ) (closed : List Call) → Type 0
TunnelReady true env fd closed =
    (env.connect_sock ≡ some fd)
    × (env.connected ≡ true)
    × IsAllocated env.allocations
    × (closed ≡ [])
TunnelReady false env fd closed =
    (listener : ℕ) × (peer : ℕ) × (env.tunnel.sock ≡ some listener)
    × (env.tunnel.bound ≡ true)
    × (env.tunnel.listening ≡ true)
    × (env.tunnel.accepted ≡ some (fd, peer))
    × IsAllocated env.tunnel.allocations
    × (closed ≡ close (pos listener) ∷ [])

-- The client also listens.
abbrev pub ListenerReady : (accepting : Bool) → StartCalls → Type 0
ListenerReady true env =
    (fd : ℕ) × (env.acceptor_sock ≡ some fd)
    × (env.acceptor_bound ≡ true)
    × (env.acceptor_listening ≡ true)
ListenerReady false env = Unit

-- All that `start_controller` asks of the system succeeds, and the storage has the sizes that were asked
-- for.
pub record Succeeds (accepting : Bool) (env : StartCalls) (fd : ℕ) (closed : List Call)
    : Type 0 where
  pub c_made : env.c_allocated ≡ true
  pub queue_made : (array : List Command) × (env.queue ≡ some array) × (length array ≡ 512)
  pub q_made : env.q_allocated ≡ true
  pub pump_made : env.pump_allocated ≡ true
  pub slots_made : length env.slots ≡ max_connections
  pub pipe_made : (fds : ℕ × ℕ) × (env.pipe_fds ≡ some fds)
  pub listener : ListenerReady accepting env
  pub tunnel : TunnelReady accepting env fd closed

-- The tunnel is the one connection, with the id 0, and has the first slot, with the socket `fd`; no
-- command waits, and nothing is being sent.
pub record HasTunnel (fd : ℕ) (w : World Control) : Type 0 where
  pub counted : w.rest.manager.connections_count ≡ 1
  pub slot :
      (s : Slot) × (get_elem? w.rest.manager.slots 0 ≡ some s)
      × (s.conn ≡ some 0)
      × (s.pfd.fd ≡ pos fd)
      × (s.pfd.events ≡ pollin_only)
  pub tunnel : (c : Connection) × (w.objects ≡ c ∷ []) × (c.id ≡ pos 0)
  pub no_commands : w.pump.cmd_queue.length ≡ 0
  pub idle : w.pump.sending_to ≡ negsuc 0

empty-IsTable :
    (m : Manager)
    → length m.slots ≡ max_connections
    → m.connections_count ≡ 0
    → IsTable (record { manager = m; objects = [] })
empty-IsTable m size none_yet = record {
  size = size;
  bound = omega arith;
  live = λ j h. absurd (omega arith);
}

start_manager_lem :
    (accepting : Bool) (env : StartCalls) (buf_size : ℕ)
    → ((fds : ℕ × ℕ) × (env.pipe_fds ≡ some fds))
    → ListenerReady accepting env
    → (m : Manager) × (start_manager env accepting buf_size ≡ some (some m, []))
      × (m.slots ≡ env.slots)
      × (m.connections_count ≡ 0)
unfolding start_manager init_manager init_accepting_manager
start_manager_lem true env buf_size (fds, e) (fd, f, bound, listening) =
    rw (e, f, bound, listening) (_, refl, refl, refl)
start_manager_lem false env buf_size (fds, e) ready = rw e (_, refl, refl, refl)

start_tunnel_lem :
    (accepting : Bool) (env : StartCalls) (fd : ℕ) (closed : List Call) (addr buf_size : ℕ)
    (m : Manager)
    → TunnelReady accepting env fd closed
    → length m.slots ≡ max_connections
    → m.connections_count ≡ 0
    → (t : Table) × (start_tunnel env accepting addr buf_size (record { manager = m; objects = [] })
        ≡ some (true, t, closed))
      × IsTable t
      × Adds (pos fd) (pos 0) (record { manager = m; objects = [] }) t
unfolding start_tunnel accept_tunnel_connection accept_tunnel
start_tunnel_lem true env fd closed addr buf_size m (e, connects, ok, none_closed) size none_yet =
    let bs = (buf_size * 10) % 2 ^ 64 in
    let (t, run, table, tunnel) =
      cm_connect_lem env.allocations fd true (record { manager = m; objects = [] }) addr bs bs
        (pos 0) (empty-IsTable m size none_yet) (λ f. omega (arith, f)) ok in
    (t, rw (e, connects, run, none_closed) refl, table, tunnel)
start_tunnel_lem false env fd closed addr buf_size m
      (ls, peer, e, bound, listens, f, ok, one_closed) size none_yet =
    let t0 : Table = record { manager = m; objects = [] } in
    let v = empty-IsTable m size none_yet in
    let bs = (buf_size * 10) % 2 ^ 64 in
    let (c, made, is_tunnel) = make_connection_lem env.tunnel.allocations peer bs bs (pos 0) ok in
    let free : m.connections_count ≢ max_connections = λ f. omega (arith, f) in
    let (s, at) = get_elem?-in m.slots m.connections_count (omega arith) in
    let t : Table = record { manager = grown t0 v c (pos fd) free s at; objects = c ∷ [] } in
    (
      t,
      rw (e, bound, listens, f, made, cm_add_connection_lem t0 v c (pos fd) free s at, one_closed)
          refl,
      grown-IsTable t0 v c (pos fd) free s at,
      subst (λ n. Adds (pos fd) n t0 t) is_tunnel (grown-Adds t0 v c (pos fd) free s at),
    )

module _ (accepting : Bool) (env : StartCalls) (fd : ℕ) (closed : List Call)
    (ok : Succeeds accepting env fd closed) where
  pump_lem :
      (pump : Pump) × (make_pump env.queue env.q_allocated env.pump_allocated 512 ≡ some pump)
      × IsValid pump.cmd_queue
      × (pump.cmd_queue.length ≡ 0)
      × (pump.sending_to ≡ negsuc 0)
  unfolding make_pump make_cmd_queue
  pump_lem =
      let (array, e, size) = ok.queue_made in
      (
        record {
          sending_to = negsuc 0;
          current_index = 0;
          cmd_queue = record { cap = 512; offset = 0; length = 0; queue = array };
        },
        rw (e, ok.q_made, ok.pump_made) refl,
        record {
          storage = size;
          small = omega arith;
          offset_in = omega arith;
          length_in = omega arith;
        },
        refl,
        refl,
      )

  abbrev started : (addr buf_size : ℕ) → Pump → Table → List Call → World Control
  started addr buf_size pump t calls = record {
    pump = pump;
    objects = t.objects;
    rest = record {
      manager = t.manager;
      free_ids = id_stack_init;
      address = addr;
      accepting = accepting;
      buf_size = buf_size;
      calls = calls;
    };
  }

  start_run :
      (addr buf_size : ℕ) (pump : Pump) (m : Manager) (t : Table) (calls : List Call)
      → make_pump env.queue env.q_allocated env.pump_allocated 512 ≡ some pump
      → start_manager env accepting buf_size ≡ some (some m, [])
      → start_tunnel env accepting addr buf_size (record { manager = m; objects = [] })
        ≡ some (true, t, calls)
      → start_controller env buf_size accepting addr
        ≡ some (some (started addr buf_size pump t calls), calls)
  unfolding start_controller
  start_run addr buf_size pump m t calls e f g = rw (ok.c_made, e, f, g) refl

  -- If all that it asks of the system succeeds, `start_controller` gives a controller that is valid: the
  -- tunnel, whose id is 0, is its one connection and has the one slot in use, with the socket that
  -- the client has connected, or that the server has accepted after it listened; no command waits.
  -- Of the sockets, the server closes the one that it listened with, and the client none.
  pub start_controller_lem :
      (buf_size addr : ℕ)
      → (w : World Control) × (start_controller env buf_size accepting addr ≡ some (some w, closed))
        × IsController w
        × HasTunnel fd w
        × (w.rest.calls ≡ closed)
  start_controller_lem buf_size addr =
      let (pump, e, queue, none_waiting, idle) = pump_lem in
      let (m, f, slots, none_yet) =
        start_manager_lem accepting env buf_size ok.pipe_made ok.listener in
      let size = ap (λ (l : List Slot). length l) slots ∙ ok.slots_made in
      let (t, g, table, tunnel) =
        start_tunnel_lem accepting env fd closed addr buf_size m ok.tunnel size none_yet in
      let new = Adds-ids (pos fd) (pos 0) (record { manager = m; objects = [] }) t tunnel in
      let (s, at, has, sock, waits) = tunnel.slot in
      let counted = tunnel.counted in
      (
        started addr buf_size pump t closed,
        start_run addr buf_size pump m t closed e f g,
        record {
          table = table;
          free = id_stack_init-IsStack;
          all_ids = AllIds-Every t.objects (subst Every (sym new) (omega arith, tt));
          queue = queue;
        },
        record {
          counted = omega arith;
          slot =
              (s, subst (λ n. get_elem? t.manager.slots n ≡ some s) none_yet at, has, sock, waits);
          tunnel = tunnel.made;
          no_commands = none_waiting;
          idle = idle;
        },
        refl,
      )
