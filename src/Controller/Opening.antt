-- ===== src/Controller/Opening.antt =====
-- The command that opens a connection at the other end of the tunnel.
use os_tasks.Prelude.{
  append-nil, ℕ, zero, suc, ◌+◌, ◌<◌, ◌≡◌, ◌≢◌, refl, sym, ◌∙◌, Bool, true, false, none, some, List,
  [], ◌∷◌, ◌++◌, if◌then◌else◌, pos, length, get_elem?, arith,
}
use mathlib.Core.Path.{subst}
use os_tasks.Prelude.Updates.{get_elem?-in}
use os_tasks.CmdQueue.{Command, command, CmdQueue, cmdq_enqueue}
use os_tasks.CmdQueue.Fifo.{waiting, cmdq_enqueue_lem}
use os_tasks.Connection.{Connection, Allocations}
use os_tasks.Manager.{max_connections, Slot, Table, close, cm_connect}
use os_tasks.Manager.Live.{LiveAt, ids}
use os_tasks.Manager.Accepting.{IsAllocated, Adds}
use os_tasks.Manager.Connecting.{Connects, Adds-ids, cm_connect_lem}
use os_tasks.Pump.{World, send_command}
use os_tasks.Controller.{Control, cmd_new, cmd_ack, cmd_close}
use os_tasks.Controller.Updating.{
  IsController, Every, Every-append, Every-ids, AllIds-Every, table_of,
}
use os_tasks.Controller.Step.{is_id, find_id, on_new, on_command}

-- No connection has the id.
abbrev pub IsUnused : (arg : ℕ) → List Connection → Type 0
IsUnused arg objects =
    (a : ℕ) (c : Connection) → get_elem? objects a ≡ some c → is_id arg c.id ≡ false

find_id-none :
    (arg n i : ℕ) (slots : List Slot) (objects : List Connection)
    → ((j : ℕ) → j < i + n → LiveAt (length objects) slots j)
    → IsUnused arg objects
    → find_id arg n i slots objects ≡ some none
unfolding find_id
find_id-none arg zero i slots objects live unused = refl
find_id-none arg (suc n) i slots objects live unused =
    let (s, a, at, has, lt) = live i (omega arith) in
    let (c, at_a) = get_elem?-in objects a lt in
    rw (find_id, at, has, at_a, unused a c at_a)
      (find_id-none arg n (i + 1) slots objects (λ j h. live j (omega arith)) unused)

-- What the peer is told, by whether the connection could be made.
abbrev pub answer : (connected : Bool) (arg : ℕ) → Command
answer connected arg = command (if connected then cmd_ack else cmd_close) arg

-- What the command does to the world. If `connect` succeeds there is one more connection, in the table
-- too, and nothing is closed; if not, the table stays and the socket is closed.
abbrev pub Opens : (sock arg : ℕ) → World Control → (connected : Bool) → World Control → Type 0
Opens sock arg w true w' =
    Adds (pos sock) (pos arg) (table_of w) (table_of w') × (w'.rest.calls ≡ w.rest.calls)
Opens sock arg w false w' =
    (table_of w' ≡ table_of w) × (w'.rest.calls ≡ w.rest.calls ++ (close (pos sock) ∷ []))

Connects-Opens :
    (sock arg : ℕ) (w : World Control) (made : Bool) (t : Table) (w' : World Control)
    → table_of w' ≡ t
    → w'.rest.calls ≡ w.rest.calls ++ (if made then [] else close (pos sock) ∷ [])
    → Connects made (pos sock) (pos arg) (table_of w) t
    → Opens sock arg w made w'
Connects-Opens sock arg w true t w' e f a =
    (subst (Adds (pos sock) (pos arg) (table_of w)) (sym e) a, f ∙ append-nil w.rest.calls)
Connects-Opens sock arg w false t w' e f same = (e ∙ same, f)

module _ (a : Allocations) (sock : ℕ) (connected : Bool) (arg : ℕ) (w : World Control) where
  -- The world after the command.
  abbrev opened : Table → CmdQueue → World Control
  opened t queue = record {
    pump = record (w.pump) { cmd_queue = queue };
    objects = t.objects;
    rest = record (w.rest) {
      manager = t.manager;
      calls = w.rest.calls ++ (if connected then [] else close (pos sock) ∷ []);
    };
  }

  on_new_run :
      (t : Table) (queue : CmdQueue)
      → cm_connect a
          (some sock)
          connected
          (table_of w)
          w.rest.address
          w.rest.buf_size
          w.rest.buf_size
          (pos arg)
        ≡ some (connected, t, if connected then [] else close (pos sock) ∷ [])
      → cmdq_enqueue w.pump.cmd_queue (answer connected arg) ≡ some (true, queue)
      → on_new a (some sock) connected arg w ≡ some (opened t queue)
  unfolding on_new send_command
  on_new_run t queue e f = rw (e, f) refl

  on_command_run :
      find_id arg w.rest.manager.connections_count 0 w.rest.manager.slots w.objects ≡ some none
      → on_command a (some sock) connected cmd_new arg w ≡ on_new a (some sock) connected arg w
  unfolding on_command
  on_command_run e = rw e refl

  -- In a valid controller with a free slot and room in the queue, where memory and a socket are given
  -- and no connection has the id, which is below 256, the command for a new connection has one of
  -- two effects. If `connect` succeeds, one connection with this id comes behind the others, the next
  -- slot of the table, and no other, is taken for it and its socket, which is polled for input,
  -- and CMD_ACK with the id waits behind the other commands. If it fails, the table and the
  -- connections are those of before, the socket is closed, and CMD_CLOSE with the id waits there.
  -- The controller stays valid.
  pub on_command_new :
      IsController w
      → w.rest.manager.connections_count ≢ max_connections
      → w.pump.cmd_queue.length < w.pump.cmd_queue.cap
      → IsAllocated a
      → IsUnused arg w.objects
      → arg < 256
      → (w' : World Control) × (on_command a (some sock) connected cmd_new arg w ≡ some w')
        × Opens sock arg w connected w'
        × (waiting w'.pump.cmd_queue ≡ waiting w.pump.cmd_queue ++ (answer connected arg ∷ []))
        × IsController w'
  on_command_new v free room ok unused small =
      let table = v.table in
      let absent =
        find_id-none arg w.rest.manager.connections_count 0 w.rest.manager.slots w.objects
          (λ j h. table.live j (omega arith)) unused in
      let (t, run, table', new) =
        cm_connect_lem a sock connected (table_of w) w.rest.address w.rest.buf_size w.rest.buf_size
          (pos arg) table free ok in
      let (queue, put, waits, valid, _, _) =
        cmdq_enqueue_lem w.pump.cmd_queue (answer connected arg) v.queue room in
      (
        opened t queue,
        on_command_run absent ∙ on_new_run t queue run put,
        Connects-Opens sock arg w connected t (opened t queue) refl refl new,
        waits,
        record {
          table = table';
          free = v.free;
          all_ids =
              AllIds-Every t.objects (with_new connected t new (Every-ids w.objects v.all_ids));
          queue = valid;
        },
      )
    where
      with_new :
          (made : Bool) (t : Table)
          → Connects made (pos sock) (pos arg) (table_of w) t
          → Every (ids w.objects)
          → Every (ids t.objects)
      with_new true t a every =
          subst Every (sym (Adds-ids (pos sock) (pos arg) (table_of w) t a))
            (Every-append (ids w.objects) (pos arg) every small)
      with_new false t same every = subst (λ u. Every (ids u.objects)) (sym same) every
