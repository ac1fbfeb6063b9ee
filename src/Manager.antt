-- ===== src/Manager.antt =====
-- 34-35. Port forwarding/manager.c: the table of connections. A `struct connection *` is an index in
-- `objects`, the connections that were ever allocated; freeing one leaves it there, unused. A slot
-- is an entry of `connections` and the entry of `fds` that belongs to it (`cm_conn_fd`). `none` is
-- the use of a null pointer or an access outside of an array. The result of a call of the system
-- is an argument; the calls of `close` and `shutdown`, whose result is only printed, are listed.
pub mod Shrink
pub mod Closing
pub mod Keeping
pub mod Live
pub mod Shrinking
pub mod Accepting
pub mod Connecting
pub mod Rounds
pub mod Ends
pub mod Poll
mod Tests
use os_tasks.Prelude.{
  ℕ, zero, suc, ◌+◌, Bool, true, false, not, ◌&&◌, ◌||◌, Option, none, some, ◌>>=◌, List, [], ◌∷◌,
  ◌++◌, ◌==◌, if◌then◌else◌, ℤ, pos, negsuc, length, get_elem?, store,
}
use os_tasks.RoundBuffer.{
  RoundBuffer, buf_empty, Received, Sent, Errno, eagain, eintr, econnreset, epipe, enotconn, other,
}
use os_tasks.Connection.{
  Connection, Flags, is_alive, is_closed, should_close, should_close_socket, should_delete,
  Allocations, make_connection, PollFd, Events, complement, is_negative, pollin_only, pollout_only,
  no_events, set_pollfd_flags, receive, transmit,
}

abbrev pub max_connections : ℕ
max_connections = 1022

pub record Slot : Type 0 where
  pub conn : Option ℕ
  pub pfd : PollFd

-- `struct connection_manager`, with the first two entries of `fds` by name.
pub record Manager : Type 0 where
  pub buf_size : ℕ
  pub connections_count : ℕ
  pub pipe : ℤ
  pub acceptor : PollFd
  pub pipe_in : PollFd
  pub slots : List Slot

-- The manager and the connections.
pub record Table : Type 0 where
  pub manager : Manager
  pub objects : List Connection

pub data Call : Type 0 where
  close shutdown_read shutdown_write : ℤ → Call

-- The descriptor behind the sign, from `pfd`.
abbrev pub connection_fd : PollFd → ℤ
unfolding complement
connection_fd p = if is_negative p.fd then complement p.fd else p.fd

unfoldable pub cm_get_connection_fd : Manager → ℕ → Option ℤ
cm_get_connection_fd m ind = get_elem? m.slots ind >>= λ s. some (connection_fd s.pfd)

-- The slot's old `revents` stay. The result is -1 or the index.
unfoldable pub cm_add_connection : Manager → (connection : ℕ) (fd : ℤ) → Option (ℤ × Manager)
cm_add_connection cm connection fd =
    if cm.connections_count == max_connections
    then some (negsuc 0, cm)
    else get_elem? cm.slots cm.connections_count >>= λ s.
        store cm.slots cm.connections_count (record {
          conn = some connection;
          pfd = record (s.pfd) { fd = fd; events = pollin_only };
        })
        >>= λ slots. some (
          pos cm.connections_count,
          record cm { slots = slots; connections_count = cm.connections_count + 1 },
        )

-- What `socket` and `connect` give; -1 is `none` and false.
unfoldable pub cm_connect :
    Allocations
    → (sock : Option ℕ) (connected : Bool) → Table
    → (addr in_buf_size out_buf_size : ℕ) (id : ℤ) → Option (Bool × Table × List Call)
cm_connect a sock connected t addr in_buf_size out_buf_size id =
    if t.manager.connections_count == max_connections
    then some (false, t, [])
    else elim (make_connection a addr in_buf_size out_buf_size id) [
      | none ↦ some (false, t, [])
      | some c ↦ elim sock [
        | none ↦ some (false, t, [])
        | some s ↦
            let added = cm_add_connection t.manager (length t.objects) (pos s) >>= λ (res, m).
            some (true, record { manager = m; objects = t.objects ++ (c ∷ []) }, []) in
            if connected then added else some (false, t, close (pos s) ∷ [])
      ]
    ]

-- `f` at the connection of slot `i` and at its poll entry.
unfoldable pub at_slot :
    (f : PollFd → Connection → PollFd × Connection × List Call) (i : ℕ)
    → Table
    → Option (Table × List Call)
at_slot f i t = get_elem? t.manager.slots i >>= λ s. s.conn >>= λ a. get_elem? t.objects a >>= λ c.
    let (p, c', calls) = f s.pfd c in
    store t.manager.slots i (record s { pfd = p }) >>= λ slots. store t.objects a c' >>= λ objects.
    some (record { manager = record (t.manager) { slots = slots }; objects = objects }, calls)

-- The loops over the connections, with `n` rounds left.
unfoldable pub each_slot :
    (f : PollFd → Connection → PollFd × Connection × List Call) (n i : ℕ)
    → Table
    → Option (Table × List Call)
each_slot f zero i t = some (t, [])
each_slot f (suc n) i t = at_slot f i t >>= λ (t', calls).
    each_slot f n (i + 1) t' >>= λ (t'', calls'). some (t'', calls ++ calls')

abbrev pub closed : Flags → Flags
closed s = record s { cs_closed = true }

-- `should_close(s) && !is_closed(s)`
unfoldable pub must_shut : Flags → Bool
unfolding should_close is_closed
must_shut s = should_close s && not (is_closed s)

-- The body of the loop of `close_sockets`.
unfoldable pub close_socket : PollFd → Connection → PollFd × Connection × List Call
close_socket p conn =
    if is_closed conn.state
    then (p, conn, [])
    else let fd = connection_fd p in
      if should_close_socket conn
      then (
        record p { fd = negsuc 0 },
        record conn {
          state = closed conn.state;
          in_state = closed conn.in_state;
          out_state = closed conn.out_state;
        },
        close fd ∷ [],
      )
      else (
        p,
        record conn {
          in_state = if must_shut conn.in_state then closed conn.in_state else conn.in_state;
          out_state = if must_shut conn.out_state then closed conn.out_state else conn.out_state;
        },
        (if must_shut conn.in_state then shutdown_read fd ∷ [] else [])
            ++ (if must_shut conn.out_state then shutdown_write fd ∷ [] else []),
      )

unfoldable pub close_sockets : Table → Option (Table × List Call)
close_sockets t = each_slot close_socket t.manager.connections_count 0 t

-- The entry of slot `j` and `should_delete(cm->connections[j]->state)`.
unfoldable pub load_slot : ℕ → List Connection → Manager → Option (Slot × Bool)
load_slot j objects m = get_elem? m.slots j >>= λ s.
    s.conn >>= λ a. get_elem? objects a >>= λ c. some (s, should_delete c.state)

-- The loop of `shrink`, with `n` rounds left.
unfoldable pub shrink_loop : (n j i : ℕ) (objects : List Connection) → Manager → Option Manager
shrink_loop zero j i objects m = some (record m { connections_count = i })
shrink_loop (suc n) j i objects m = load_slot j objects m >>= λ (s, deleted). elim deleted [
  | true ↦ shrink_loop n (j + 1) i objects m
  | false ↦ (if i == j then some m.slots else store m.slots i s) >>= λ slots.
      shrink_loop n (j + 1) (i + 1) objects (record m { slots = slots })
]

unfoldable pub shrink : Table → Option Table
shrink t = shrink_loop t.manager.connections_count 0 0 t.objects t.manager >>= λ m.
    some (record t { manager = m })
