-- ===== src/Manager/Poll.antt =====
-- 34-35. Port forwarding/manager.c: making and destroying a manager, accepting, and `cm_poll`.
use os_tasks.Prelude.{
  ℕ, zero, suc, ◌+◌, Bool, true, false, not, ◌&&◌, Option, none, some, ◌>>=◌, List, [], ◌∷◌, ◌++◌,
  ◌==◌, if◌then◌else◌, ℤ, pos, negsuc, length, get_elem?,
}
use os_tasks.RoundBuffer.{
  buf_empty, Received, Sent, Errno, eagain, eintr, econnreset, epipe, enotconn, other,
}
use os_tasks.Connection.{
  Connection, is_alive, is_closed, Allocations, make_connection, PollFd, Events, pollin_only,
  pollout_only, no_events, set_pollfd_flags, receive, transmit,
}
use os_tasks.Manager.{
  max_connections, Slot, Manager, Table, Call, close, cm_add_connection, cm_get_connection_fd,
  each_slot, close_sockets, shrink,
}

abbrev pub close_cause_none : ℕ
close_cause_none = 0

abbrev pub close_cause_user : ℕ
close_cause_user = 1

abbrev pub close_cause_error : ℕ
close_cause_error = 2

-- `slots` is the storage for the connections, which `memset` has cleared; `pipe_fds` is `none` where
-- `malloc` or `pipe` fails.
unfoldable pub init_manager : (slots : List Slot) (pipe_fds : Option (ℕ × ℕ)) → Option Manager
init_manager slots pipe_fds = pipe_fds >>= λ (out, into). some (record {
  buf_size = 0;
  connections_count = 0;
  pipe = pos into;
  acceptor = record { fd = negsuc 0; events = no_events; revents = no_events };
  pipe_in = record { fd = pos out; events = pollin_only; revents = no_events };
  slots = slots;
})

-- The end of every connection's socket that is not closed, from slot `i` on.
unfoldable pub destroy_slots : (n i : ℕ) → Table → Option (List Call)
destroy_slots zero i t = some []
destroy_slots (suc n) i t = get_elem? t.manager.slots i >>= λ s. s.conn >>= λ a.
    get_elem? t.objects a >>= λ c. cm_get_connection_fd t.manager i >>= λ fd.
    destroy_slots n (i + 1) t >>= λ calls.
    some (if is_closed c.state then calls else close fd ∷ calls)

-- Whether an `int` is -1.
abbrev pub is_minus_one : ℤ → Bool
is_minus_one (pos n) = false
is_minus_one (negsuc n) = n == 0

unfoldable pub destroy_manager : Table → Option (List Call)
destroy_manager t = destroy_slots t.manager.connections_count 0 t >>= λ calls. some (
    (if is_minus_one t.manager.acceptor.fd then [] else close t.manager.acceptor.fd ∷ [])
    ++ (close t.manager.pipe_in.fd ∷ close t.manager.pipe ∷ calls))

-- What `socket` gives, and whether `bind` and `listen` succeed. On failure, the calls of `close`.
unfoldable pub init_accepting_manager :
    (slots : List Slot) (pipe_fds : Option (ℕ × ℕ)) (sock : Option ℕ) (bound listening : Bool)
    (buf_size : ℕ)
    → Option (Option Manager × List Call)
init_accepting_manager slots pipe_fds sock bound listening buf_size =
    elim (init_manager slots pipe_fds) [
      | none ↦ some (none, [])
      | some m ↦ elim sock [
        | none ↦
            destroy_manager (record { manager = m; objects = [] }) >>= λ calls. some (none, calls)
        | some s ↦
            let failed = destroy_manager (record { manager = m; objects = [] }) >>= λ calls.
            some (none, close (pos s) ∷ calls) in
            if bound && listening
            then some (
              some (record m {
                buf_size = buf_size;
                acceptor = record (m.acceptor) { fd = pos s; events = pollin_only };
              }),
              [],
            )
            else failed
      ]
    ]

-- What `accept` gives: a descriptor and the peer's address, or -1 with `errno` and what `addr` holds
-- then.
pub data Accepted : Type 0 where
  accepted : ℕ → ℕ → Accepted
  accept_failed : Errno → ℕ → Accepted

abbrev pub try_again : Errno → Bool
try_again eagain = true
try_again eintr = true
try_again econnreset = false
try_again epipe = false
try_again enotconn = false
try_again other = false

-- From `make_connection` on. A connection that cannot be made is still printed.
unfoldable pub accept_socket :
    Allocations → (addr : ℕ) (socket : ℤ) → Table → Option (Table × List Call)
accept_socket a addr socket t =
    make_connection a addr t.manager.buf_size t.manager.buf_size (negsuc 0) >>= λ c.
    let c = record c { state = record (c.state) { cs_new = true } } in
    cm_add_connection t.manager (length t.objects) socket >>= λ (res, m). some (
      record { manager = m; objects = t.objects ++ (c ∷ []) },
      if is_minus_one res then close socket ∷ [] else [],
    )

unfoldable pub accept_connection : Allocations → Accepted → Table → Option (Table × List Call)
accept_connection a result t =
    if t.manager.connections_count == max_connections then some (t, []) else elim result [
      | accepted s addr ↦ accept_socket a addr (pos s) t
      | accept_failed err addr ↦
          if try_again err then some (t, []) else accept_socket a addr (negsuc 0) t
    ]

-- The first loop of `cm_poll`.
unfoldable pub want_output : PollFd → Connection → PollFd × Connection × List Call
want_output p conn =
    if not (buf_empty conn.out_buf) && is_alive conn.out_state
    then (set_pollfd_flags p pollout_only, conn, [])
    else (p, conn, [])

-- What a call of `poll` gives: the returned events of the acceptor, the pipe and the connections, or
-- -1 with `errno`.
pub data Polled : Type 0 where
  polled : (acceptor pipe : Events) (connections : List Events) → Polled
  poll_failed : Errno → Polled

-- The loop around `poll`, by the results of its calls; `none` if there are no more.
unfoldable pub poll_until : List Polled → Option Polled
poll_until [] = none
poll_until (polled a p es ∷ results) = some (polled a p es)
poll_until (poll_failed err ∷ results) =
    let rest = poll_until results in if try_again err then rest else some (poll_failed err)

-- `poll` has stored the returned events.
unfoldable pub set_revents : List Events → List Slot → List Slot
set_revents [] slots = slots
set_revents (e ∷ es) [] = []
set_revents (e ∷ es) (s ∷ slots) =
    record s { pfd = record (s.pfd) { revents = e } } ∷ set_revents es slots

-- The second loop of `cm_poll`.
unfoldable pub serve :
    (readv : ℤ → ℕ → Received) (writev : ℤ → List ℕ → Sent)
    → PollFd
    → Connection
    → PollFd × Connection × List Call
serve readv writev p conn =
    if is_alive conn.state
    then (let (p, conn) = receive readv p conn in
        let (p, conn) = transmit writev p conn in (p, conn, []))
    else (p, conn, [])

-- What the system gives to one call of `cm_poll`: `pipe_read` is `none` for a failed `read`,
-- `some none` for its end, and else the byte.
pub record Environment : Type 0 where
  pub poll_results : List Polled
  pub pipe_read : Option (Option ℕ)
  pub allocations : Allocations
  pub accept_result : Accepted
  pub readv : ℤ → ℕ → Received
  pub writev : ℤ → List ℕ → Sent

-- The cause that is waiting in the pipe.
unfoldable pub pipe_cause : Environment → Events → Option ℕ
pipe_cause env pipe = if pipe.pollin then (env.pipe_read >>= λ b. b) else none

-- `cm_poll` from the test of the acceptor on; `count` is the number of connections before it.
unfoldable pub serve_all :
    Environment → (count : ℕ) (acceptor : Events) → Table → Option (Table × List Call)
serve_all env count acceptor t =
    (if acceptor.pollin
      then accept_connection env.allocations env.accept_result t
      else some (t, []))
    >>= λ (t, accepting). each_slot (serve env.readv env.writev) count 0 t >>= λ (t, serving).
        close_sockets t >>= λ (t, closing).
        shrink t >>= λ t. some (t, accepting ++ serving ++ closing)

unfoldable pub cm_poll : Environment → Table → Option (ℕ × Table × List Call)
cm_poll env t = close_sockets t >>= λ (t, closing). shrink t >>= λ t.
    each_slot want_output t.manager.connections_count 0 t >>= λ (t, wanting).
    poll_until env.poll_results >>= λ r. elim r [
      | poll_failed err ↦ some (close_cause_error, t, closing ++ wanting)
      | polled acceptor pipe es ↦
          let m = t.manager in
          let t = record t {
            manager = record m {
              slots = set_revents es m.slots;
              acceptor = record (m.acceptor) { revents = acceptor };
              pipe_in = record (m.pipe_in) { revents = pipe };
            };
          } in
          elim (pipe_cause env pipe) [
            | some cause ↦ some (cause, t, closing ++ wanting)
            | none ↦ serve_all env m.connections_count acceptor t >>= λ (t, calls).
                some (close_cause_none, t, closing ++ wanting ++ calls)
          ]
    ]

-- `write(m->pipe, &cmd, 1)`: the descriptor and the byte.
unfoldable pub cm_shutdown : Manager → ℤ × ℕ
cm_shutdown m = (m.pipe, close_cause_user)
