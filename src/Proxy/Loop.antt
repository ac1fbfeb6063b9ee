-- ===== src/Proxy/Loop.antt =====
-- 33. Proxy/main.c: the loop of `main`, its start and its end. The results of the system's calls are
-- arguments: a round of the loop has those of one `poll` and of what follows it.
use os_tasks.Prelude.{
  ℕ, zero, suc, ◌+◌, Bool, true, false, not, ◌&&◌, Option, none, some, ◌>>=◌, List, [], ◌∷◌, ◌++◌,
  ltb, if◌then◌else◌, map, replicate, get_elem?, store, ℤ, pos,
}
use os_tasks.RoundBuffer.{RoundBuffer, Received, Sent}
use os_tasks.Connection.{Events, no_events, pollin_only, PollFd}
use os_tasks.Proxy.{
  max_clients, ClientSlot, Proxy, shrink_slots, disconnect_client, Accepted, Calls,
  accept_connection, parse_port,
}
use os_tasks.Proxy.Directions.{Shutdown, Transfer, transfer}

-- The calls whose results are not used: the descriptors given to `close`, and `shutdown`.
pub data Call : Type 0 where
  closes : ℤ → Call
  shuts : Shutdown → Call

-- One of the two directions of a client, if it is active; the result is whether it still is.
unfoldable pub run_direction :
    (readv : ℤ → ℕ → Received) (writev : ℤ → List ℕ → Sent) (active : Bool) (in_fd out_fd : PollFd)
    → RoundBuffer
    → Transfer × Bool
run_direction readv writev active in_fd out_fd buf =
    if active
    then (let t = transfer readv writev in_fd out_fd buf in
        (t, elim t.ended [ none ↦ true | some s ↦ false ]))
    else (record { in_fd = in_fd; out_fd = out_fd; buf = buf; ended = none }, false)

abbrev pub shutdowns : Transfer → List Call
shutdowns t = elim t.ended [ none ↦ [] | some s ↦ shuts s ∷ [] ]

-- The body of the inner loop.
unfoldable pub serve_client :
    (readv : ℤ → ℕ → Received) (writev : ℤ → List ℕ → Sent) (i : ℕ)
    → List ClientSlot
    → Option (List ClientSlot × List Call)
serve_client readv writev i slots = get_elem? slots i >>= λ s. s.client >>= λ c.
    let (there, a) = run_direction readv writev c.src_dst_active s.src s.dst c.src_dst_buf in
    let (back, b) =
      run_direction readv writev c.dst_src_active there.out_fd there.in_fd c.dst_src_buf in
    let calls = shutdowns there ++ shutdowns back in
    store slots i (record {
      client = some (record c {
        src_dst_active = a;
        src_dst_buf = there.buf;
        dst_src_active = b;
        dst_src_buf = back.buf;
      });
      src = back.out_fd;
      dst = back.in_fd;
    })
    >>= λ slots.
        if not a && not b
        then (disconnect_client i slots >>= λ (slots, closed).
            some (slots, calls ++ map closes closed))
        else some (slots, calls)

-- The inner loop from `i` on, with `n` rounds left.
unfoldable pub serve_clients :
    (readv : ℤ → ℕ → Received) (writev : ℤ → List ℕ → Sent) (n i : ℕ)
    → List ClientSlot
    → Option (List ClientSlot × List Call)
serve_clients readv writev zero i slots = some (slots, [])
serve_clients readv writev (suc n) i slots = serve_client readv writev i slots >>= λ (slots, calls).
    serve_clients readv writev n (i + 1) slots >>= λ (slots, more). some (slots, calls ++ more)

-- What `poll` gives: the `revents` of the listener and of the slots in use, in their order; or an
-- error, after which the loop goes on or not.
pub data Polled : Type 0 where
  polled : (listener : Events) → List (Events × Events) → Polled
  poll_failed : (again : Bool) → Polled

pub record ProxyRound : Type 0 where
  pub polled : Polled
  pub accepted : Accepted
  pub calls : Calls
  pub readv : ℤ → ℕ → Received
  pub writev : ℤ → List ℕ → Sent

abbrev pub with_revents : List (Events × Events) → List ClientSlot → List ClientSlot
with_revents [] slots = slots
with_revents (e ∷ events) [] = []
with_revents ((src, dst) ∷ events) (s ∷ slots) =
    record s { src = record (s.src) { revents = src }; dst = record (s.dst) { revents = dst } }
    ∷ with_revents events slots

-- The body of the loop before `poll`.
abbrev pub prepare_listener : Proxy → Proxy
prepare_listener p = record p {
  listener = record (p.listener) {
    events = if ltb p.clients_count max_clients then pollin_only else no_events;
  };
}

-- The body of the loop after `poll`.
unfoldable pub proxy_round :
    ProxyRound → (listener : Events) → List (Events × Events) → Proxy → Option (Proxy × List Call)
proxy_round r listener events p =
    let p = record p {
      listener = record (p.listener) { revents = listener };
      slots = with_revents events p.slots;
    } in
    let saved_clients_count = p.clients_count in
    (if listener.pollin then accept_connection r.accepted r.calls p else some (p, []))
    >>= λ (p, closed).
        serve_clients r.readv r.writev saved_clients_count 0 p.slots >>= λ (slots, calls).
        shrink_slots (record p { slots = slots }) >>= λ p. some (p, map closes closed ++ calls)

-- The loop of `main`; where the rounds end, the signal has arrived.
unfoldable pub proxy_loop : List ProxyRound → Proxy → Option (Proxy × List Call)
proxy_loop [] p = some (p, [])
proxy_loop (r ∷ rounds) p = elim r.polled [
  | poll_failed again ↦
      if again then proxy_loop rounds (prepare_listener p) else some (prepare_listener p, [])
  | polled listener events ↦ proxy_round r listener events (prepare_listener p) >>= λ (p, calls).
      proxy_loop rounds p >>= λ (p, more). some (p, calls ++ more)
]

-- The loop at the end of `main`, from `i` on, with `n` rounds left.
unfoldable pub disconnect_all : (n i : ℕ) → List ClientSlot → Option (List ClientSlot × List Call)
disconnect_all zero i slots = some (slots, [])
disconnect_all (suc n) i slots = disconnect_client i slots >>= λ (slots, closed).
    disconnect_all n (i + 1) slots >>= λ (slots, more). some (slots, map closes closed ++ more)

-- The arguments that `parse_args` takes: the ports; whether the address is one is given. `none` is
-- the end of the program with the usage.
unfoldable pub parse_args :
    (strtol : List ℕ → ℤ) (is_address : List ℕ → Bool) (argv : List (List ℕ)) → Option (ℕ × ℕ)
parse_args strtol is_address (name ∷ listen ∷ target ∷ port ∷ []) =
    parse_port strtol listen >>= λ listen_port.
    if not (is_address target)
    then none
    else (parse_port strtol port >>= λ target_port. some (listen_port, target_port))
parse_args strtol is_address argv = none

-- The socket, if it listens, and the descriptor that is closed if not.
unfoldable pub start_listening_socket :
    (socket : Option ℤ) (bound listening : Bool) → Option ℤ × List Call
start_listening_socket none bound listening = (none, [])
start_listening_socket (some fd) bound listening =
    if bound && listening then (some fd, []) else (none, closes fd ∷ [])

abbrev pub zero_entry : PollFd
zero_entry = record { fd = pos 0; events = no_events; revents = no_events }

-- The variables when the loop starts: the pointers are null, and `fds` is cleared.
unfoldable pub prepare_poll_structures : (listening_socket : ℤ) → Proxy
prepare_poll_structures listening_socket = record {
  clients_count = 0;
  slots = replicate max_clients (record { client = none; src = zero_entry; dst = zero_entry });
  listener = record zero_entry { fd = listening_socket };
}

-- The exit code of `main`, and its calls.
unfoldable pub proxy_main :
    (strtol : List ℕ → ℤ) (is_address : List ℕ → Bool) (argv : List (List ℕ)) (socket : Option ℤ)
    (bound listening : Bool)
    → List ProxyRound
    → Option (ℕ × List Call)
proxy_main strtol is_address argv socket bound listening rounds =
    elim (parse_args strtol is_address argv) [
      | none ↦ some (1, [])
      | some ports ↦
          let (fd, calls) = start_listening_socket socket bound listening in
          elim fd [
            | none ↦ some (1, calls)
            | some fd ↦ proxy_loop rounds (prepare_poll_structures fd) >>= λ (p, calls).
                disconnect_all p.clients_count 0 p.slots >>= λ (slots, closed).
                some (0, calls ++ (closed ++ (closes fd ∷ [])))
          ]
    ]
