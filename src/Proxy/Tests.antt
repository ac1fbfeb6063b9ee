-- ===== src/Proxy/Tests.antt =====
-- Runs of the proxy.
use os_tasks.Prelude.{
  ℕ, ◌-◌, ◌≤◌, ◌≡◌, refl, ap, true, false, none, some, List, [], ◌∷◌, ◌++◌, drop, take, length,
  length-take, min, arith, ℤ, pos, replicate, reads, positions,
}
use os_tasks.RoundBuffer.{RoundBuffer, Received, received, read_failed, Sent, sent, write_failed}
use os_tasks.RoundBuffer.Inv.{IsValid, contents}
use os_tasks.Connection.{Events, PollFd}
use os_tasks.Connection.Polling.{real_fd}
use os_tasks.Proxy.{Client, ClientSlot, Proxy, accepted, parse_port}
use os_tasks.Proxy.Directions.{shut_wr, Transfer, transfer}
use os_tasks.Proxy.Loop.{
  Call, closes, run_direction, ProxyRound, polled, proxy_round, proxy_loop, parse_args,
  prepare_poll_structures, proxy_main,
}
use os_tasks.Proxy.Table.{IsTable}
use os_tasks.Proxy.Transfers.{Flagged, transfer_flags}
use os_tasks.Proxy.Moves.{transfer_moves, eof_strands}
use os_tasks.Proxy.Rounds.{proxy_round_lem}
use os_tasks.Proxy.Run.{sockets_of, DisconnectsAll, proxy_main_lem}

abbrev both : Events
both = record { pollin = true; pollout = true }

abbrev entry : ℕ → PollFd
entry n = record { fd = pos n; events = both; revents = both }

-- 8, then 9, with free places on both sides.
abbrev halfway : RoundBuffer
halfway = record { offset = 1; length = 2; capacity = 5; buffer = 0 ∷ 8 ∷ 9 ∷ 0 ∷ 0 ∷ [] }

abbrev arriving : List ℕ → ℤ → ℕ → Received
arriving xs fd room = received (take room xs)

abbrev taking : ℕ → ℤ → List ℕ → Sent
taking n fd xs = sent (min n (length xs))

received_length : Received → ℕ
received_length (received xs) = length xs
received_length (read_failed e) = 0

sent_count : Sent → ℕ
sent_count (sent n) = n
sent_count (write_failed e) = 0

arriving_lem :
    (xs : List ℕ) (fd : ℤ) (k : ℕ) (ys : List ℕ) → arriving xs fd k ≡ received ys → length ys ≤ k
unfolding received_length
arriving_lem xs fd k ys e = omega (arith, ap received_length e, length-take k xs)

taking_lem : (m : ℕ) (fd : ℤ) (xs : List ℕ) (n : ℕ) → taking m fd xs ≡ sent n → n ≤ length xs
unfolding sent_count
taking_lem m fd xs n e = omega (arith, ap sent_count e)

transfer_flags_example :
    Flagged
      (entry 3)
      (entry 4)
      (transfer (arriving (5 ∷ [])) (taking 2) (entry 3) (entry 4) halfway)
transfer_flags_example = transfer_flags (arriving (5 ∷ [])) (taking 2) (entry 3) (entry 4) halfway

transfer_moves_example :
    ((transfer (arriving (5 ∷ [])) (taking 2) (entry 3) (entry 4) halfway).ended ≡ none)
    × (contents (transfer (arriving (5 ∷ [])) (taking 2) (entry 3) (entry 4) halfway).buf
        ≡ drop 2 (contents halfway ++ (5 ∷ [])))
    × IsValid (transfer (arriving (5 ∷ [])) (taking 2) (entry 3) (entry 4) halfway).buf
unfolding reads positions
transfer_moves_example =
    transfer_moves (arriving (5 ∷ [])) (taking 2) (entry 3) (entry 4) halfway 5 [] 1
      (arriving_lem (5 ∷ []) (pos 3)) (taking_lem 2 (pos 4)) (omega arith) (omega arith)
      (omega arith) refl refl refl refl

eof_strands_example :
    (t : Transfer) × (run_direction (arriving []) (taking 2) true (entry 3) (entry 4) halfway
      ≡ (t, false))
    × (contents t.buf ≡ contents halfway)
    × (t.out_fd.events.pollout ≡ false)
    × (t.ended ≡ some (record { fd = real_fd (entry 4); dir = shut_wr }))
    × ((readv' : ℤ → ℕ → Received) (writev' : ℤ → List ℕ → Sent) (p' q' : PollFd)
        → run_direction readv' writev' false p' q' t.buf
          ≡ (record { in_fd = p'; out_fd = q'; buf = t.buf; ended = none }, false))
eof_strands_example =
    eof_strands (arriving []) (taking 2) (entry 3) (entry 4) halfway (arriving_lem [] (pos 3))
      (omega arith) (omega arith) (omega arith) refl refl

abbrev client : Client
client = record {
  src_fd = pos 3;
  dst_fd = pos 4;
  src_dst_active = true;
  dst_src_active = false;
  src_dst_buf = halfway;
  dst_src_buf = halfway;
  src_address = 7;
}

abbrev free_slot : ClientSlot
free_slot = record { client = none; src = entry 0; dst = entry 0 }

abbrev client_slot : ClientSlot
client_slot = record { client = some client; src = entry 3; dst = entry 4 }

-- A client behind a free slot.
abbrev gap : Proxy
gap = record {
  clients_count = 2;
  slots = free_slot ∷ client_slot ∷ free_slot ∷ [];
  listener = entry 1;
}

-- One client in the table, whose input ends, while another connects.
abbrev busy : Proxy
busy = record {
  clients_count = 1;
  slots = client_slot ∷ replicate 509 free_slot;
  listener = entry 1;
}

abbrev busy_round : ProxyRound
busy_round = record {
  polled = polled both ((both, both) ∷ []);
  accepted = accepted (pos 5) 8;
  calls = record {
    socket = some (pos 6);
    connected = true;
    allocations = record { client = true; dst_src = some []; src_dst = some [] };
    closes = λ fd. true;
  };
  readv = arriving [];
  writev = taking 1;
}

busy-IsTable : IsTable busy
busy-IsTable = record { size = refl; bound = omega arith; all_used = (refl, tt) }

proxy_round_example :
    (p' : Proxy) × (calls : List Call) × (proxy_round busy_round both ((both, both) ∷ []) busy
      ≡ some (p', calls))
    × IsTable p'
proxy_round_example =
    proxy_round_lem busy_round both ((both, both) ∷ []) busy busy-IsTable ([], refl)

abbrev argv : List (List ℕ)
argv = (112 ∷ []) ∷ (56 ∷ []) ∷ (49 ∷ []) ∷ (57 ∷ []) ∷ []

abbrev digit : List ℕ → ℤ
digit [] = pos 0
digit (x ∷ xs) = pos (x - 48)

proxy_main_example :
    (p : Proxy) × (calls : List Call) × (proxy_loop
        (busy_round ∷ [])
        (prepare_poll_structures (pos 2))
      ≡ some (p, calls))
    × IsTable p
    × DisconnectsAll p
    × (proxy_main digit (λ s. true) argv (some (pos 2)) true true (busy_round ∷ [])
        ≡ some (0, calls ++ (sockets_of (take p.clients_count p.slots) ++ (closes (pos 2) ∷ []))))
unfolding parse_args parse_port
proxy_main_example =
    proxy_main_lem digit (λ s. true) argv (8, 9) (pos 2) (busy_round ∷ []) refl (([], refl), tt)
