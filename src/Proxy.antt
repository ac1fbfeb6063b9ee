-- ===== src/Proxy.antt =====
-- 33. Proxy/main.c: a TCP proxy. ClientSlot i is `clients[i]` with its two entries of `fds`, 2 * i + 1 and
-- 2 * i + 2; `fds[0]` is the listener. A client stands in one slot below `clients_count`, so that the
-- slot holds it instead of its address. An address is an opaque number. The flags of a poll entry and
-- the cause of an error are those of the port forwarding, whose functions have the same text.
-- `none` is an access outside of an array, or the use of a null or freed pointer.
pub mod Slots
pub mod Transfers
pub mod Directions
pub mod Loop
pub mod Table
pub mod Serving
pub mod Rounds
pub mod Moves
pub mod Run
mod Tests
use os_tasks.Prelude.{
  ℕ, zero, suc, ◌+◌, ◌*◌, Bool, true, false, not, ◌&&◌, ◌||◌, Option, none, some, ◌>>=◌, List, [],
  ◌∷◌, ◌++◌, ◌==◌, ltb, if◌then◌else◌, length, get_elem?, store, ℤ, pos, negsuc,
}
use os_tasks.RoundBuffer.{RoundBuffer, Received, Sent, IoResult, no_iov}
use os_tasks.Connection.{
  Events, no_events, pollin_only, pollout_only, PollFd, complement, is_negative, clear_pollfd_flags,
  set_pollfd_flags, get_rw_error_cause, is_cause_none,
}
use os_tasks.ProxyBuffer.{rb_init, rb_full, rb_empty, write_rb, read_rb}

-- MAX_CLIENTS and BUFFER_SIZE.
abbrev pub max_clients : ℕ
max_clients = 510

abbrev pub buffer_size : ℕ
buffer_size = 1024

-- `struct client`
pub record Client : Type 0 where
  pub src_fd : ℤ
  pub dst_fd : ℤ
  pub src_dst_active : Bool
  pub dst_src_active : Bool
  pub src_dst_buf : RoundBuffer
  pub dst_src_buf : RoundBuffer
  pub src_address : ℕ

pub record ClientSlot : Type 0 where
  pub client : Option Client
  pub src : PollFd
  pub dst : PollFd

-- The variables of the program.
pub record Proxy : Type 0 where
  pub clients_count : ℕ
  pub slots : List ClientSlot
  pub listener : PollFd

unfoldable pub copy_slot : (ind_from ind_to : ℕ) → List ClientSlot → Option (List ClientSlot)
copy_slot ind_from ind_to slots =
    if ind_to == ind_from
    then some slots
    else get_elem? slots ind_from >>= λ s. store slots ind_to s

unfoldable pub can_add_slot : Proxy → Bool
can_add_slot p = ltb p.clients_count max_clients

-- The slot's number and the new state.
unfoldable pub add_slot : Client → Proxy → Option (ℕ × Proxy)
add_slot c p =
    let slot = p.clients_count in
    get_elem? p.slots slot >>= λ s.
    store p.slots slot (record {
      client = some c;
      src = record (s.src) { fd = c.src_fd; events = pollin_only };
      dst = record (s.dst) { fd = c.dst_fd; events = pollin_only };
    })
    >>= λ slots. some (slot, record p { clients_count = slot + 1; slots = slots })

unfoldable pub clear_slot : (slot : ℕ) → List ClientSlot → Option (List ClientSlot)
clear_slot slot slots = get_elem? slots slot >>= λ s. store slots slot (record s { client = none })

abbrev pub is_used : ClientSlot → Bool
is_used s = elim s.client [ none ↦ false | some c ↦ true ]

-- Whether `clients[j]` is not NULL.
unfoldable pub used_at : List ClientSlot → (j : ℕ) → Option Bool
used_at slots j = get_elem? slots j >>= λ s. some (is_used s)

-- The loop of `shrink_slots`, with `n` rounds left: the slots and the last `i`.
unfoldable pub shrink_slots_loop : (n j i : ℕ) → List ClientSlot → Option (ℕ × List ClientSlot)
shrink_slots_loop zero j i slots = some (i, slots)
shrink_slots_loop (suc n) j i slots = used_at slots j >>= λ used. elim used [
  | false ↦ shrink_slots_loop n (j + 1) i slots
  | true ↦ copy_slot j i slots >>= λ slots. shrink_slots_loop n (j + 1) (i + 1) slots
]

unfoldable pub shrink_slots : Proxy → Option Proxy
shrink_slots p = shrink_slots_loop p.clients_count 0 0 p.slots >>= λ (i, slots).
    some (record p { clients_count = i; slots = slots })

-- What the calls of `malloc` give: for the client, and for the two buffers in their order.
pub record ClientAllocations : Type 0 where
  pub client : Bool
  pub dst_src : Option (List ℕ)
  pub src_dst : Option (List ℕ)

-- `some none` is NULL. Where the second buffer cannot be made, the client is freed and then used.
unfoldable pub make_client :
    ClientAllocations → (addr : ℕ) (src_fd dst_fd : ℤ) → Option (Option Client)
make_client a addr src_fd dst_fd =
    if not a.client then some none else elim (rb_init a.dst_src buffer_size) [
      | none ↦ some none
      | some dst_src_buf ↦ rb_init a.src_dst buffer_size >>= λ src_dst_buf. some (
          some (record {
            src_fd = src_fd;
            dst_fd = dst_fd;
            src_dst_active = true;
            dst_src_active = true;
            src_dst_buf = src_dst_buf;
            dst_src_buf = dst_src_buf;
            src_address = addr;
          }))
    ]

-- The results of `add_client`: a slot, -2 and -1.
pub data Added : Type 0 where
  added : ℕ → Added
  no_slots system_error : Added

unfoldable pub add_client :
    ClientAllocations → (addr : ℕ) (src_fd dst_fd : ℤ) → Proxy → Option (Added × Proxy)
add_client a addr src_fd dst_fd p =
    if not (can_add_slot p)
    then some (no_slots, p)
    else (make_client a addr src_fd dst_fd >>= λ c. elim c [
      | none ↦ some (system_error, p)
      | some c ↦ add_slot c p >>= λ (slot, p). some (added slot, p)
    ])

-- The slots, and the descriptors that were closed.
unfoldable pub disconnect_client : (slot : ℕ) → List ClientSlot → Option (List ClientSlot × List ℤ)
disconnect_client slot slots = get_elem? slots slot >>= λ s.
    s.client >>= λ c. clear_slot slot slots >>= λ slots. some (slots, c.src_fd ∷ c.dst_fd ∷ [])

-- What `accept` gives: a descriptor with an address, or an error, after which nothing is done.
pub data Accepted : Type 0 where
  accepted : (incoming : ℤ) (addr : ℕ) → Accepted
  accept_failed : Accepted

-- The results of the other calls of `accept_connection`: `socket`, `connect`, `malloc` and `close`.
pub record Calls : Type 0 where
  pub socket : Option ℤ
  pub connected : Bool
  pub allocations : ClientAllocations
  pub closes : ℤ → Bool

-- The labels `close_both_sockets` and `close_incoming_socket`: the descriptors given to `close`.
abbrev pub close_both_sockets : Calls → (outcoming incoming : ℤ) → List ℤ
close_both_sockets calls outcoming incoming =
    if calls.closes outcoming then outcoming ∷ incoming ∷ [] else outcoming ∷ []

unfoldable pub accept_connection : Accepted → Calls → Proxy → Option (Proxy × List ℤ)
accept_connection accept_failed calls p = some (p, [])
accept_connection (accepted incoming addr) calls p =
    if not (can_add_slot p) then some (p, incoming ∷ []) else elim calls.socket [
      | none ↦ some (p, incoming ∷ [])
      | some outcoming ↦
          if not calls.connected
          then some (p, close_both_sockets calls outcoming incoming)
          else (add_client calls.allocations addr incoming outcoming p >>= λ (slot, p). elim slot [
            | system_error ↦ some (p, close_both_sockets calls outcoming incoming)
            | no_slots ↦ some (p, [])
            | added n ↦ some (p, [])
          ])
    ]

-- `strtol` gives a value; `none` is -1.
unfoldable pub parse_port : (strtol : List ℕ → ℤ) (str : List ℕ) → Option ℕ
parse_port strtol str = elim (strtol str) [
  | negsuc n ↦ none
  | pos n ↦ if ltb 65535 n then none else some n
]
