-- ===== src/Controller.antt =====
-- 34-35. Port forwarding/controller.c: the ids of the connections, and what is done with the
-- connections' states and with the tunnel's commands. `none` is an access outside of an array or
-- the use of a null pointer.
pub mod Ids
pub mod Sorted
pub mod Steady
pub mod Changes
pub mod Updating
pub mod Courses
pub mod Starting
pub mod Opening
pub mod Step
pub mod Start
mod Tests
use os_tasks.Prelude.{
  ℕ, zero, suc, ◌+◌, ◌-◌, Bool, true, false, not, ◌&&◌, ◌||◌, Option, none, some, ◌>>=◌, List, [],
  ◌∷◌, ◌++◌, ◌==◌, ltb, if◌then◌else◌, ℤ, pos, negsuc, get_elem?, store,
}
use os_tasks.RoundBuffer.{buf_empty}
use os_tasks.Connection.{Connection, Flags, Allocations}
use os_tasks.Manager.{Slot, Manager, Table, Call, cm_connect}
use os_tasks.Pump.{Pump, World, send_command, modify}

abbrev pub cmd_new : ℕ
cmd_new = 1

abbrev pub cmd_close : ℕ
cmd_close = 2

abbrev pub cmd_close_src_to_dst : ℕ
cmd_close_src_to_dst = 3

abbrev pub cmd_close_dst_to_src : ℕ
cmd_close_dst_to_src = 4

abbrev pub cmd_ack : ℕ
cmd_ack = 5

-- `struct id_stack`; MAX_STACK_SIZE is 255.
pub record IdStack : Type 0 where
  pub stack : List ℤ
  pub cnt : ℕ

-- The entries that `id_stack_init` stores: 255 - i from `i` on, `n` of them.
unfoldable pub init_ids : (n : ℕ) → List ℤ
init_ids zero = []
init_ids (suc n) = pos (suc n) ∷ init_ids n

unfoldable pub id_stack_init : IdStack
id_stack_init = record { stack = init_ids 255; cnt = 255 }

unfoldable pub id_stack_empty : IdStack → Bool
id_stack_empty s = s.cnt == 0

unfoldable pub id_stack_push : IdStack → ℤ → Option IdStack
id_stack_push s id =
    if s.cnt == 255
    then some s
    else store s.stack s.cnt id >>= λ stack. some (record { stack = stack; cnt = s.cnt + 1 })

unfoldable pub id_stack_pop : IdStack → Option (ℤ × IdStack)
id_stack_pop s =
    if s.cnt == 0
    then some (negsuc 0, s)
    else get_elem? s.stack (s.cnt - 1) >>= λ id. some (id, record s { cnt = s.cnt - 1 })

-- `c->id > MAX_CONNECTIONS || c->id < 0`
abbrev pub needs_id : ℤ → Bool
needs_id (pos n) = ltb 256 n
needs_id (negsuc n) = true

-- `sorted[id] = c`
unfoldable pub put_sorted : ℤ → (c : ℕ) → List (Option ℕ) → Option (List (Option ℕ))
put_sorted (pos n) c sorted = store sorted n (some c)
put_sorted (negsuc n) c sorted = none

-- What `sort_connections` changes.
pub record Sorting : Type 0 where
  pub free_ids : IdStack
  pub sorted : List (Option ℕ)
  pub objects : List Connection

unfoldable pub sort_connection : (addr : ℕ) → Sorting → Option Sorting
sort_connection addr s = get_elem? s.objects addr >>= λ c.
    let assigned = id_stack_pop s.free_ids >>= λ (id, free_ids).
    modify addr (λ c. record c { id = id }) s.objects >>= λ objects.
    put_sorted id addr s.sorted >>= λ sorted.
    some (record { free_ids = free_ids; sorted = sorted; objects = objects }) in
    if needs_id c.id
    then if id_stack_empty s.free_ids then some s else assigned
    else (put_sorted c.id addr s.sorted >>= λ sorted. some (record s { sorted = sorted }))

-- The loop of `sort_connections`, after `memset`, with `n` rounds left, from slot `i` on.
unfoldable pub sort_connections : (n i : ℕ) (slots : List Slot) → Sorting → Option Sorting
sort_connections zero i slots s = some s
sort_connections (suc n) i slots s = get_elem? slots i >>= λ slot.
    slot.conn >>= λ addr. sort_connection addr s >>= λ s. sort_connections n (i + 1) slots s

unfoldable pub is_new_connection : Connection → Bool
is_new_connection c = c.state.cs_new

unfoldable pub should_close_connection : Connection → Bool
should_close_connection c = buf_empty c.in_buf && buf_empty c.out_buf && c.state.cs_closed

unfoldable pub should_close_in : Connection → Bool
should_close_in c = buf_empty c.in_buf && c.in_state.cs_closed

unfoldable pub should_close_out : Connection → Bool
should_close_out c = buf_empty c.out_buf && c.out_state.cs_closed

-- `struct controller`, without the pump, and the calls of `close` so far.
pub record Control : Type 0 where
  pub manager : Manager
  pub free_ids : IdStack
  pub address : ℕ
  pub accepting : Bool
  pub buf_size : ℕ
  pub calls : List Call

-- STATE_OK, STATE_AGAIN and STATE_SHUTDOWN.
pub data State : Type 0 where
  state_ok state_again state_shutdown : State

-- `send_command(controller->pump, cmd, id)`, with the conversion of the id to a byte, and then a
-- change of the connection; the result is false if the queue is full.
unfoldable pub tell :
    (cmd id addr : ℕ) (change : Connection → Connection)
    → World Control
    → Option (Bool × World Control)
tell cmd id addr change w = send_command w.pump cmd id >>= λ (sent, pump).
    if sent
    then (modify addr change w.objects >>= λ os.
        some (true, record w { pump = pump; objects = os }))
    else some (false, record w { pump = pump })

-- `id_stack_push(&controller->free_ids, id)`, if the controller accepts.
unfoldable pub give_back : ℤ → World Control → Option (World Control)
give_back id w =
    if w.rest.accepting
    then (id_stack_push w.rest.free_ids id >>= λ ids.
        some (record w { rest = record (w.rest) { free_ids = ids } }))
    else some w
