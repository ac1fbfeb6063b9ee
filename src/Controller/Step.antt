-- ===== src/Controller/Step.antt =====
-- 34-35. Port forwarding/controller.c: `handle_state_changes`, `on_command` and `update`.
use os_tasks.Prelude.{
  ℕ, zero, suc, ◌+◌, Bool, true, false, not, ◌&&◌, ◌||◌, Option, none, some, ◌>>=◌, List, ◌++◌,
  ◌==◌, if◌then◌else◌, ℤ, pos, negsuc, get_elem?, store, replicate,
}
use os_tasks.Connection.{Connection, Allocations}
use os_tasks.Manager.{Slot, cm_connect}
use os_tasks.Manager.Poll.{Environment, cm_poll, close_cause_none, close_cause_error}
use os_tasks.Pump.{World, running, exited, send_command, modify, to_byte, pump_transfer}
use os_tasks.Controller.{
  cmd_new, cmd_close, cmd_close_src_to_dst, cmd_close_dst_to_src, cmd_ack, sort_connections,
  is_new_connection, should_close_connection, should_close_in, should_close_out, Control, State,
  state_ok, state_again, state_shutdown, tell, give_back,
}

-- The steps of `handle_state_changes` for one connection; the result is false where it returns
-- STATE_AGAIN.
unfoldable pub announce : (addr : ℕ) → World Control → Option (Bool × World Control)
announce addr w = get_elem? w.objects addr >>= λ c.
    if is_new_connection c
    then tell cmd_new (to_byte c.id) addr
        (λ c. record c { state = record (c.state) { cs_new = false; cs_stopped = true } }) w
    else some (true, w)

unfoldable pub end_in : (addr : ℕ) → World Control → Option (Bool × World Control)
end_in addr w = get_elem? w.objects addr >>= λ c.
    if not c.in_state.cs_delete && should_close_in c
    then tell cmd_close_src_to_dst (to_byte c.id) addr
        (λ c. record c { in_state = record (c.in_state) { cs_delete = true } }) w
    else some (true, w)

unfoldable pub end_out : (addr : ℕ) → World Control → Option (Bool × World Control)
end_out addr w = get_elem? w.objects addr >>= λ c.
    if not c.out_state.cs_delete && should_close_out c
    then tell cmd_close_dst_to_src (to_byte c.id) addr
        (λ c. record c { out_state = record (c.out_state) { cs_delete = true } }) w
    else some (true, w)

unfoldable pub end_both :
    (i addr : ℕ) (connections : List (Option ℕ))
    → World Control
    → Option (Bool × List (Option ℕ) × World Control)
end_both i addr connections w = get_elem? w.objects addr >>= λ c.
    tell cmd_close (to_byte c.id) addr
      (λ c. record c { state = record (c.state) { cs_delete = true } }) w
    >>= λ (sent, w).
        if sent
        then (give_back c.id w >>= λ w.
            store connections i none >>= λ connections. some (true, connections, w))
        else some (false, connections, w)

unfoldable pub handle_connection :
    (i addr : ℕ) (connections : List (Option ℕ))
    → World Control
    → Option (Bool × List (Option ℕ) × World Control)
handle_connection i addr connections w = announce addr w >>= λ (sent, w). elim sent [
  | false ↦ some (false, connections, w)
  | true ↦ get_elem? w.objects addr >>= λ c.
      if should_close_connection c
      then end_both i addr connections w
      else (end_in addr w >>= λ (sent, w). elim sent [
        | false ↦ some (false, connections, w)
        | true ↦ end_out addr w >>= λ (sent, w). some (sent, connections, w)
      ])
]

-- The loop of `handle_state_changes`, with `n` rounds left, from `i` on.
unfoldable pub handle_loop :
    (n i : ℕ) (connections : List (Option ℕ))
    → World Control
    → Option (State × List (Option ℕ) × World Control)
handle_loop zero i connections w = some (state_ok, connections, w)
handle_loop (suc n) i connections w = get_elem? connections i >>= λ p. elim p [
  | none ↦ handle_loop n (i + 1) connections w
  | some addr ↦ handle_connection i addr connections w >>= λ (go_on, connections', w'). elim go_on [
    | true ↦ handle_loop n (i + 1) connections' w'
    | false ↦ some (state_again, connections', w')
  ]
]

unfoldable pub handle_state_changes :
    (connections : List (Option ℕ))
    → World Control
    → Option (State × List (Option ℕ) × World Control)
handle_state_changes connections w = get_elem? connections 0 >>= λ p. p >>= λ addr.
    get_elem? w.objects addr >>= λ tunnel.
    if tunnel.state.cs_closed || tunnel.in_state.cs_closed || tunnel.out_state.cs_closed
    then some (state_shutdown, connections, w)
    else handle_loop 255 1 connections w

-- `id == arg`
abbrev pub is_id : ℕ → ℤ → Bool
is_id arg (pos n) = n == arg
is_id arg (negsuc n) = false

-- The first connection with the id, among `n` slots from `i` on.
unfoldable pub find_id :
    (arg n i : ℕ) (slots : List Slot) (objects : List Connection) → Option (Option ℕ)
find_id arg zero i slots objects = some none
find_id arg (suc n) i slots objects = get_elem? slots i >>= λ s. s.conn >>= λ addr.
    get_elem? objects addr >>= λ c.
    let rest = find_id arg n (i + 1) slots objects in
    if is_id arg c.id then some (some addr) else rest

-- CMD_NEW; the system's results are those of `cm_connect`.
unfoldable pub on_new :
    Allocations
    → (sock : Option ℕ) (connected : Bool) (arg : ℕ) → World Control
    → Option (World Control)
on_new a sock connected arg w =
    let r = w.rest in
    cm_connect a sock connected (record { manager = r.manager; objects = w.objects }) r.address
      r.buf_size r.buf_size (pos arg)
    >>= λ (made, t, calls).
        send_command w.pump (if made then cmd_ack else cmd_close) arg >>= λ (sent, pump).
        some (record {
          pump = pump;
          objects = t.objects;
          rest = record r { manager = t.manager; calls = r.calls ++ calls };
        })

abbrev change_at : (addr : ℕ) (f : Connection → Connection) → World Control → Option (World Control)
change_at addr f w = modify addr f w.objects >>= λ os. some (record w { objects = os })

-- The other commands, at the connection with the id.
pub on_connection : (cmd addr : ℕ) → World Control → Option (World Control)
on_connection cmd addr w =
    if cmd == cmd_close
    then (get_elem? w.objects addr >>= λ c.
        change_at addr (λ c. record c { state = record (c.state) { cs_delete = true } }) w >>= λ w.
        give_back c.id w)
    else if cmd == cmd_close_src_to_dst
    then change_at addr (λ c. record c { out_state = record (c.out_state) { cs_delete = true } }) w
    else if cmd == cmd_close_dst_to_src
    then change_at addr (λ c. record c { in_state = record (c.in_state) { cs_delete = true } }) w
    else change_at addr (λ c. record c { state = record (c.state) { cs_stopped = false } }) w

unfoldable pub on_command :
    Allocations
    → (sock : Option ℕ) (connected : Bool) (cmd arg : ℕ) → World Control
    → Option (World Control)
on_command a sock connected cmd arg w =
    let found = find_id arg w.rest.manager.connections_count 0 w.rest.manager.slots w.objects in
    if cmd == cmd_new
    then (found >>= λ p. elim p [ some addr ↦ some w | none ↦ on_new a sock connected arg w ])
    else if cmd == cmd_close
        || cmd == cmd_close_src_to_dst
        || cmd == cmd_close_dst_to_src
        || cmd == cmd_ack
    then (found >>= λ p. elim p [ some addr ↦ on_connection cmd addr w | none ↦ some w ])
    else some w

-- What `update` returns, or `exit(2)`.
pub data Updated : Type 0 where
  returned : ℕ → World Control → Updated
  update_exited : Updated

-- `update` once the tunnel is known to be there.
unfoldable pub update_connections :
    (handler : (cmd arg : ℕ) → World Control → Option (World Control))
    (connections : List (Option ℕ))
    → World Control
    → Option Updated
update_connections handler connections w =
    handle_state_changes connections w >>= λ (state, connections, w). elim state [
      | state_again ↦ some (returned close_cause_none w)
      | state_shutdown ↦ some (returned close_cause_error w)
      | state_ok ↦ pump_transfer handler connections w >>= λ r. elim r [
        | running w ↦ some (returned close_cause_none w)
        | exited ↦ some update_exited
      ]
    ]

-- Without a connection, or without the tunnel, it returns after the sorting.
unfoldable pub update :
    Environment
    → (handler : (cmd arg : ℕ) → World Control → Option (World Control)) → World Control
    → Option Updated
update env handler w =
    let r = w.rest in
    cm_poll env (record { manager = r.manager; objects = w.objects }) >>= λ (cause, t, calls).
    let w = record w {
      objects = t.objects;
      rest = record r { manager = t.manager; calls = r.calls ++ calls };
    } in
    if not (cause == close_cause_none)
    then some (returned cause w)
    else (sort_connections t.manager.connections_count 0 t.manager.slots
          (record { free_ids = r.free_ids; sorted = replicate 256 none; objects = t.objects })
        >>= λ s.
            let w = record w {
              objects = s.objects;
              rest = record (w.rest) { free_ids = s.free_ids };
            } in
            get_elem? s.sorted 0 >>= λ tunnel. elim tunnel [
              | none ↦ some (returned close_cause_none w)
              | some addr ↦ update_connections handler s.sorted w
            ])
