-- ===== src/Controller/Start.antt =====
-- 34-35. Port forwarding/controller.c: `start_controller`.
use os_tasks.Prelude.{
  ℕ, ◌*◌, ◌-◌, ◌+◌, ltb, ◌%◌, ◌^◌, Bool, true, false, ◌&&◌, Option, none, some, ◌>>=◌, List, [],
  ◌∷◌, ◌++◌, if◌then◌else◌, pos, length,
}
use os_tasks.CmdQueue.{Command}
use os_tasks.Connection.{Allocations, make_connection}
use os_tasks.Manager.{Slot, Manager, Table, Call, close, cm_connect, cm_add_connection}
use os_tasks.Manager.Poll.{init_manager, init_accepting_manager, destroy_manager}
use os_tasks.Pump.{World, make_pump}
use os_tasks.Controller.{Control, id_stack_init}

-- What the system gives to `accept_tunnel_connection`: the results of `socket`, `bind`, `listen` and
-- `accept`, with the peer's address.
pub record TunnelCalls : Type 0 where
  pub sock : Option ℕ
  pub bound : Bool
  pub listening : Bool
  pub accepted : Option (ℕ × ℕ)
  pub allocations : Allocations

-- From `accept` on, with the listening socket `ls`.
unfoldable pub accept_tunnel :
    TunnelCalls → (ls buf_size : ℕ) → Table → Option (Bool × Table × List Call)
accept_tunnel env ls buf_size t = elim env.accepted [
  | none ↦ some (false, t, close (pos ls) ∷ [])
  | some (s, addr) ↦ elim (make_connection env.allocations addr buf_size buf_size (pos 0)) [
    | none ↦ some (false, t, close (pos ls) ∷ [])
    | some c ↦ cm_add_connection t.manager (length t.objects) (pos s) >>= λ (res, m).
        some (true, record { manager = m; objects = t.objects ++ (c ∷ []) }, close (pos ls) ∷ [])
  ]
]

unfoldable pub accept_tunnel_connection :
    TunnelCalls → (buf_size : ℕ) → Table → Option (Bool × Table × List Call)
accept_tunnel_connection env buf_size t = elim env.sock [
  | none ↦ some (false, t, [])
  | some ls ↦
      let rest = accept_tunnel env ls buf_size t in
      if env.bound && env.listening then rest else some (false, t, close (pos ls) ∷ [])
]

-- What the system gives to `start_controller`, in the order of the calls: `malloc` of the controller,
-- the calls of `make_pump`, of the manager, and of the tunnel.
pub record StartCalls : Type 0 where
  pub c_allocated : Bool
  pub queue : Option (List Command)
  pub q_allocated : Bool
  pub pump_allocated : Bool
  pub slots : List Slot
  pub pipe_fds : Option (ℕ × ℕ)
  pub acceptor_sock : Option ℕ
  pub acceptor_bound : Bool
  pub acceptor_listening : Bool
  pub allocations : Allocations
  pub connect_sock : Option ℕ
  pub connected : Bool
  pub tunnel : TunnelCalls

-- The conversion of a `size_t` to `int`, of 32 bits, and back.
abbrev pub through_int : ℕ → ℕ
through_int n = let m = n % 2 ^ 32 in if ltb m (2 ^ 31) then m else m + (2 ^ 64 - 2 ^ 32)

-- `init_accepting_manager` takes the size as an `int`.
unfoldable pub start_manager :
    StartCalls → (accepting : Bool) (buf_size : ℕ) → Option (Option Manager × List Call)
start_manager env accepting buf_size =
    let accepting_manager =
      init_accepting_manager env.slots env.pipe_fds env.acceptor_sock env.acceptor_bound
        env.acceptor_listening (through_int buf_size) in
    if accepting then accepting_manager else some (init_manager env.slots env.pipe_fds, [])

unfoldable pub start_tunnel :
    StartCalls → (accepting : Bool) (addr buf_size : ℕ) → Table → Option (Bool × Table × List Call)
start_tunnel env accepting addr buf_size t =
    let bs = (buf_size * 10) % 2 ^ 64 in
    if accepting
    then cm_connect env.allocations env.connect_sock env.connected t addr bs bs (pos 0)
    else accept_tunnel_connection env.tunnel bs t

-- The result is `none` inside where `start_controller` returns NULL, with the calls of `close`.
unfoldable pub start_controller :
    StartCalls
    → (buf_size : ℕ) (accepting : Bool) (addr : ℕ) → Option (Option (World Control) × List Call)
start_controller env buf_size accepting addr =
    if env.c_allocated
    then elim (make_pump env.queue env.q_allocated env.pump_allocated 512) [
      | none ↦ some (none, [])
      | some pump ↦ start_manager env accepting buf_size >>= λ (manager, calls). elim manager [
        | none ↦ some (none, calls)
        | some m ↦
            start_tunnel env accepting addr buf_size (record { manager = m; objects = [] })
            >>= λ (started, t, closing). elim started [
              | true ↦ some (
                some (record {
                  pump = pump;
                  objects = t.objects;
                  rest = record {
                    manager = t.manager;
                    free_ids = id_stack_init;
                    address = addr;
                    accepting = accepting;
                    buf_size = buf_size;
                    calls = closing;
                  };
                }),
                closing,
              )
              | false ↦ destroy_manager t >>= λ destroying. some (none, closing ++ destroying)
            ]
      ]
    ]
    else some (none, [])
