-- ===== src/Forward.antt =====
-- 34-35. Port forwarding/main.c: the program's arguments, its start, its loop and its end. `none` is the
-- end of the given rounds, or what is `none` in the controller.
pub mod Stopping
mod Tests
use os_tasks.Prelude.{
  ℕ, ◌+◌, ◌^◌, Bool, true, false, ◌&&◌, Option, none, some, ◌>>=◌, List, [], ◌∷◌, ◌++◌, ◌==◌,
  if◌then◌else◌, ℤ,
}
use Prim.Native.Nat.{◌*◌}
use os_tasks.Proxy.{parse_port}
use os_tasks.Manager.{Table, Call}
use os_tasks.Manager.Poll.{
  Environment, cm_shutdown, destroy_manager, close_cause_user, close_cause_error,
}
use os_tasks.Pump.{World}
use os_tasks.Controller.{Control}
use os_tasks.Controller.Updating.{table_of}
use os_tasks.Controller.Start.{StartCalls, start_controller}
use os_tasks.Controller.Step.{Updated, returned, update_exited, update}

abbrev pub buffer_size : ℕ
buffer_size = 10240

-- Whether `strcmp` gives 0.
abbrev pub same_text : List ℕ → List ℕ → Bool
same_text [] [] = true
same_text [] (y ∷ ys) = false
same_text (x ∷ xs) [] = false
same_text (x ∷ xs) (y ∷ ys) = (x == y) && same_text xs ys

-- "server" and "client"
abbrev pub server_command : List ℕ
server_command = 115 ∷ 101 ∷ 114 ∷ 118 ∷ 101 ∷ 114 ∷ []

abbrev pub client_command : List ℕ
client_command = 99 ∷ 108 ∷ 105 ∷ 101 ∷ 110 ∷ 116 ∷ []

-- `is_server`, the port of `listen_addr`, and `dst_address` as a number.
pub record Settings : Type 0 where
  pub is_server : Bool
  pub listen_port : ℕ
  pub dst_address : ℕ

abbrev pub socket_address : (ip port : ℕ) → ℕ
socket_address ip port = ip * 2 ^ 16 + port

-- The command: whether it is "server"; `none` if it is unknown.
unfoldable pub parse_command : List ℕ → Option Bool
parse_command command =
    if same_text command server_command
    then some true
    else if same_text command client_command
    then some false
    else none

-- `none` is the end of the program with the usage.
unfoldable pub parse_args :
    (strtol : List ℕ → ℤ) (inet_aton : List ℕ → Option ℕ) (argv : List (List ℕ)) → Option Settings
parse_args strtol inet_aton (name ∷ command ∷ listen ∷ target ∷ target_port ∷ []) =
    parse_command command >>= λ is_server. parse_port strtol listen >>= λ port.
    inet_aton target >>= λ ip. parse_port strtol target_port >>= λ dst_port.
    some (record {
      is_server = is_server;
      listen_port = port;
      dst_address = socket_address ip dst_port;
    })
parse_args strtol inet_aton argv = none

-- The byte that the signal's handler writes, and where; `controller` may still be NULL.
unfoldable pub termination_signal_handler : (controller : Option (World Control)) → List (ℤ × ℕ)
termination_signal_handler none = []
termination_signal_handler (some w) = cm_shutdown w.rest.manager ∷ []

-- One call of `update`: what the system gives, and what it does with the tunnel's commands.
pub record Round : Type 0 where
  pub env : Environment
  pub handler : (cmd arg : ℕ) → World Control → Option (World Control)

-- How the loop ends: with a message and `break`, or by an `exit(2)` in a call of `update`, whose own
-- calls of `close` are not listed.
pub data Ending : Type 0 where
  controller_stopped something_wrong exited_2 : Ending

-- The loop of `main`.
unfoldable pub main_loop : List Round → World Control → Option (Ending × World Control)
main_loop [] w = none
main_loop (r ∷ rounds) w = update r.env r.handler w >>= λ u. elim u [
  | update_exited ↦ some (exited_2, w)
  | returned cause w' ↦ elim (cause == close_cause_user) [
    | true ↦ some (controller_stopped, w')
    | false ↦ elim (cause == close_cause_error) [
      | true ↦ some (something_wrong, w')
      | false ↦ main_loop rounds w'
    ]
  ]
]

-- `destroy_controller`: all the calls of `close`.
unfoldable pub destroy_controller : World Control → Option (List Call)
destroy_controller w = destroy_manager (table_of w) >>= λ calls. some (w.rest.calls ++ calls)

-- From the end of the loop on: the exit code of the program, and the calls of `close`.
unfoldable pub end_main : Ending → World Control → Option (ℕ × List Call)
end_main exited_2 w = some (2, w.rest.calls)
end_main controller_stopped w = destroy_controller w >>= λ calls. some (0, calls)
end_main something_wrong w = destroy_controller w >>= λ calls. some (0, calls)

-- `main`: the server waits for the tunnel, the client accepts connections.
unfoldable pub forward_main :
    (strtol : List ℕ → ℤ) (inet_aton : List ℕ → Option ℕ) (argv : List (List ℕ))
    → StartCalls
    → List Round
    → Option (ℕ × List Call)
forward_main strtol inet_aton argv env rounds = elim (parse_args strtol inet_aton argv) [
  | none ↦ some (1, [])
  | some s ↦
      start_controller env buffer_size (if s.is_server then false else true) s.dst_address
      >>= λ (controller, calls). elim controller [
        | none ↦ some (1, calls)
        | some w ↦ main_loop rounds w >>= λ (ending, w'). end_main ending w'
      ]
]
