-- ===== src/UnixSocket.antt =====
-- 30. Unix domain socket/server.c and client.c: a client sends a text over a local socket, the server
-- prints it in upper case. The results of the system's calls are arguments; `none` is the end of
-- those that are given, or a path that is no argument.
pub mod Writing
pub mod Serving
mod Tests
use os_tasks.Prelude.{
  ℕ, zero, suc, ◌+◌, Bool, true, false, Option, none, some, ◌>>=◌, List, [], ◌∷◌, ◌++◌, map, ltb,
  if◌then◌else◌, length, take,
}
use os_tasks.RoundBuffer.{
  Received, received, read_failed, Sent, sent, write_failed, Errno, eagain, eintr, econnreset,
  epipe, enotconn, other,
}

-- `errno == EAGAIN || errno == EINTR`
abbrev pub try_again : Errno → Bool
try_again eagain = true
try_again eintr = true
try_again econnreset = false
try_again epipe = false
try_again enotconn = false
try_again other = false

-- What `write_all` gives: whether it succeeded, the bytes that were written, and the results of
-- `write` that are left.
pub record Wrote : Type 0 where
  pub ok : Bool
  pub out : List ℕ
  pub left : List Sent

-- The loop of `write_all`, where `written` is what was counted: a call gets all of `buf` each time.
unfoldable pub write_loop : (results : List Sent) (written : ℕ) (buf : List ℕ) → Option Wrote
write_loop [] written buf =
    if ltb written (length buf) then none else some (record { ok = true; out = []; left = [] })
write_loop (r ∷ results) written buf = elim (ltb written (length buf)) [
  | false ↦ some (record { ok = true; out = []; left = r ∷ results })
  | true ↦ elim r [
    | sent n ↦
        write_loop results (written + n) buf >>= λ w. some (record w { out = take n buf ++ w.out })
    | write_failed err ↦ elim (try_again err) [
      | true ↦ write_loop results written buf
      | false ↦ some (record { ok = false; out = []; left = results })
    ]
  ]
]

unfoldable pub write_all : (results : List Sent) (buf : List ℕ) → Option Wrote
write_all results buf = write_loop results 0 buf

-- `toupper` is given.
pub to_upper_case : (toupper : ℕ → ℕ) → List ℕ → List ℕ
to_upper_case toupper buf = map toupper buf

-- The calls whose results are only printed.
pub data Call : Type 0 where
  close : ℕ → Call
  unlink : List ℕ → Call

-- `path` is NULL or a path.
abbrev pub close_unix_socket : (fd : ℕ) (path : Option (List ℕ)) → List Call
close_unix_socket fd none = close fd ∷ []
close_unix_socket fd (some path) = close fd ∷ unlink path ∷ []

abbrev pub line_break : ℕ
line_break = 10

-- The loop of the server, by what `read` and `write` give: the bytes it writes.
unfoldable pub serve_loop :
    (toupper : ℕ → ℕ) (reads : List Received) (writes : List Sent) → Option (List ℕ)
serve_loop toupper [] writes = none
serve_loop toupper (received [] ∷ reads) [] = none
serve_loop toupper (received [] ∷ reads) (sent n ∷ writes) = some (take n (line_break ∷ []))
serve_loop toupper (received [] ∷ reads) (write_failed err ∷ writes) = some []
serve_loop toupper (received (x ∷ xs) ∷ reads) writes =
    write_all writes (to_upper_case toupper (x ∷ xs)) >>= λ w. elim w.ok [
      | true ↦ serve_loop toupper reads w.left >>= λ more. some (w.out ++ more)
      | false ↦ some w.out
    ]
serve_loop toupper (read_failed err ∷ reads) writes = elim (try_again err) [
  | true ↦ serve_loop toupper reads writes
  | false ↦ some []
]

-- "sock"
abbrev pub sock_path : List ℕ
sock_path = 115 ∷ 111 ∷ 99 ∷ 107 ∷ []

-- What the system gives to the server.
pub record ServerCalls : Type 0 where
  pub socket : Option ℕ
  pub bound : Bool
  pub listening : Bool
  pub accepted : Option ℕ
  pub reads : List Received
  pub writes : List Sent

-- `main` of the server: its exit code, the bytes it writes, and its other calls.
unfoldable pub server_main : (toupper : ℕ → ℕ) → ServerCalls → Option (ℕ × List ℕ × List Call)
server_main toupper env = elim env.socket [
  | none ↦ some (1, [], [])
  | some listener ↦
      if env.bound
      then if env.listening
        then elim env.accepted [
          | none ↦ some (1, [], close_unix_socket listener (some sock_path))
          | some client ↦ serve_loop toupper env.reads env.writes >>= λ out.
              some (
                0,
                out,
                close_unix_socket client none ++ close_unix_socket listener (some sock_path),
              )
        ]
        else some (1, [], close_unix_socket listener (some sock_path))
      else some (1, [], close_unix_socket listener none)
]

-- "Hello, world!!!"
abbrev pub message : List ℕ
message = 72 ∷ 101 ∷ 108 ∷ 108 ∷ 111 ∷ 44 ∷ 32 ∷ 119 ∷ 111 ∷ 114 ∷ 108 ∷ 100 ∷ 33 ∷ 33 ∷ 33 ∷ []

-- `main` of the client: its exit code, the bytes it writes, and the descriptors it closes.
unfoldable pub client_main :
    (socket : Option ℕ) (connected : Bool) (writes : List Sent) → Option (ℕ × List ℕ × List Call)
client_main socket connected writes = elim socket [
  | none ↦ some (1, [], [])
  | some client ↦ elim connected [
    | false ↦ some (1, [], close client ∷ [])
    | true ↦
        write_all writes message >>= λ w. some (if w.ok then 0 else 1, w.out, close client ∷ [])
  ]
]
