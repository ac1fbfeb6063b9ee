-- ===== src/TcpClients.antt =====
-- 512-tcp-clients/main.c: processes that each send a buffer to a server again and again, and compare
-- what comes back. A `char` is a number below 256. The results of the system's calls are arguments;
-- `none` is the end of those that are given.
pub mod Echo
mod Tests
use os_tasks.Prelude.{
  ℕ, zero, suc, ◌+◌, ◌%◌, Bool, true, false, not, ◌&&◌, Option, none, some, ◌>>=◌, List, [], ◌∷◌,
  ◌++◌, map, ◌==◌, ltb, if◌then◌else◌, length, take, drop, get_elem?, sub_size, ℤ, pos, negsuc,
}
use os_tasks.RoundBuffer.{Received, received, read_failed, Sent, sent, write_failed}
use os_tasks.Proxy.{parse_port}

-- BUF_SIZE, CLIENTS_COUNT and REPEATS_COUNT.
abbrev pub buf_size : ℕ
buf_size = 256

abbrev pub clients_count : ℕ
clients_count = 510

abbrev pub repeats_count : ℕ
repeats_count = 10000

-- The ports and the address of `parse_args`: the address is only tested here. `none` is the end of the
-- program with the usage.
unfoldable pub target_of :
    (strtol : List ℕ → ℤ) (is_address : List ℕ → Bool) (argv : List (List ℕ)) → Option ℕ
target_of strtol is_address [] = none
target_of strtol is_address (name ∷ []) = none
target_of strtol is_address (name ∷ ip ∷ []) = none
target_of strtol is_address (name ∷ ip ∷ port ∷ []) =
    if is_address ip then parse_port strtol port else none
target_of strtol is_address (name ∷ ip ∷ port ∷ more ∷ argv) = none

-- The loop of the writes, where `len` bytes are left to be counted: `ptr` stays at the start. The
-- bytes that go out, or `none` inside for an error.
unfoldable pub write_loop :
    (results : List Sent) (len : ℕ) (buf : List ℕ) → Option (Option (List ℕ))
write_loop [] len buf = if len == 0 then some (some []) else none
write_loop (r ∷ results) len buf = elim (len == 0) [
  | true ↦ some (some [])
  | false ↦ elim r [
    | write_failed err ↦ some none
    | sent n ↦ write_loop results (sub_size len n) buf >>= λ out.
        some (out >>= λ bytes. some (take n buf ++ bytes))
  ]
]

-- The loop of the reads, which store at the start of `recv_buf` each time; `none` inside for an error.
unfoldable pub read_loop :
    (results : List Received) (len : ℕ) (recv_buf : List ℕ) → Option (Option (List ℕ))
read_loop [] len recv_buf = if len == 0 then some (some recv_buf) else none
read_loop (r ∷ results) len recv_buf = elim (len == 0) [
  | true ↦ some (some recv_buf)
  | false ↦ elim r [
    | read_failed err ↦ some none
    | received xs ↦ read_loop results (sub_size len (length xs)) (xs ++ drop (length xs) recv_buf)
  ]
]

-- `buf[i]++` of a `char`.
abbrev pub next_char : ℕ → ℕ
next_char c = (c + 1) % 256

-- The comparison: the buffer for the next round, or `none` inside where a byte differs.
unfoldable pub compare_loop : (buf recv_buf : List ℕ) → Option (Option (List ℕ))
compare_loop [] recv_buf = some (some [])
compare_loop (x ∷ buf) [] = none
compare_loop (x ∷ buf) (y ∷ recv_buf) = elim (x == y) [
  | false ↦ some none
  | true ↦ compare_loop buf recv_buf >>= λ r. some (r >>= λ rest. some (next_char x ∷ rest))
]

-- What the system gives in one round.
pub record Exchange : Type 0 where
  pub writes : List Sent
  pub reads : List Received

-- How the loop of `child_main` ends.
pub data Ending : Type 0 where
  finished : (buf : List ℕ) → Ending
  write_error read_error mismatch : Ending

-- The loop of `child_main`, with `n` rounds left.
unfoldable pub child_loop : (n : ℕ) → List Exchange → (buf recv_buf : List ℕ) → Option Ending
child_loop zero rounds buf recv_buf = some (finished buf)
child_loop (suc n) [] buf recv_buf = none
child_loop (suc n) (r ∷ rounds) buf recv_buf = write_loop r.writes (length buf) buf >>= λ out.
    elim out [
      | none ↦ some write_error
      | some bytes ↦ read_loop r.reads (length recv_buf) recv_buf >>= λ got. elim got [
        | none ↦ some read_error
        | some recv_buf ↦ compare_loop buf recv_buf >>= λ next. elim next [
          | none ↦ some mismatch
          | some buf ↦ child_loop n rounds buf recv_buf
        ]
      ]
    ]

-- The numbers from `j` on.
abbrev pub numbers : (n j : ℕ) → List ℕ
numbers zero j = []
numbers (suc n) j = j ∷ numbers n (j + 1)

-- `child_main`: its exit code, how the loop ended, and the descriptors that are closed. `recv_buf` is
-- what the memory holds.
unfoldable pub child_main :
    (socket : Option ℕ) (connected : Bool) (recv_buf : List ℕ)
    → List Exchange
    → Option (ℕ × Option Ending × List ℕ)
child_main socket connected recv_buf rounds = elim socket [
  | none ↦ some (1, none, [])
  | some sock ↦ elim connected [
    | false ↦ some (1, none, sock ∷ [])
    | true ↦ child_loop repeats_count rounds (numbers buf_size 0) recv_buf >>= λ e.
        some (0, some e, sock ∷ [])
  ]
]

-- What `fork` gives: a child, -1, or 0 in the child.
pub data Forked : Type 0 where
  parent : (pid : ℕ) → Forked
  fork_failed child : Forked

-- The first loop of `main`: the children, or `none` in a child.
unfoldable pub fork_all : (results : List Forked) → Option (List ℕ)
fork_all [] = some []
fork_all (parent pid ∷ results) = fork_all results >>= λ pids. some (pid ∷ pids)
fork_all (fork_failed ∷ results) = fork_all results
fork_all (child ∷ results) = none

-- The loop on one child by what `waitpid` gives: whether it is done, or failed with EINTR. The results
-- that are left.
unfoldable pub wait_for : (interrupted : List Bool) → Option (List Bool)
wait_for [] = none
wait_for (true ∷ results) = wait_for results
wait_for (false ∷ results) = some results

-- The second loop of `main`: the children that were waited for.
unfoldable pub wait_all : (pids : List ℕ) (interrupted : List Bool) → Option (List ℕ)
wait_all [] results = some []
wait_all (pid ∷ pids) results =
    wait_for results >>= λ results. wait_all pids results >>= λ rest. some (pid ∷ rest)
