-- ===== src/PipeMessage.antt =====
-- 25. Pipe/main.c: one process writes a text into a pipe, another one reads it and prints it in upper
-- case. `none` is a text without a 0 in its array.
pub mod Passing
mod Tests
use os_tasks.Prelude.{
  ℕ, Bool, true, false, Option, none, some, ◌>>=◌, List, [], ◌∷◌, ◌++◌, map, ◌==◌, if◌then◌else◌,
  length, take, drop, replicate,
}
use os_tasks.RoundBuffer.{Received, received, read_failed, Sent, sent, write_failed}
use os_tasks.UnixSocket.{try_again, message, line_break}
use os_tasks.TcpClients.{Forked, parent, fork_failed, child}

abbrev pub msg_size : ℕ
msg_size = 32

-- The text up to its 0, as `strlen` and `%s` find it.
abbrev pub text_of : (msg : List ℕ) → Option (List ℕ)
text_of [] = none
text_of (x ∷ msg) =
    let rest = text_of msg in if x == 0 then some [] else (rest >>= λ text. some (x ∷ text))

-- What is printed; `toupper` is given.
unfoldable pub print_upper_case : (toupper : ℕ → ℕ) (msg : List ℕ) → Option (List ℕ)
print_upper_case toupper msg = text_of msg >>= λ text. some (map toupper text ++ (line_break ∷ []))

-- `msg` of the writer: the text, and zeros up to MSG_SIZE.
abbrev pub hello : List ℕ
hello = message ++ replicate 17 0

-- The body of the writer's loop, after which the loop ends: whether it succeeded, and the bytes that
-- go into the pipe.
unfoldable pub write_message : (result : Sent) (msg : List ℕ) → Bool × List ℕ
write_message (sent n) msg = (true, take n msg)
write_message (write_failed err) msg = (try_again err, [])

-- The exit code, and the bytes that go into the pipe.
unfoldable pub writer_main : (result : Sent) → ℕ × List ℕ
writer_main result = let (ok, bytes) = write_message result hello in (if ok then 0 else 1, bytes)

-- The body of the reader's loop, after which the loop ends: whether it succeeded, and `msg`.
unfoldable pub read_message : (result : Received) (msg : List ℕ) → Bool × List ℕ
read_message (received xs) msg = (true, xs ++ drop (length xs) msg)
read_message (read_failed err) msg = (try_again err, msg)

-- The exit code, and what is printed; `msg` is static, so it is zero at first.
unfoldable pub reader_main : (toupper : ℕ → ℕ) (result : Received) → Option (ℕ × List ℕ)
reader_main toupper result =
    let (ok, msg) = read_message result (replicate msg_size 0) in
    if ok then (print_upper_case toupper msg >>= λ printed. some (0, printed)) else some (1, [])

-- What becomes of a process of `main`: the exit code of the first one and the children that it waits
-- for, or one of the two others.
pub data Role : Type 0 where
  main_ends : ℕ → List ℕ → Role
  writes reads : Role

-- `main`, by what `pipe` and the calls of `fork` give; the reader is forked only if the writer was.
unfoldable pub pipe_main : (made : Bool) (writer reader : Forked) → Role
pipe_main false writer reader = main_ends 1 []
pipe_main true fork_failed reader = main_ends 0 []
pipe_main true child reader = writes
pipe_main true (parent w) fork_failed = main_ends 0 (w ∷ [])
pipe_main true (parent w) child = reads
pipe_main true (parent w) (parent r) = main_ends 0 (w ∷ r ∷ [])
