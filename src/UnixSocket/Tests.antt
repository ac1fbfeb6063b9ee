-- ===== src/UnixSocket/Tests.antt =====
-- Runs of the two programs.
use os_tasks.Prelude.{ℕ, ◌-◌, ◌≡◌, refl, arith, true, some, List, [], ◌∷◌, length}
use os_tasks.RoundBuffer.{received, read_failed, Sent, sent, write_failed, eintr, eagain}
use os_tasks.UnixSocket.{
  write_all, write_loop, ServerCalls, server_main, close, unlink, sock_path, client_main, message,
}
use os_tasks.UnixSocket.Writing.{Reaches, write_all_lem}
use os_tasks.UnixSocket.Serving.{server_main_lem}

abbrev text : List ℕ
text = 97 ∷ 98 ∷ 99 ∷ []

-- A write of two bytes, one that is interrupted, and one of one byte: "aba" goes out.
abbrev results : List Sent
results = sent 2 ∷ write_failed eintr ∷ sent 1 ∷ []

abbrev counts : List ℕ
counts = 2 ∷ 1 ∷ []

results-Reaches : Reaches (length text) 0 results counts []
results-Reaches = Reaches.counts (omega arith) (
    Reaches.waits (omega arith) refl (Reaches.counts (omega arith) (Reaches.reached (omega arith))))

write_all_example :
    write_all results text ≡ some (record { ok = true; out = 97 ∷ 98 ∷ 97 ∷ []; left = [] })
write_all_example = write_all_lem text results [] counts results-Reaches

abbrev session : ServerCalls
session = record {
  socket = some 3;
  bound = true;
  listening = true;
  accepted = some 4;
  reads = received (97 ∷ 98 ∷ []) ∷ read_failed eagain ∷ received (99 ∷ []) ∷ received [] ∷ [];
  writes = sent 2 ∷ sent 1 ∷ sent 1 ∷ [];
}

server_main_example :
    server_main (λ c. c - 32) session
    ≡ some (0, 65 ∷ 66 ∷ 67 ∷ 10 ∷ [], close 4 ∷ close 3 ∷ unlink sock_path ∷ [])
server_main_example =
    server_main_lem (λ c. c - 32) session 3 4 text refl refl refl refl
      (
        99 ∷ [],
        refl,
        (sent 1 ∷ sent 1 ∷ [], refl, (refl, ([], refl, (sent 1 ∷ [], refl, (refl, ([], refl)))))),
      )

client_runs : client_main (some 3) true (sent 15 ∷ []) ≡ some (0, message, close 3 ∷ [])
unfolding client_main write_all write_loop
client_runs = refl
