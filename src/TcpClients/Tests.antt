-- ===== src/TcpClients/Tests.antt =====
-- Runs of a client.
use os_tasks.Prelude.{ℕ, ◌≡◌, refl, arith, true, some, List, [], ◌∷◌, take, drop, replicate}
use os_tasks.RoundBuffer.{received, sent}
use os_tasks.TcpClients.{
  Exchange, parent, fork_failed, fork_all, finished, mismatch, child_loop, child_main,
}
use os_tasks.TcpClients.Echo.{first_buf, child_loop_echo, child_main_split}

abbrev bytes : List ℕ
bytes = 7 ∷ 255 ∷ []

abbrev echo : List ℕ → Exchange
echo buf = record { writes = sent 2 ∷ []; reads = received buf ∷ [] }

child_loop_echo_example :
    child_loop 2 (echo bytes ∷ echo (8 ∷ 0 ∷ []) ∷ []) bytes (1 ∷ 1 ∷ [])
    ≡ some (finished (9 ∷ 1 ∷ []))
child_loop_echo_example =
    child_loop_echo 2 (echo bytes ∷ echo (8 ∷ 0 ∷ []) ∷ []) bytes (1 ∷ 1 ∷ []) (omega arith)
      (omega arith) refl (([], refl), ([], refl), (([], refl), ([], refl), tt))

abbrev split : Exchange
split = record {
  writes = sent 256 ∷ [];
  reads = received (take 100 first_buf) ∷ received (drop 100 first_buf) ∷ [];
}

child_main_split_example :
    child_main (some 3) true (replicate 256 0) (split ∷ []) ≡ some (0, some mismatch, 3 ∷ [])
child_main_split_example =
    child_main_split 100 3 (replicate 256 0) split [] [] [] (omega arith) (omega arith) refl refl
      refl

forked : fork_all (parent 5 ∷ fork_failed ∷ parent 6 ∷ []) ≡ some (5 ∷ 6 ∷ [])
unfolding fork_all
forked = refl
