-- ===== src/PipeMessage/Tests.antt =====
-- Runs of the program.
use os_tasks.Prelude.{◌-◌, ◌≡◌, refl, arith, true, some, [], ◌∷◌, ◌++◌, map, take}
use os_tasks.RoundBuffer.{received, sent}
use os_tasks.TcpClients.{parent, fork_failed}
use os_tasks.UnixSocket.{message, line_break}
use os_tasks.PipeMessage.{writer_main, reader_main, pipe_main, main_ends}
use os_tasks.PipeMessage.Passing.{reader_main-writer_main}

reader_main-writer_main_example :
    ((writer_main (sent 9)).0 ≡ 0)
    × (reader_main (λ c. c - 32) (received (take 4 (writer_main (sent 9)).1))
        ≡ some (0, map (λ c. c - 32) (take 4 message) ++ (line_break ∷ [])))
reader_main-writer_main_example =
    reader_main-writer_main (λ c. c - 32) 9 4 (omega arith) (omega arith)

-- The writer is waited for, although there is no reader.
no_reader : pipe_main true (parent 8) fork_failed ≡ main_ends 0 (8 ∷ [])
unfolding pipe_main
no_reader = refl
