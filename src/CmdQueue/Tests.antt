-- ===== src/CmdQueue/Tests.antt =====
-- Runs of command_queue.c on a small queue.
use os_tasks.Prelude.{◌≡◌, true, some, [], ◌∷◌, arith, reads, positions}
use os_tasks.CmdQueue.{command, CmdQueue, cmdq_enqueue, cmdq_dequeue}
use os_tasks.CmdQueue.Fifo.{
  IsValid, waiting, fifo_enqueue, fifo_dequeue, cmdq_enqueue_refines, cmdq_dequeue_refines,
}

-- (1, 5), then (2, 6), round the end of the array.
abbrev two_commands : CmdQueue
two_commands = record {
  cap = 3;
  offset = 2;
  length = 2;
  queue = command 2 6 ∷ command 0 0 ∷ command 1 5 ∷ [];
}

two_commands-IsValid : IsValid two_commands
two_commands-IsValid = omega arith

cmdq_enqueue_example :
    (q' : CmdQueue) × (cmdq_enqueue two_commands (command 3 7) ≡ some (true, q'))
    × (waiting q' ≡ command 1 5 ∷ command 2 6 ∷ command 3 7 ∷ [])
    × IsValid q'
    × (q'.cap ≡ 3)
unfolding fifo_enqueue reads positions
cmdq_enqueue_example = cmdq_enqueue_refines two_commands (command 3 7) two_commands-IsValid

cmdq_dequeue_example :
    (q' : CmdQueue) × (cmdq_dequeue two_commands ≡ some (command 1 5, q'))
    × (waiting q' ≡ command 2 6 ∷ [])
    × IsValid q'
    × (q'.cap ≡ 3)
unfolding fifo_dequeue reads positions
cmdq_dequeue_example = cmdq_dequeue_refines two_commands two_commands-IsValid
