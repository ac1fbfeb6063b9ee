-- ===== src/CmdQueue.antt =====
-- 34-35. Port forwarding/command_queue.c and command_queue.h: a bounded FIFO of commands in an array
-- used as a ring. A function that changes `*q` returns the new queue; `none` is an access outside
-- of the array.
pub mod Fifo
mod Tests
use os_tasks.Prelude.{
  ℕ, ◌%◌, Bool, true, false, Option, none, some, ◌>>=◌, List, ◌==◌, leb, if◌then◌else◌, add_size,
  sub_size, store, get_elem?,
}

pub record Command : Type 0 where
  pub cmd : ℕ
  pub arg : ℕ

abbrev pub command : ℕ → ℕ → Command
command cmd arg = record { cmd = cmd; arg = arg }

abbrev pub cmd_nop : ℕ
cmd_nop = 0

-- `struct cmd_queue`
pub record CmdQueue : Type 0 where
  pub cap : ℕ
  pub offset : ℕ
  pub length : ℕ
  pub queue : List Command

-- What the two calls of `malloc` give: the array, and whether the record was allocated.
unfoldable pub make_cmd_queue :
    (queue : Option (List Command)) (q_allocated : Bool) (cap : ℕ) → Option CmdQueue
make_cmd_queue queue q_allocated cap =
    if cap == 0
    then none
    else queue >>= λ array.
        if q_allocated
        then some (record { cap = cap; offset = 0; length = 0; queue = array })
        else none

unfoldable pub cmdq_length : CmdQueue → ℕ
cmdq_length q = q.length

pub cmdq_enqueue : CmdQueue → Command → Option (Bool × CmdQueue)
unfolding store
cmdq_enqueue q cmd =
    if q.length == q.cap
    then some (false, q)
    else store q.queue (add_size q.offset q.length % q.cap) cmd >>= λ queue.
        some (true, record q { queue = queue; length = add_size q.length 1 })

pub cmdq_dequeue : CmdQueue → Option (Command × CmdQueue)
cmdq_dequeue q =
    if q.length == 0
    then some (command cmd_nop 0, q)
    else get_elem? q.queue q.offset >>= λ res.
        let offset = add_size q.offset 1 in
        some (
          res,
          record q {
            offset = if leb q.cap offset then offset % q.cap else offset;
            length = sub_size q.length 1;
          },
        )
