-- ===== src/CmdQueue/Fifo.antt =====
-- The command queue is a bounded FIFO of the commands in it.
use os_tasks.Prelude.{
  ℕ, suc, ◌+◌, ◌-◌, ◌%◌, ◌^◌, ◌≤◌, ◌<◌, ◌≡◌, ◌≢◌, refl, ◌∙◌, Bool, true, false, some, List, [], ◌∷◌,
  ◌++◌, arith, if◌then◌else◌, ◌==◌, length, set, get_or, length-set, positions, reads, length-reads,
  length-positions, positions_congr, reads-set_end, get_elem?-eq-get_or,
}
use native.Mathlib.Nat.{mod-eq_of_lt, mod-lt, mod-mod}
use native.Mathlib.Decide.{ℕ_discrete}
use os_tasks.CmdQueue.{Command, command, cmd_nop, CmdQueue, cmdq_enqueue, cmdq_dequeue}

pub record IsValid (q : CmdQueue) : Type 0 where
  pub storage : length q.queue ≡ q.cap
  pub small : q.cap ≤ 2 ^ 62
  pub offset_in : q.offset < q.cap
  pub length_in : q.length ≤ q.cap

-- The commands that wait, oldest first.
abbrev pub waiting : CmdQueue → List Command
waiting q = reads (command cmd_nop 0) q.queue (positions q.cap q.offset q.length)

pub length-waiting : (q : CmdQueue) → length (waiting q) ≡ q.length
length-waiting q =
    length-reads (command cmd_nop 0) q.queue (positions q.cap q.offset q.length)
    ∙ length-positions q.cap q.offset q.length

eq_true : (n m : ℕ) → n ≡ m → (n == m) ≡ true
eq_true n m h = ground arith

ne_false : (n m : ℕ) → n ≢ m → (n == m) ≡ false
ne_false n m h = ground arith

pub waiting_nil : (q : CmdQueue) → q.length ≡ 0 → waiting q ≡ []
unfolding reads positions
waiting_nil q e = rw e

pub cmdq_enqueue_full :
    (q : CmdQueue) (c : Command) → q.length ≡ q.cap → cmdq_enqueue q c ≡ some (false, q)
unfolding cmdq_enqueue
cmdq_enqueue_full q c h = ground arith

pub cmdq_enqueue_lem :
    (q : CmdQueue) (c : Command)
    → IsValid q
    → q.length < q.cap
    → (q' : CmdQueue) × (cmdq_enqueue q c ≡ some (true, q'))
      × (waiting q' ≡ waiting q ++ (c ∷ []))
      × IsValid q'
      × (q'.cap ≡ q.cap)
      × (q'.length ≡ q.length + 1)
unfolding cmdq_enqueue
cmdq_enqueue_lem q c v h = (
  record q { queue = set q.queue i c; length = q.length + 1 },
  ground (arith, mod-lt (q.offset + q.length) {m = q.cap}),
  reads-set_end (command cmd_nop 0) q.queue q.cap q.offset q.length c h (omega arith),
  omega (arith, length-set q.queue i c),
  refl,
  refl,
)
  where
    i : ℕ
    i = (q.offset + q.length) % q.cap

pub cmdq_dequeue_empty :
    (q : CmdQueue) → q.length ≡ 0 → cmdq_dequeue q ≡ some (command cmd_nop 0, q)
unfolding cmdq_dequeue
cmdq_dequeue_empty q h = ground arith

pub cmdq_dequeue_lem :
    (q : CmdQueue) (n : ℕ)
    → IsValid q
    → q.length ≡ suc n
    → (c : Command) × (q' : CmdQueue) × (cmdq_dequeue q ≡ some (c, q'))
      × (waiting q ≡ c ∷ waiting q')
      × IsValid q'
      × (q'.cap ≡ q.cap)
      × (q'.length ≡ n)
unfolding cmdq_dequeue reads positions
cmdq_dequeue_lem q n v h = (
  get_or q.queue q.offset (command cmd_nop 0),
  record q { offset = (q.offset + 1) % q.cap; length = n },
  ground (
    arith,
    get_elem?-eq-get_or q.queue q.offset (command cmd_nop 0),
    mod-eq_of_lt {n = q.offset + 1} {m = q.cap},
  ),
  ground (
    arith,
    mod-eq_of_lt v.offset_in,
    positions_congr q.cap ((q.offset + 1) % q.cap) (q.offset + 1) n (mod-mod (q.offset + 1) q.cap),
  ),
  omega (arith, mod-lt (q.offset + 1) {m = q.cap}),
  refl,
  refl,
)

-- The specification: a list of at most `cap` commands.
unfoldable pub fifo_enqueue : ℕ → List Command → Command → Bool × List Command
fifo_enqueue cap xs c = if length xs == cap then (false, xs) else (true, xs ++ (c ∷ []))

unfoldable pub fifo_dequeue : List Command → Command × List Command
fifo_dequeue [] = (command cmd_nop 0, [])
fifo_dequeue (c ∷ xs) = (c, xs)

-- `cmdq_enqueue` on a valid queue stays inside the array, returns what the bounded FIFO of the
-- waiting commands returns, leaves its commands waiting, and keeps the queue valid.
pub cmdq_enqueue_refines :
    (q : CmdQueue) (c : Command)
    → IsValid q
    → (q' : CmdQueue) × (cmdq_enqueue q c ≡ some ((fifo_enqueue q.cap (waiting q) c).0, q'))
      × (waiting q' ≡ (fifo_enqueue q.cap (waiting q) c).1)
      × IsValid q'
      × (q'.cap ≡ q.cap)
unfolding fifo_enqueue
cmdq_enqueue_refines q c v = elim (ℕ_discrete q.length q.cap) [
  | yes full ↦
      rw (eq_true (length (waiting q)) q.cap (length-waiting q ∙ full))
        (q, cmdq_enqueue_full q c full, refl, v, refl)
  | no room ↦
      let (q', e, w, v', k, _) = cmdq_enqueue_lem q c v (omega arith) in
      rw (length-waiting q, ne_false q.length q.cap room) (q', e, w, v', k)
]

-- `cmdq_dequeue` on a valid queue stays inside the array, returns the oldest waiting command and
-- leaves the others, or returns NOP if none waits, and keeps the queue valid.
pub cmdq_dequeue_refines :
    (q : CmdQueue)
    → IsValid q
    → (q' : CmdQueue) × (cmdq_dequeue q ≡ some ((fifo_dequeue (waiting q)).0, q'))
      × (waiting q' ≡ (fifo_dequeue (waiting q)).1)
      × IsValid q'
      × (q'.cap ≡ q.cap)
unfolding fifo_dequeue
cmdq_dequeue_refines q v = elim (ℕ_discrete q.length 0) [
  | yes none_left ↦
      let w = waiting_nil q none_left in rw w (q, cmdq_dequeue_empty q none_left, w, v, refl)
  | no some_left ↦
      let (c, q', e, w, v', k, _) = cmdq_dequeue_lem q (q.length - 1) v (omega arith) in
      rw w (q', e, refl, v', k)
]
