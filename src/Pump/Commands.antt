-- ===== src/Pump/Commands.antt =====
-- The commands' way into the tunnel.
use os_tasks.Prelude.{
  ne_zero, ℕ, zero, suc, ◌-◌, ◌≤◌, ◌<◌, ◌≡◌, ◌≢◌, refl, sym, ap, ◌∙◌, Bool, true, false, some, List,
  [], ◌∷◌, ◌++◌, arith, lt→ltb, get_elem?, set, append_assoc, append-nil,
}
use mathlib.Core.Path.{subst}
use native.Mathlib.Decide.{dec_lt, ℕ_discrete}
use os_tasks.RoundBuffer.{RoundBuffer}
use os_tasks.RoundBuffer.Inv.{IsValid, IsUnwrapped, contents}
use os_tasks.RoundBuffer.Writing.{appended, appended-Appended}
use os_tasks.CmdQueue.{Command, CmdQueue, cmdq_length, cmdq_dequeue}
use os_tasks.CmdQueue.Fifo.{waiting, length-waiting, cmdq_dequeue_lem, waiting_nil}
use os_tasks.CmdQueue.Fifo
use os_tasks.Codec.{end_byte, encode_command}
use os_tasks.Codec.Command.{encode_command_lem}
use os_tasks.Codec.Escape.{le→ltb}
use os_tasks.Connection.{Connection}
use os_tasks.Pump.{World, transfer_commands}
use os_tasks.Prelude.Updates.{set-set, set_same}
use os_tasks.Pump.Objects.{modify_lem}

abbrev pub command_bytes : Command → List ℕ
command_bytes c = end_byte ∷ 0 ∷ c.cmd ∷ c.arg ∷ end_byte ∷ []

abbrev pub commands_bytes : List Command → List ℕ
commands_bytes [] = []
commands_bytes (c ∷ cs) = command_bytes c ++ commands_bytes cs

command_full :
    (b : RoundBuffer) (c : Command)
    → IsValid b
    → IsUnwrapped b
    → b.capacity - b.length < 5
    → encode_command b c.cmd c.arg ≡ some (false, b)
command_full b c v u h =
    rw (encode_command_lem b c.cmd c.arg v u, lt→ltb (b.capacity - b.length) 5 h)

command_put :
    (b : RoundBuffer) (c : Command)
    → IsValid b
    → IsUnwrapped b
    → 5 ≤ b.capacity - b.length
    → encode_command b c.cmd c.arg ≡ some (true, appended b (command_bytes c))
command_put b c v u h =
    rw (encode_command_lem b c.cmd c.arg v u, le→ltb (b.capacity - b.length) 5 h)

-- The world after commands have gone from the queue to the tunnel's buffer.
abbrev pub moved : {R : Type 0} → World R → ℕ → Connection → CmdQueue → RoundBuffer → World R
moved w tunnel t q b = record w {
  pump = record (w.pump) { cmd_queue = q };
  objects = set w.objects tunnel (record t { out_buf = b });
}

-- What has become of the commands `before`, those waiting at the end being `after`, and `xs`
-- standing behind the old data in the tunnel's buffer `b`: all were put (`true`); or there was no
-- room, and one command is neither put nor waiting (`false`).
abbrev pub Fate : Bool → (before after : List Command) (xs : List ℕ) (b : RoundBuffer) → Type 0
Fate true before after xs b = (after ≡ []) × (xs ≡ commands_bytes before)
Fate false before after xs b =
    (put : List Command) × (lost : Command) × (before ≡ put ++ (lost ∷ after))
    × (xs ≡ commands_bytes put)
    × (b.capacity - b.length < 5)

Fate-put :
    (all : Bool) (c : Command) (before after : List Command) (xs : List ℕ) (b : RoundBuffer)
    → Fate all before after xs b
    → Fate all (c ∷ before) after (command_bytes c ++ xs) b
Fate-put true c before after xs b (e, f) = (e, ap (λ l. command_bytes c ++ l) f)
Fate-put false c before after xs b (put, lost, e, f, h) =
    (c ∷ put, lost, ap (λ l. c ∷ l) e, ap (λ l. command_bytes c ++ l) f, h)

module _ {R : Type 0} (fuel tunnel : ℕ) (w : World R) (t : Connection)
    (at : get_elem? w.objects tunnel ≡ some t) where
  none_waiting :
      w.pump.cmd_queue.length ≡ 0
      → transfer_commands (suc fuel) tunnel w
        ≡ some (true, moved w tunnel t w.pump.cmd_queue t.out_buf)
  unfolding transfer_commands cmdq_length
  none_waiting e = rw (e, set_same w.objects tunnel t at)

  module _ (c : Command) (q : CmdQueue) (h : w.pump.cmd_queue.length ≢ 0)
      (taken : cmdq_dequeue w.pump.cmd_queue ≡ some (c, q)) where
    no_room :
        encode_command t.out_buf c.cmd c.arg ≡ some (false, t.out_buf)
        → transfer_commands (suc fuel) tunnel w ≡ some (false, moved w tunnel t q t.out_buf)
    unfolding transfer_commands cmdq_length
    no_room e = rw (
      ne_zero w.pump.cmd_queue.length h,
      taken,
      at,
      e,
      (modify_lem tunnel (λ t'. record t' { out_buf = t.out_buf }) w.objects t at).0,
    )

    room_left :
        (b : RoundBuffer)
        → encode_command t.out_buf c.cmd c.arg ≡ some (true, b)
        → transfer_commands (suc fuel) tunnel w
          ≡ transfer_commands fuel tunnel (moved w tunnel t q b)
    unfolding transfer_commands cmdq_length
    room_left b e = rw (
      ne_zero w.pump.cmd_queue.length h,
      taken,
      at,
      e,
      (modify_lem tunnel (λ t'. record t' { out_buf = b }) w.objects t at).0,
    )

-- The outcome of `transfer_commands`: how it moved the commands.
abbrev pub Transfers : {R : Type 0} → ℕ → ℕ → World R → Connection → Type 0
Transfers fuel tunnel w t =
    (all : Bool) × (q : CmdQueue) × (b : RoundBuffer) × (xs : List ℕ) × (transfer_commands fuel
        tunnel w
      ≡ some (all, moved w tunnel t q b))
    × Fate all (waiting w.pump.cmd_queue) (waiting q) xs b
    × (contents b ≡ contents t.out_buf ++ xs)
    × Fifo.IsValid q
    × IsValid b

Transfers-put :
    {R : Type 0} (fuel tunnel : ℕ) (w : World R) (t : Connection) (c : Command) (q : CmdQueue)
    (b : RoundBuffer)
    → transfer_commands (suc fuel) tunnel w ≡ transfer_commands fuel tunnel (moved w tunnel t q b)
    → waiting w.pump.cmd_queue ≡ c ∷ waiting q
    → contents b ≡ contents t.out_buf ++ command_bytes c
    → Transfers fuel tunnel (moved w tunnel t q b) (record t { out_buf = b })
    → Transfers (suc fuel) tunnel w t
Transfers-put fuel tunnel w t c q b step e put (all, q', b', xs, run, fate, holds, vq, vb) = (
  all,
  q',
  b',
  command_bytes c ++ xs,
  step
      ∙ run
      ∙ ap (λ os. some (all, record w { pump = record (w.pump) { cmd_queue = q' }; objects = os }))
          (set-set w.objects tunnel (record t { out_buf = b }) (record t { out_buf = b' })),
  subst (λ l. Fate all l (waiting q') (command_bytes c ++ xs) b') (sym e)
      (Fate-put all c (waiting q) (waiting q') xs b' fate),
  holds ∙ ap (λ l. l ++ xs) put ∙ append_assoc (contents t.out_buf) (command_bytes c) xs,
  vq,
  vb,
)

-- If the tunnel's buffer is valid and begins at the start of its storage, the loop of
-- `pump_transfer` on the commands ends, given fuel above the number of waiting commands: the
-- commands stand in their order behind the data of the tunnel's buffer, which stays valid as the
-- queue does, and nothing else is changed. Either all were put, or the buffer has less than 5 free
-- bytes and the command after those that were put is lost: it was taken out of the queue.
pub transfer_commands_lem :
    {R : Type 0} (fuel tunnel : ℕ) (w : World R) (t : Connection)
    → get_elem? w.objects tunnel ≡ some t
    → Fifo.IsValid w.pump.cmd_queue
    → IsValid t.out_buf
    → t.out_buf.offset ≡ 0
    → w.pump.cmd_queue.length < fuel
    → Transfers fuel tunnel w t
transfer_commands_lem zero tunnel w t at vq vb o h = absurd (omega arith)
transfer_commands_lem (suc fuel) tunnel w t at vq vb o h =
    elim (ℕ_discrete w.pump.cmd_queue.length 0) [
      | yes e ↦ (
        true,
        w.pump.cmd_queue,
        t.out_buf,
        [],
        none_waiting fuel tunnel w t at e,
        (waiting_nil w.pump.cmd_queue e, ap commands_bytes (sym (waiting_nil w.pump.cmd_queue e))),
        sym (append-nil (contents t.out_buf)),
        vq,
        vb,
      )
      | no some_left ↦
          let (c, q, taken, e, vq', _, len) =
            cmdq_dequeue_lem w.pump.cmd_queue (w.pump.cmd_queue.length - 1) vq (omega arith) in
          elim (dec_lt (t.out_buf.capacity - t.out_buf.length) 5) [
            | yes full ↦ (
              false,
              q,
              t.out_buf,
              [],
              no_room fuel tunnel w t at c q some_left taken
                  (command_full t.out_buf c vb (omega arith) full),
              ([], c, e, refl, full),
              sym (append-nil (contents t.out_buf)),
              vq',
              vb,
            )
            | no room ↦
                let b = appended t.out_buf (command_bytes c) in
                let a = appended-Appended t.out_buf (command_bytes c) vb (omega arith) in
                Transfers-put fuel tunnel w t c q b
                  (room_left fuel tunnel w t at c q some_left taken b
                    (command_put t.out_buf c vb (omega arith) (omega arith)))
                  e a.holds
                  (transfer_commands_lem fuel tunnel (moved w tunnel t q b)
                    (record t { out_buf = b })
                    (modify_lem tunnel (λ t'. record t' { out_buf = b }) w.objects t at).1 vq'
                    a.valid (omega arith) (omega arith))
          ]
    ]
