-- ===== src/Controller/Steady.antt =====
-- What holds of the controller between two steps, and the steps that send a command.
use os_tasks.Prelude.{
  ℕ, ◌+◌, ◌<◌, ◌≡◌, inl, inr, refl, sym, ap, ◌∙◌, Bool, true, false, not, ◌&&◌, Option, none, some,
  List, arith, if◌then◌else◌, length, set, get_elem?, get_elem?-set_self, get_elem?-set_ne,
  store-eq-set, length-set, Bool-cases, pos,
}
use mathlib.Core.Path.{subst}
use native.Mathlib.Decide.{ℕ_discrete}
use os_tasks.Prelude.Updates.{get_elem?-below}
use os_tasks.CmdQueue.{command}
use os_tasks.CmdQueue.Fifo.{IsValid, cmdq_enqueue_full, cmdq_enqueue_lem}
use os_tasks.Connection.{Connection}
use os_tasks.Pump.{World, Pump, send_command, to_byte}
use os_tasks.Pump.Objects.{modify_lem}
use os_tasks.Controller.{
  IdStack, id_stack_push, Control, tell, give_back, cmd_new, cmd_close_src_to_dst,
  cmd_close_dst_to_src, is_new_connection, should_close_in, should_close_out,
}
use os_tasks.Controller.Sorted.{IsId, IsStack, AllIds, AllIds-set, PointsTo, same_id}
use os_tasks.Controller.Step.{announce, end_in, end_out}

-- What holds of the controller between two steps, with the array of the connections by their ids.
pub record IsSteady (w : World Control) (connections : List (Option ℕ)) : Type 0 where
  pub queue : IsValid w.pump.cmd_queue
  pub ids : IsStack w.rest.free_ids
  pub all_ids : AllIds w.objects
  pub points : PointsTo w.objects connections

-- What the steps leave alone.
pub record Keeps (w w' : World Control) : Type 0 where
  pub same_count : length w'.objects ≡ length w.objects
  pub same_manager : w'.rest.manager ≡ w.rest.manager

pub Keeps-refl : (w : World Control) → Keeps w w
Keeps-refl w = record { same_count = refl; same_manager = refl }

pub Keeps-trans : (w w' w'' : World Control) → Keeps w w' → Keeps w' w'' → Keeps w w''
Keeps-trans w w' w'' k k' = record {
  same_count = k'.same_count ∙ k.same_count;
  same_manager = k'.same_manager ∙ k.same_manager;
}

-- A connection changes, but not its id.
PointsTo-keep :
    (objects : List Connection) (a : ℕ) (c d : Connection) (connections : List (Option ℕ))
    → get_elem? objects a ≡ some c
    → d.id ≡ c.id
    → PointsTo objects connections
    → PointsTo (set objects a d) connections
PointsTo-keep objects a c d connections at id (size, points) = (
  size,
  λ j b e.
      let (x, at_b, id_b) = points j b e in
      elim (ℕ_discrete a b) [
        | no f ↦ (x, get_elem?-set_ne objects d f ∙ at_b, id_b)
        | yes f ↦ (
          d,
          subst (λ k. get_elem? (set objects a d) k ≡ some d) f
              (get_elem?-set_self objects a d (get_elem?-below objects a c at)),
          id ∙ same_id c x (sym at ∙ ap (get_elem? objects) f ∙ at_b) ∙ id_b,
        )
      ],
)

pub PointsTo-clear :
    (objects : List Connection) (i : ℕ) (connections : List (Option ℕ))
    → PointsTo objects connections
    → PointsTo objects (set connections i none)
PointsTo-clear objects i connections (size, points) = (
  length-set connections i none ∙ size,
  λ j b e. elim (ℕ_discrete i j) [
    | no f ↦ points j b (sym (get_elem?-set_ne connections none f) ∙ e)
    | yes f ↦
        let below : i < length connections = omega (
          arith,
          f,
          get_elem?-below (set connections i none) j (some b) e,
          length-set connections i none,
        ) in
        absurd (
          nothing b (
            sym (get_elem?-set_self connections i none below)
            ∙ ap (get_elem? (set connections i none)) f
            ∙ e))
  ],
)
  where
    nothing : (b : ℕ) → some none ≡ some (some b) → ⊥
    nothing b e = cc

IsStack-push :
    (s : IdStack) (n : ℕ)
    → IsStack s
    → 0 < n
    → n < 256
    → (s' : IdStack) × (id_stack_push s (pos n) ≡ some s') × IsStack s'
unfolding id_stack_push
IsStack-push s n v low high =
    let size = v.size in
    let bound = v.bound in
    elim (ℕ_discrete s.cnt 255) [
      | yes e ↦ (s, ground (arith, e), v)
      | no f ↦ (
        record { stack = set s.stack s.cnt (pos n); cnt = s.cnt + 1 },
        ground (arith, f, store-eq-set s.stack s.cnt (pos n) (omega (arith, f))),
        record {
          size = length-set s.stack s.cnt (pos n) ∙ size;
          bound = omega (arith, f);
          range = λ i h. elim (ℕ_discrete s.cnt i) [
            | yes g ↦ (
              n,
              subst (λ k. get_elem? (set s.stack s.cnt (pos n)) k ≡ some (pos n)) g
                  (get_elem?-set_self s.stack s.cnt (pos n) (omega (arith, f))),
              low,
              high,
            )
            | no g ↦
                let (m, at, low', high') = v.range i (omega (arith, g)) in
                (m, get_elem?-set_ne s.stack (pos n) g ∙ at, low', high')
          ];
        },
      )
    ]

send_command_lem :
    (pump : Pump) (cmd arg : ℕ)
    → IsValid pump.cmd_queue
    → (sent : Bool) × (pump' : Pump) × (send_command pump cmd arg ≡ some (sent, pump'))
      × IsValid pump'.cmd_queue
unfolding send_command
send_command_lem pump cmd arg v = elim (ℕ_discrete pump.cmd_queue.length pump.cmd_queue.cap) [
  | yes e ↦ (false, pump, rw (cmdq_enqueue_full pump.cmd_queue (command cmd arg) e), v)
  | no f ↦
      let inside = v.length_in in
      let (q, run, holds, valid, more, longer) =
        cmdq_enqueue_lem pump.cmd_queue (command cmd arg) v (omega (arith, f)) in
      (true, record pump { cmd_queue = q }, rw run, valid)
]

-- A step that runs, and leaves the controller steady.
abbrev pub Runs :
    (connections : List (Option ℕ)) (w : World Control) → Option (Bool × World Control) → Type 0
Runs connections w o =
    (sent : Bool) × (w' : World Control) × (o ≡ some (sent, w'))
    × IsSteady w' connections
    × Keeps w w'

module _ (connections : List (Option ℕ)) (w : World Control) (addr : ℕ) (c : Connection)
    (at : get_elem? w.objects addr ≡ some c) (v : IsSteady w connections) where
  module _ (cmd id : ℕ) (change : Connection → Connection) (keeps : (change c).id ≡ c.id) where
    pub tell_lem : Runs connections w (tell cmd id addr change w)
    unfolding tell
    tell_lem =
        let (sent, pump, run, valid) = send_command_lem w.pump cmd id v.queue in
        let changed = (modify_lem addr change w.objects c at).0 in
        elim (Bool-cases sent) [
          | inr e ↦ (
            false,
            record w { pump = pump },
            rw (run, e),
            record { queue = valid; ids = v.ids; all_ids = v.all_ids; points = v.points },
            record { same_count = refl; same_manager = refl },
          )
          | inl e ↦ (
            true,
            record w { pump = pump; objects = set w.objects addr (change c) },
            rw (run, e, changed),
            record {
              queue = valid;
              ids = v.ids;
              all_ids =
                  AllIds-set w.objects addr (change c)
                    (subst IsId (sym keeps) (v.all_ids addr c at)) v.all_ids;
              points = PointsTo-keep w.objects addr c (change c) connections at keeps v.points;
            },
            record { same_count = length-set w.objects addr (change c); same_manager = refl },
          )
        ]

    tell_if :
        (b : Bool) → Runs connections w (if b then tell cmd id addr change w else some (true, w))
    tell_if true = tell_lem
    tell_if false = (true, w, refl, v, Keeps-refl w)

  pub announce_lem : Runs connections w (announce addr w)
  unfolding announce
  announce_lem = rw at (
      tell_if cmd_new (to_byte c.id)
        (λ c. record c { state = record (c.state) { cs_new = false; cs_stopped = true } }) refl
        (is_new_connection c))

  pub end_in_lem : Runs connections w (end_in addr w)
  unfolding end_in
  end_in_lem = rw at (
      tell_if cmd_close_src_to_dst (to_byte c.id)
        (λ c. record c { in_state = record (c.in_state) { cs_delete = true } }) refl
        (not c.in_state.cs_delete && should_close_in c))

  pub end_out_lem : Runs connections w (end_out addr w)
  unfolding end_out
  end_out_lem = rw at (
      tell_if cmd_close_dst_to_src (to_byte c.id)
        (λ c. record c { out_state = record (c.out_state) { cs_delete = true } }) refl
        (not c.out_state.cs_delete && should_close_out c))

pub give_back_lem :
    (connections : List (Option ℕ)) (w : World Control) (n : ℕ)
    → IsSteady w connections
    → 0 < n
    → n < 256
    → (w' : World Control) × (give_back (pos n) w ≡ some w') × IsSteady w' connections × Keeps w w'
unfolding give_back
give_back_lem connections w n v low high = elim (Bool-cases w.rest.accepting) [
  | inr e ↦ (w, rw e, v, Keeps-refl w)
  | inl e ↦
      let (ids, run, stack) = IsStack-push w.rest.free_ids n v.ids low high in
      (
        record w { rest = record (w.rest) { free_ids = ids } },
        simp (e, run),
        record { queue = v.queue; ids = stack; all_ids = v.all_ids; points = v.points },
        record { same_count = refl; same_manager = refl },
      )
]
