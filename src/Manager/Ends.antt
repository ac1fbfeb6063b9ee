-- ===== src/Manager/Ends.antt =====
-- `destroy_manager` closes what is still open.
use os_tasks.Prelude.{
  ℕ, zero, suc, ◌+◌, ◌≤◌, ◌≡◌, refl, sym, ap, ◌∙◌, arith, Option, none, some, ◌>>=◌, List, [], ◌∷◌,
  ◌++◌, if◌then◌else◌, take, drop, get_elem?,
}
use os_tasks.Prelude.Updates.{get_elem?-in, drop_here}
use os_tasks.Connection.{Connection, is_closed}
use os_tasks.Manager.{Slot, Table, Call, close, connection_fd, cm_get_connection_fd}
use os_tasks.Manager.Live.{IsTable}
use os_tasks.Manager.Poll.{is_minus_one, destroy_slots, destroy_manager}

-- The sockets of the slots whose connections are not closed.
abbrev pub still_open : List Connection → List Slot → List Call
still_open objects [] = []
still_open objects (s ∷ slots) = elim (s.conn >>= λ a. get_elem? objects a) [
  | none ↦ still_open objects slots
  | some c ↦
      if is_closed c.state
      then still_open objects slots
      else close (connection_fd s.pfd) ∷ still_open objects slots
]

destroy_slot :
    (n i a : ℕ) (t : Table) (s : Slot) (c : Connection) (calls : List Call)
    → get_elem? t.manager.slots i ≡ some s
    → s.conn ≡ some a
    → get_elem? t.objects a ≡ some c
    → destroy_slots n (i + 1) t ≡ some calls
    → destroy_slots (suc n) i t
      ≡ some (if is_closed c.state then calls else close (connection_fd s.pfd) ∷ calls)
unfolding destroy_slots cm_get_connection_fd
destroy_slot n i a t s c calls at has at_a run = rw (destroy_slots, at, has, at_a, run) refl

still_open_next :
    (objects : List Connection) (s : Slot) (a : ℕ) (c : Connection) (slots : List Slot)
    → s.conn ≡ some a
    → get_elem? objects a ≡ some c
    → still_open objects (s ∷ slots) ≡ (
        if is_closed c.state
        then still_open objects slots
        else close (connection_fd s.pfd) ∷ still_open objects slots)
still_open_next objects s a c slots has at =
    ap
      (λ (o : Option Connection). elim o [
        | none ↦ still_open objects slots
        | some c ↦
            if is_closed c.state
            then still_open objects slots
            else close (connection_fd s.pfd) ∷ still_open objects slots
      ])
      (ap (λ (o : Option ℕ). o >>= λ a. get_elem? objects a) has ∙ at)

destroy_slots_lem :
    (n i : ℕ) (t : Table)
    → IsTable t
    → i + n ≤ t.manager.connections_count
    → destroy_slots n i t ≡ some (still_open t.objects (take n (drop i t.manager.slots)))
unfolding destroy_slots
destroy_slots_lem zero i t v h = refl
destroy_slots_lem (suc n) i t v h =
    let (s, a, at, has, lt) = v.live i (omega arith) in
    let (c, at_a) = get_elem?-in t.objects a lt in
    let rest = take n (drop (i + 1) t.manager.slots) in
    destroy_slot n i a t s c (still_open t.objects rest) at has at_a
      (destroy_slots_lem n (i + 1) t v (omega arith))
    ∙ ap some (sym (still_open_next t.objects s a c rest has at_a))
    ∙ ap (λ l. some (still_open t.objects (take (suc n) l)))
        (sym (drop_here t.manager.slots i s at))

-- The end closes the acceptor, if there is one, both ends of the pipe, and exactly the sockets of the
-- slots in use whose connections are not closed.
pub destroy_manager_lem :
    (t : Table)
    → IsTable t
    → destroy_manager t
      ≡ some (
          (if is_minus_one t.manager.acceptor.fd then [] else close t.manager.acceptor.fd ∷ [])
          ++ (close t.manager.pipe_in.fd
              ∷ close t.manager.pipe
              ∷ still_open t.objects (take t.manager.connections_count t.manager.slots)))
unfolding destroy_manager
destroy_manager_lem t v =
    rw (destroy_slots_lem t.manager.connections_count 0 t v (omega arith)) refl
