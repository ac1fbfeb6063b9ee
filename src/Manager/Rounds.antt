-- ===== src/Manager/Rounds.antt =====
-- `cm_poll` uses no null pointer and keeps the table.
use os_tasks.Prelude.{
  ℕ, zero, suc, ◌≤◌, ◌≡◌, ◌⊎◌, inl, inr, refl, sym, ap, ◌∙◌, Bool, true, false, Option, none, some,
  ◌>>=◌, List, [], ◌∷◌, ◌++◌, arith, if◌then◌else◌, length, Bool-cases, Option-cases,
}
use os_tasks.Connection.{Connection, PollFd, Events}
use os_tasks.Manager.{Slot, Table, Call, each_slot, close_socket, close_sockets, shrink}
use mathlib.Core.Path.{subst}
use os_tasks.Manager.Live.{LiveAt, IsTable, ids, Kept, Same-Kept, each_slot_lem}
use os_tasks.Manager.Shrinking.{shrink-IsTable}
use os_tasks.Manager.Keeping.{close_socket_id, want_output_id, serve_id}
use os_tasks.Manager.Poll.{
  try_again, accept_connection, want_output, Polled, polled, poll_failed, poll_until, set_revents,
  serve, Environment, pipe_cause, serve_all, close_cause_error, close_cause_none, cm_poll,
}
use os_tasks.Manager.Accepting.{IsAllocated, Accepts, NewIds, accept_connection_lem}

all_slots :
    (f : PollFd → Connection → PollFd × Connection × List Call)
    (keeps : (p : PollFd) (c : Connection) → (f p c).1.id ≡ c.id) (n : ℕ) (t : Table)
    → IsTable t
    → n ≤ t.manager.connections_count
    → (t' : Table) × (calls : List Call) × (each_slot f n 0 t ≡ some (t', calls)) × Kept t t'
all_slots f keeps n t v h =
    let (t', calls, run, same) = each_slot_lem f keeps n 0 t (λ j l. v.live j (omega arith)) in
    (t', calls, run, Same-Kept t t' same v)

close_sockets_lem :
    (t : Table)
    → IsTable t
    → (t' : Table) × (calls : List Call) × (close_sockets t ≡ some (t', calls)) × Kept t t'
unfolding close_sockets
close_sockets_lem t v =
    all_slots close_socket close_socket_id t.manager.connections_count t v (omega arith)

accept_if :
    (env : Environment) (ready : Bool) (t : Table)
    → IsTable t
    → IsAllocated env.allocations
    → (t' : Table) × (calls : List Call) × ((if ready
          then accept_connection env.allocations env.accept_result t
          else some (t, []))
        ≡ some (t', calls))
      × Accepts t t'
accept_if env true t v ok = accept_connection_lem env.allocations env.accept_result t v ok
accept_if env false t v ok = (t, [], refl, (v, omega arith, inl refl))

serve_all_lem :
    (env : Environment) (count : ℕ) (acceptor : Events) (t : Table)
    → IsTable t
    → count ≤ t.manager.connections_count
    → IsAllocated env.allocations
    → (t' : Table) × (calls : List Call) × (serve_all env count acceptor t ≡ some (t', calls))
      × IsTable t'
      × NewIds (ids t.objects) (ids t'.objects)
unfolding serve_all
serve_all_lem env count acceptor t v h ok =
    let (t1, accepting, run1, (v1, more, new)) = accept_if env acceptor.pollin t v ok in
    let (t2, serving, run2, (v2, same2)) =
      all_slots (serve env.readv env.writev) (serve_id env.readv env.writev) count t1 v1
        (omega arith) in
    let (t3, closing, run3, (v3, same3)) = close_sockets_lem t2 v2 in
    let (t4, run4, (v4, same4)) = shrink-IsTable t3 v3 in
    (
      t4,
      accepting ++ serving ++ closing,
      rw (run1, run2, run3, run4),
      v4,
      subst (NewIds (ids t.objects)) (sym (same4 ∙ same3 ∙ same2)) new,
    )

-- One of the calls of `poll` does not fail with EAGAIN or EINTR.
abbrev pub Settles : List Polled → Type 0
Settles [] = ⊥
Settles (polled acceptor pipe es ∷ results) = Unit
Settles (poll_failed err ∷ results) = (try_again err ≡ false) ⊎ Settles results

poll_until_lem :
    (results : List Polled) → Settles results → (r : Polled) × (poll_until results ≡ some r)
unfolding poll_until
poll_until_lem [] h = absurd h
poll_until_lem (polled acceptor pipe es ∷ results) h = (polled acceptor pipe es, refl)
poll_until_lem (poll_failed err ∷ results) h = elim (Bool-cases (try_again err)) [
  | inr e ↦ (poll_failed err, rw e)
  | inl e ↦
      rw e
        (elim h [ inl f ↦ absurd (ground (arith, e, f)) | inr more ↦ poll_until_lem results more ])
]

length-set_revents :
    (es : List Events) (slots : List Slot) → length (set_revents es slots) ≡ length slots
unfolding set_revents
length-set_revents [] slots = refl
length-set_revents (e ∷ es) [] = refl
length-set_revents (e ∷ es) (s ∷ slots) = ap suc (length-set_revents es slots)

LiveAt-set_revents :
    (n : ℕ) (es : List Events) (slots : List Slot) (j : ℕ)
    → LiveAt n slots j
    → LiveAt n (set_revents es slots) j
unfolding set_revents
LiveAt-set_revents n [] slots j h = h
LiveAt-set_revents n (e ∷ es) [] j h = h
LiveAt-set_revents n (e ∷ es) (s ∷ slots) zero (s', a, at, has, lt) = (
  record s { pfd = record (s.pfd) { revents = e } },
  a,
  refl,
  ap (λ (o : Option Slot). o >>= λ s. s.conn) at ∙ has,
  lt,
)
LiveAt-set_revents n (e ∷ es) (s ∷ slots) (suc j) h = LiveAt-set_revents n es slots j h

-- The table with the events that `poll` returned.
abbrev with_events : (acceptor pipe : Events) → List Events → Table → Table
with_events acceptor pipe es t = record t {
  manager = record (t.manager) {
    slots = set_revents es t.manager.slots;
    acceptor = record (t.manager.acceptor) { revents = acceptor };
    pipe_in = record (t.manager.pipe_in) { revents = pipe };
  };
}

with_events-IsTable :
    (acceptor pipe : Events) (es : List Events) (t : Table)
    → IsTable t
    → IsTable (with_events acceptor pipe es t)
with_events-IsTable acceptor pipe es t v = record {
  size = length-set_revents es t.manager.slots ∙ v.size;
  bound = v.bound;
  live = λ j h. LiveAt-set_revents (length t.objects) es t.manager.slots j (v.live j h);
}

module _ (env : Environment) (t : Table) (calls : List Call) where
  -- What `cm_poll` does after `poll`.
  abbrev after_poll : Polled → Option (ℕ × Table × List Call)
  after_poll r = elim r [
    | poll_failed err ↦ some (close_cause_error, t, calls)
    | polled acceptor pipe es ↦ elim (pipe_cause env pipe) [
      | some cause ↦ some (cause, with_events acceptor pipe es t, calls)
      | none ↦
          serve_all env t.manager.connections_count acceptor (with_events acceptor pipe es t)
          >>= λ (t', more). some (close_cause_none, t', calls ++ more)
    ]
  ]

  after_poll_serves :
      (acceptor pipe : Events) (es : List Events) (t' : Table) (more : List Call)
      → pipe_cause env pipe ≡ none
      → serve_all env t.manager.connections_count acceptor (with_events acceptor pipe es t)
        ≡ some (t', more)
      → after_poll (polled acceptor pipe es) ≡ some (close_cause_none, t', calls ++ more)
  after_poll_serves acceptor pipe es t' more e run = rw (after_poll, e, run)

after_poll_lem :
    (env : Environment) (t : Table) (calls : List Call) (r : Polled)
    → IsTable t
    → IsAllocated env.allocations
    → (cause : ℕ) × (t' : Table) × (calls' : List Call) × (after_poll env t calls r
        ≡ some (cause, t', calls'))
      × IsTable t'
      × NewIds (ids t.objects) (ids t'.objects)
after_poll_lem env t calls (poll_failed err) v ok = (close_cause_error, t, calls, refl, v, inl refl)
after_poll_lem env t calls (polled acceptor pipe es) v ok =
    let v1 = with_events-IsTable acceptor pipe es t v in
    elim (Option-cases (pipe_cause env pipe)) [
      | inr (cause, e) ↦
          (cause, with_events acceptor pipe es t, calls, rw (after_poll, e), v1, inl refl)
      | inl e ↦
          let (t', more, run, v2, new) =
            serve_all_lem env t.manager.connections_count acceptor (with_events acceptor pipe es t)
              v1 (omega arith) ok in
          (
            close_cause_none,
            t',
            calls ++ more,
            after_poll_serves env t calls acceptor pipe es t' more e run,
            v2,
            new,
          )
    ]

cm_poll_run :
    (env : Environment) (t t1 t2 t3 : Table) (closing wanting : List Call) (r : Polled)
    → close_sockets t ≡ some (t1, closing)
    → shrink t1 ≡ some t2
    → each_slot want_output t2.manager.connections_count 0 t2 ≡ some (t3, wanting)
    → poll_until env.poll_results ≡ some r
    → cm_poll env t ≡ after_poll env t3 (closing ++ wanting) r
unfolding cm_poll
cm_poll_run env t t1 t2 t3 closing wanting (poll_failed err) run1 run2 run3 run4 =
    rw (run1, run2, run3, run4) refl
cm_poll_run env t t1 t2 t3 closing wanting (polled acceptor pipe es) run1 run2 run3 run4 =
    rw (run1, run2, run3, run4) refl

-- If `make_connection` can allocate, and some call of `poll` gives something else than EAGAIN or EINTR,
-- `cm_poll` ends, whatever else the system answers: it uses no null pointer and no index outside of
-- its arrays, and keeps the invariant that there are at most MAX_CONNECTIONS connections and that
-- every slot in use points to one. The connections keep their ids, and at most one is added, with the
-- id -1.
pub cm_poll_lem :
    (env : Environment) (t : Table)
    → IsTable t
    → IsAllocated env.allocations
    → Settles env.poll_results
    → (cause : ℕ) × (t' : Table) × (calls : List Call) × (cm_poll env t ≡ some (cause, t', calls))
      × IsTable t'
      × NewIds (ids t.objects) (ids t'.objects)
cm_poll_lem env t v ok settles =
    let (t1, closing, run1, (v1, same1)) = close_sockets_lem t v in
    let (t2, run2, (v2, same2)) = shrink-IsTable t1 v1 in
    let (t3, wanting, run3, (v3, same3)) =
      all_slots want_output want_output_id t2.manager.connections_count t2 v2 (omega arith) in
    let (r, run4) = poll_until_lem env.poll_results settles in
    let (cause, t4, calls, run5, v4, new) = after_poll_lem env t3 (closing ++ wanting) r v3 ok in
    (
      cause,
      t4,
      calls,
      cm_poll_run env t t1 t2 t3 closing wanting r run1 run2 run3 run4 ∙ run5,
      v4,
      subst (λ l. NewIds l (ids t4.objects)) (same3 ∙ same2 ∙ same1) new,
    )

-- If `poll` gives that the pipe can be read, and there is a byte in it, `cm_poll` gives this byte, and
-- keeps the invariant.
pub cm_poll_told :
    (env : Environment) (t : Table) (acceptor pipe : Events) (es : List Events) (cause : ℕ)
    → IsTable t
    → poll_until env.poll_results ≡ some (polled acceptor pipe es)
    → pipe_cause env pipe ≡ some cause
    → (t' : Table) × (calls : List Call) × (cm_poll env t ≡ some (cause, t', calls)) × IsTable t'
cm_poll_told env t acceptor pipe es cause v run4 told =
    let (t1, closing, run1, (v1, same1)) = close_sockets_lem t v in
    let (t2, run2, (v2, same2)) = shrink-IsTable t1 v1 in
    let (t3, wanting, run3, (v3, same3)) =
      all_slots want_output want_output_id t2.manager.connections_count t2 v2 (omega arith) in
    (
      with_events acceptor pipe es t3,
      closing ++ wanting,
      cm_poll_run env t t1 t2 t3 closing wanting (polled acceptor pipe es) run1 run2 run3 run4
          ∙ rw (after_poll, told) refl,
      with_events-IsTable acceptor pipe es t3 v3,
    )
