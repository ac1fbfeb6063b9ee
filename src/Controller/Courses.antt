-- ===== src/Controller/Courses.antt =====
-- The courses of a call of `update` up to `pump_transfer`.
use os_tasks.Prelude.{
  ℕ, ◌≡◌, inl, inr, refl, ap, ◌∙◌, true, false, Option, none, some, List, ◌==◌, get_elem?,
  replicate, Bool-cases, Option-cases, arith,
}
use os_tasks.Prelude.Updates.{get_elem?-in}
use os_tasks.Manager.{Table, Call}
use os_tasks.Manager.Live.{IsTable}
use os_tasks.Manager.Accepting.{IsAllocated}
use os_tasks.Manager.Rounds.{Settles, cm_poll_lem}
use os_tasks.Manager.Poll.{Environment, cm_poll, close_cause_none, close_cause_error}
use os_tasks.Pump.{World}
use os_tasks.Controller.{
  Sorting, Control, State, state_ok, state_again, state_shutdown, sort_connections,
}
use os_tasks.Controller.Sorted.{PointsTo, sort_connections_lem}
use os_tasks.Controller.Steady.{IsSteady}
use os_tasks.Controller.Changes.{handle_state_changes_lem}
use os_tasks.Controller.Step.{Updated, returned, handle_state_changes, update_connections, update}
use os_tasks.Controller.Updating.{
  table_of, IsController, AllIds-NewIds, IsTable-objects, after_poll, after_sort, Handler,
  transferred, update_caused, update_no_tunnel, update_goes_on, update_again, update_shutdown,
  update_transfers,
}

-- What `update` does with the tunnel at the address `tunnel`; `o` is its result.
pub data Handling (handler : Handler) (connections : List (Option ℕ)) (tunnel : ℕ)
    (w : World Control) (o : Option Updated) : Type 0 where
  again :
      (cs : List (Option ℕ)) (w' : World Control)
      → handle_state_changes connections w ≡ some (state_again, cs, w')
      → IsController w'
      → o ≡ some (returned close_cause_none w')
      → Handling handler connections tunnel w o
  shuts_down :
      (cs : List (Option ℕ)) (w' : World Control)
      → handle_state_changes connections w ≡ some (state_shutdown, cs, w')
      → IsController w'
      → o ≡ some (returned close_cause_error w')
      → Handling handler connections tunnel w o
  transfers :
      (cs : List (Option ℕ)) (w' : World Control)
      → handle_state_changes connections w ≡ some (state_ok, cs, w')
      → IsController w'
      → PointsTo w'.objects cs
      → get_elem? cs 0 ≡ some (some tunnel)
      → o ≡ transferred handler cs w'
      → Handling handler connections tunnel w o

abbrev pub Sorts : World Control → Table → Sorting → Type 0
Sorts w t s =
    sort_connections t.manager.connections_count 0 t.manager.slots
      (record { free_ids = w.rest.free_ids; sorted = replicate 256 none; objects = t.objects })
    ≡ some s

-- What a call of `update` does, in the order of its steps; `o` is its result.
pub data Course (env : Environment) (handler : Handler) (w : World Control) (o : Option Updated)
    : Type 0 where
  ends :
      (t : Table) (calls : List Call) (cause : ℕ)
      → cm_poll env (table_of w) ≡ some (cause, t, calls)
      → (cause == close_cause_none) ≡ false
      → IsController (after_poll w t calls)
      → o ≡ some (returned cause (after_poll w t calls))
      → Course env handler w o
  no_tunnel :
      (t : Table) (calls : List Call) (cause : ℕ) (s : Sorting)
      → cm_poll env (table_of w) ≡ some (cause, t, calls)
      → (cause == close_cause_none) ≡ true
      → Sorts w t s
      → get_elem? s.sorted 0 ≡ some none
      → IsController (after_sort (after_poll w t calls) s)
      → o ≡ some (returned close_cause_none (after_sort (after_poll w t calls) s))
      → Course env handler w o
  handles :
      (t : Table) (calls : List Call) (cause : ℕ) (s : Sorting) (tunnel : ℕ)
      → cm_poll env (table_of w) ≡ some (cause, t, calls)
      → (cause == close_cause_none) ≡ true
      → Sorts w t s
      → get_elem? s.sorted 0 ≡ some (some tunnel)
      → Handling handler s.sorted tunnel (after_sort (after_poll w t calls) s) o
      → Course env handler w o

handled :
    (handler : Handler) (connections : List (Option ℕ)) (tunnel : ℕ) (w : World Control)
    (o : Option Updated)
    → get_elem? connections 0 ≡ some (some tunnel)
    → IsTable (table_of w)
    → IsSteady w connections
    → o ≡ update_connections handler connections w
    → Handling handler connections tunnel w o
handled handler connections tunnel w o here table v e =
    let (st, cs, w', run, v', k, kept) = handle_state_changes_lem connections w tunnel here v in
    by_state cs w' v' (kept ∙ here)
      (record {
        table =
            IsTable-objects (table_of w) w'.rest.manager w'.objects k.same_manager k.same_count
              table;
        free = v'.ids;
        all_ids = v'.all_ids;
        queue = v'.queue;
      })
      st run
  where
    by_state :
        (cs : List (Option ℕ)) (w' : World Control)
        → IsSteady w' cs
        → get_elem? cs 0 ≡ some (some tunnel)
        → IsController w'
        → (st : State) → handle_state_changes connections w ≡ some (st, cs, w')
        → Handling handler connections tunnel w o
    by_state cs w' v' first ok state_again run =
        Handling.again cs w' run ok (e ∙ update_again handler connections cs w w' run)
    by_state cs w' v' first ok state_shutdown run =
        Handling.shuts_down cs w' run ok (e ∙ update_shutdown handler connections cs w w' run)
    by_state cs w' v' first ok state_ok run =
        Handling.transfers cs w' run ok v'.points first
          (e ∙ update_transfers handler connections cs w w' run)

-- If `make_connection` can allocate, and some call of `poll` gives something else than EAGAIN or EINTR:
-- from a controller with a valid table and queue, free ids from 1 to 255, and ids of the connections
-- that are below 256 or negative, `update` takes one of five courses, whatever else the system
-- answers; `cm_poll`, and then the sorting and the handling of the states where it comes to them,
-- give a result, with no null pointer and no index outside of an array. It returns the cause of
-- `cm_poll`, or without the tunnel, or with commands that do not fit, or with an error as the tunnel
-- is closed, and the world it returns is again such a controller; or its result is what
-- `pump_transfer` makes of the array and the world that the handling has left: that is again such
-- a controller, and the array has the tunnel first, and at an index only a connection with that id.
pub update_lem :
    (env : Environment) (handler : Handler) (w : World Control)
    → IsController w
    → IsAllocated env.allocations
    → Settles env.poll_results
    → Course env handler w (update env handler w)
update_lem env handler w v ok settles =
    let (cause, t, calls, polled, table, new) = cm_poll_lem env (table_of w) v.table ok settles in
    let all = AllIds-NewIds w.objects t.objects new v.all_ids in
    elim (Bool-cases (cause == close_cause_none)) [
      | inr e ↦
          Course.ends t calls cause polled e
            (record { table = table; free = v.free; all_ids = all; queue = v.queue })
            (update_caused env handler w t calls cause polled e)
      | inl e ↦
          let (s, sorted, r) = sort_connections_lem t w.rest.free_ids table v.free all in
          let points = r.points in
          let size = points.0 in
          let (entry, at) = get_elem?-in s.sorted 0 (omega arith) in
          let table1 = IsTable-objects t t.manager s.objects refl r.count table in
          elim (Option-cases entry) [
            | inl f ↦
                Course.no_tunnel t calls cause s polled e sorted (at ∙ ap some f)
                  (record { table = table1; free = r.ids; all_ids = r.all_ids; queue = v.queue })
                  (update_no_tunnel env handler w t calls cause polled s e sorted (at ∙ ap some f))
            | inr (addr, f) ↦
                let here = at ∙ ap some f in
                Course.handles t calls cause s addr polled e sorted here (
                  handled handler s.sorted addr (after_sort (after_poll w t calls) s)
                    (update env handler w) here table1
                    (record { queue = v.queue; ids = r.ids; all_ids = r.all_ids; points = points })
                    (update_goes_on env handler w t calls cause polled s e sorted addr here))
          ]
    ]
