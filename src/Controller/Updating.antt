-- ===== src/Controller/Updating.antt =====
-- The controller between two calls of `update`, and the steps of a call.
use os_tasks.Prelude.{
  ℕ, zero, suc, ◌≡◌, inl, inr, refl, sym, true, false, Option, none, some, ◌>>=◌, List, [], ◌∷◌,
  ◌++◌, ◌==◌, ℤ, negsuc, length, get_elem?, replicate,
}
use mathlib.Core.Path.{subst}
use os_tasks.CmdQueue.Fifo.{IsValid}
use os_tasks.Connection.{Connection}
use os_tasks.Manager.{Manager, Table, Call}
use os_tasks.Manager.Live.{LiveTo, IsTable, ids}
use os_tasks.Manager.Accepting.{NewIds}
use os_tasks.Manager.Poll.{Environment, cm_poll, close_cause_none, close_cause_error}
use os_tasks.Pump.{World, running, exited, pump_transfer}
use os_tasks.Controller.{Sorting, Control, state_ok, state_again, state_shutdown, sort_connections}
use os_tasks.Controller.Sorted.{IsId, IsStack, AllIds}
use os_tasks.Controller.Step.{
  Updated, returned, update_exited, handle_state_changes, update_connections, update,
}

abbrev pub table_of : World Control → Table
table_of w = record { manager = w.rest.manager; objects = w.objects }

-- What holds of the controller between two calls of `update`.
pub record IsController (w : World Control) : Type 0 where
  pub table : IsTable (table_of w)
  pub free : IsStack w.rest.free_ids
  pub all_ids : AllIds w.objects
  pub queue : IsValid w.pump.cmd_queue

abbrev pub Every : List ℤ → Type 0
Every [] = Unit
Every (n ∷ ns) = IsId n × Every ns

pub Every-ids : (objects : List Connection) → AllIds objects → Every (ids objects)
Every-ids [] all = tt
Every-ids (c ∷ objects) all = (all 0 c refl, Every-ids objects (λ a d e. all (suc a) d e))

id_of : (c : Connection) → Option Connection → ℤ
id_of c none = c.id
id_of c (some d) = d.id

pub AllIds-Every : (objects : List Connection) → Every (ids objects) → AllIds objects
unfolding id_of
AllIds-Every [] every a c e = absurd (cc)
AllIds-Every (x ∷ objects) (h, hs) zero c e = subst (λ o. IsId (id_of c o)) e h
AllIds-Every (x ∷ objects) (h, hs) (suc a) c e = AllIds-Every objects hs a c e

pub Every-append : (ns : List ℤ) (n : ℤ) → Every ns → IsId n → Every (ns ++ (n ∷ []))
Every-append [] n h k = (k, tt)
Every-append (m ∷ ns) n (h, hs) k = (h, Every-append ns n hs k)

pub AllIds-NewIds :
    (objects objects' : List Connection)
    → NewIds (ids objects) (ids objects')
    → AllIds objects
    → AllIds objects'
AllIds-NewIds objects objects' (inl e) all =
    AllIds-Every objects' (subst Every (sym e) (Every-ids objects all))
AllIds-NewIds objects objects' (inr e) all =
    AllIds-Every objects'
      (subst Every (sym e) (Every-append (ids objects) (negsuc 0) (Every-ids objects all) tt))

pub IsTable-objects :
    (t : Table) (m : Manager) (objects : List Connection)
    → m ≡ t.manager
    → length objects ≡ length t.objects
    → IsTable t
    → IsTable (record { manager = m; objects = objects })
IsTable-objects t m objects same_m same_n v =
    let count = t.manager.connections_count in
    subst (λ k. IsTable (record { manager = k; objects = objects })) (sym same_m)
      (record {
        size = v.size;
        bound = v.bound;
        live = subst (λ n. LiveTo n count t.manager.slots) (sym same_n) v.live;
      })

-- The world after `cm_poll`, and after `sort_connections`.
abbrev pub after_poll : World Control → Table → List Call → World Control
after_poll w t calls = record w {
  objects = t.objects;
  rest = record (w.rest) { manager = t.manager; calls = w.rest.calls ++ calls };
}

abbrev pub after_sort : World Control → Sorting → World Control
after_sort w s = record w { objects = s.objects; rest = record (w.rest) { free_ids = s.free_ids } }

abbrev pub Handler : Type 0
Handler = (cmd arg : ℕ) → World Control → Option (World Control)

-- What `update` does once the states are handled.
abbrev pub transferred : Handler → List (Option ℕ) → World Control → Option Updated
transferred handler connections w = pump_transfer handler connections w >>= λ r. elim r [
  | running w ↦ some (returned close_cause_none w)
  | exited ↦ some update_exited
]

module _ (env : Environment) (handler : Handler) (w : World Control) (t : Table) (calls : List Call)
    (cause : ℕ) (polled : cm_poll env (table_of w) ≡ some (cause, t, calls)) where
  pub update_caused :
      (cause == close_cause_none) ≡ false
      → update env handler w ≡ some (returned cause (after_poll w t calls))
  unfolding update
  update_caused e = rw (polled, e) refl

  module _ (s : Sorting) (goes_on : (cause == close_cause_none) ≡ true)
      (sorted : sort_connections t.manager.connections_count 0 t.manager.slots
          (record { free_ids = w.rest.free_ids; sorted = replicate 256 none; objects = t.objects })
        ≡ some s) where
    pub update_no_tunnel :
        get_elem? s.sorted 0 ≡ some none
        → update env handler w
          ≡ some (returned close_cause_none (after_sort (after_poll w t calls) s))
    unfolding update
    update_no_tunnel at = rw (polled, goes_on, sorted, at) refl

    pub update_goes_on :
        (addr : ℕ)
        → get_elem? s.sorted 0 ≡ some (some addr)
        → update env handler w
          ≡ update_connections handler s.sorted (after_sort (after_poll w t calls) s)
    unfolding update
    update_goes_on addr at = rw (polled, goes_on, sorted, at) refl

module _ (handler : Handler) (connections cs : List (Option ℕ)) (w w' : World Control) where
  pub update_again :
      handle_state_changes connections w ≡ some (state_again, cs, w')
      → update_connections handler connections w ≡ some (returned close_cause_none w')
  unfolding update_connections
  update_again e = rw e refl

  pub update_shutdown :
      handle_state_changes connections w ≡ some (state_shutdown, cs, w')
      → update_connections handler connections w ≡ some (returned close_cause_error w')
  unfolding update_connections
  update_shutdown e = rw e refl

  pub update_transfers :
      handle_state_changes connections w ≡ some (state_ok, cs, w')
      → update_connections handler connections w ≡ transferred handler cs w'
  unfolding update_connections
  update_transfers e = rw e refl
