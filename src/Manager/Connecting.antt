-- ===== src/Manager/Connecting.antt =====
-- `cm_connect` keeps the table.
use os_tasks.Prelude.{
  ℕ, ◌≡◌, ◌≢◌, refl, ap, ◌∙◌, Bool, true, false, some, [], ◌∷◌, ◌++◌, ◌==◌, if◌then◌else◌, ℤ, pos,
  arith,
}
use mathlib.Core.Path.{subst}
use os_tasks.Prelude.Updates.{get_elem?-in}
use os_tasks.Connection.{Allocations}
use os_tasks.Manager.{max_connections, Table, close, cm_connect}
use os_tasks.Manager.Live.{IsTable, ids}
use os_tasks.Manager.Accepting.{
  IsAllocated, make_connection_lem, cm_add_connection_lem, grown, grown-IsTable, ids-append, Adds,
  grown-Adds,
}

pub Adds-ids :
    (fd id : ℤ) (t t' : Table) → Adds fd id t t' → ids t'.objects ≡ ids t.objects ++ (id ∷ [])
Adds-ids fd id t t' a =
    let (c, e, same_id) = a.made in
    ap ids e ∙ ids-append t.objects c ∙ ap (λ n. ids t.objects ++ (n ∷ [])) same_id

-- What `cm_connect` does to the table, by whether `connect` succeeds.
abbrev pub Connects : (connected : Bool) (fd id : ℤ) (t t' : Table) → Type 0
Connects true fd id t t' = Adds fd id t t'
Connects false fd id t t' = t' ≡ t

-- With a free slot, memory and a socket, `cm_connect` gives whether `connect` succeeds; if so there is one
-- more connection, with the given id, in the next slot, and if not the socket is closed and the
-- table stays.
pub cm_connect_lem :
    (a : Allocations) (sock : ℕ) (connected : Bool) (t : Table) (addr in_size out_size : ℕ) (id : ℤ)
    → IsTable t
    → t.manager.connections_count ≢ max_connections
    → IsAllocated a
    → (t' : Table) × (cm_connect a (some sock) connected t addr in_size out_size id
        ≡ some (connected, t', if connected then [] else close (pos sock) ∷ []))
      × IsTable t'
      × Connects connected (pos sock) id t t'
unfolding cm_connect
cm_connect_lem a sock true t addr in_size out_size id v free ok =
    let size = v.size in
    let bound = v.bound in
    let (c, made, same_id) = make_connection_lem a addr in_size out_size id ok in
    let (s, at) = get_elem?-in t.manager.slots t.manager.connections_count (omega (arith, free)) in
    let ne : (t.manager.connections_count == max_connections) ≡ false = ground (arith, free) in
    let t' : Table = record {
      manager = grown t v c (pos sock) free s at;
      objects = t.objects ++ (c ∷ []);
    } in
    (
      t',
      rw (ne, made, cm_add_connection_lem t v c (pos sock) free s at) refl,
      grown-IsTable t v c (pos sock) free s at,
      subst (λ n. Adds (pos sock) n t t') same_id (grown-Adds t v c (pos sock) free s at),
    )
cm_connect_lem a sock false t addr in_size out_size id v free ok =
    let (c, made, same_id) = make_connection_lem a addr in_size out_size id ok in
    let ne : (t.manager.connections_count == max_connections) ≡ false = ground (arith, free) in
    (t, rw (ne, made) refl, v, refl)
