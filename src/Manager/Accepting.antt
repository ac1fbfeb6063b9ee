-- ===== src/Manager/Accepting.antt =====
-- Accepting keeps the table.
use os_tasks.Prelude.{
  take, ℕ, ◌+◌, ◌≤◌, ◌≡◌, ◌≢◌, inl, inr, refl, ◌∙◌, true, false, some, List, [], ◌∷◌, ◌++◌, arith,
  ◌==◌, if◌then◌else◌, length, length-append, set, get_elem?, get_elem?-set_self, get_elem?-set_ne,
  store-eq-set, length-set, Bool-cases, ℤ, pos, negsuc, ◌⊎◌, ap,
}
use mathlib.Core.Path.{subst}
use native.Mathlib.Decide.{ℕ_discrete}
use os_tasks.Prelude.Updates.{get_elem?-in, take-set_end}
use os_tasks.RoundBuffer.{buf_create}
use os_tasks.Connection.{Connection, Allocations, make_connection, pollin_only}
use os_tasks.Manager.{max_connections, Slot, Manager, Table, Call, cm_add_connection}
use os_tasks.Manager.Live.{IsTable, ids}
use os_tasks.Manager.Poll.{
  Accepted, accepted, accept_failed, try_again, accept_socket, accept_connection,
}

-- Every allocation of `make_connection` succeeds.
pub record IsAllocated (a : Allocations) : Type 0 where
  pub in_storage : (ptr : List ℕ) × (a.in_ptr ≡ some ptr)
  pub in_made : a.in_res ≡ true
  pub out_storage : (ptr : List ℕ) × (a.out_ptr ≡ some ptr)
  pub out_made : a.out_res ≡ true
  pub made : a.connection ≡ true

pub make_connection_lem :
    (a : Allocations) (addr in_size out_size : ℕ) (id : ℤ)
    → IsAllocated a
    → (c : Connection) × (make_connection a addr in_size out_size id ≡ some c) × (c.id ≡ id)
unfolding make_connection buf_create
make_connection_lem a addr in_size out_size id ok =
    let (p, e) = ok.in_storage in
    let (q, f) = ok.out_storage in rw (e, ok.in_made, f, ok.out_made, ok.made) (_, refl, refl)

-- The ids are those of before, or there is one more, which is -1.
abbrev pub NewIds : (before after : List ℤ) → Type 0
NewIds before after = (after ≡ before) ⊎ (after ≡ before ++ (negsuc 0 ∷ []))

pub ids-append :
    (objects : List Connection) (c : Connection)
    → ids (objects ++ (c ∷ [])) ≡ ids objects ++ (c.id ∷ [])
ids-append [] c = refl
ids-append (x ∷ objects) c = ap (λ l. x.id ∷ l) (ids-append objects c)

-- What accepting does to the table: it stays one, with the slots of before live.
abbrev pub Accepts : (t t' : Table) → Type 0
Accepts t t' =
    IsTable t'
    × (t.manager.connections_count ≤ t'.manager.connections_count)
    × NewIds (ids t.objects) (ids t'.objects)

-- A connection is new behind the others, and in the next slot, whose socket is `fd` and waits for input;
-- the slots before it stay.
pub record Adds (fd id : ℤ) (t t' : Table) : Type 0 where
  pub counted : t'.manager.connections_count ≡ t.manager.connections_count + 1
  pub earlier :
      take t.manager.connections_count t'.manager.slots
      ≡ take t.manager.connections_count t.manager.slots
  pub slot :
      (s : Slot) × (get_elem? t'.manager.slots t.manager.connections_count ≡ some s)
      × (s.conn ≡ some (length t.objects))
      × (s.pfd.fd ≡ fd)
      × (s.pfd.events ≡ pollin_only)
  pub made : (c : Connection) × (t'.objects ≡ t.objects ++ (c ∷ [])) × (c.id ≡ id)

module _ (t : Table) (v : IsTable t) (c : Connection) (fd : ℤ)
    (free : t.manager.connections_count ≢ max_connections) (s : Slot)
    (at : get_elem? t.manager.slots t.manager.connections_count ≡ some s) where
  abbrev pub new_slot : Slot
  new_slot = record {
    conn = some (length t.objects);
    pfd = record (s.pfd) { fd = fd; events = pollin_only };
  }

  abbrev pub grown : Manager
  grown = record (t.manager) {
    slots = set t.manager.slots t.manager.connections_count new_slot;
    connections_count = t.manager.connections_count + 1;
  }

  pub cm_add_connection_lem :
      cm_add_connection t.manager (length t.objects) fd
      ≡ some (pos t.manager.connections_count, grown)
  unfolding cm_add_connection
  cm_add_connection_lem =
      let size = v.size in
      let bound = v.bound in
      rw (
        (let e : (t.manager.connections_count == max_connections) ≡ false = ground (arith, free) in
            e),
        at,
        store-eq-set t.manager.slots t.manager.connections_count new_slot (omega (arith, free)),
      )

  pub grown-Adds : Adds fd c.id t (record { manager = grown; objects = t.objects ++ (c ∷ []) })
  grown-Adds =
      let size = v.size in
      let bound = v.bound in
      record {
        counted = refl;
        earlier = take-set_end t.manager.slots t.manager.connections_count new_slot;
        slot = (
          new_slot,
          get_elem?-set_self t.manager.slots t.manager.connections_count new_slot
              (omega (arith, free)),
          refl,
          refl,
          refl,
        );
        made = (c, refl, refl);
      }

  pub grown-IsTable : IsTable (record { manager = grown; objects = t.objects ++ (c ∷ []) })
  grown-IsTable =
      let n = t.manager.connections_count in
      let size = v.size in
      let bound = v.bound in
      let more = length-append t.objects (c ∷ []) in
      record {
        size = length-set t.manager.slots n new_slot ∙ size;
        bound = omega (arith, free);
        live = λ j h. elim (ℕ_discrete n j) [
          | yes e ↦ (
            new_slot,
            length t.objects,
            subst (λ k. get_elem? (set t.manager.slots n new_slot) k ≡ some new_slot) e
                (get_elem?-set_self t.manager.slots n new_slot (omega (arith, free))),
            refl,
            omega arith,
          )
          | no f ↦
              let (s', a, at', has, lt) = v.live j (omega (arith, f)) in
              (s', a, get_elem?-set_ne t.manager.slots new_slot f ∙ at', has, omega arith)
        ];
      }

accept_socket_lem :
    (a : Allocations) (addr : ℕ) (socket : ℤ) (t : Table)
    → IsTable t
    → t.manager.connections_count ≢ max_connections
    → IsAllocated a
    → (t' : Table) × (calls : List Call) × (accept_socket a addr socket t ≡ some (t', calls))
      × Accepts t t'
unfolding accept_socket
accept_socket_lem a addr socket t v free ok =
    let n = t.manager.connections_count in
    let size = v.size in
    let bound = v.bound in
    let (c, made, is_new) =
      make_connection_lem a addr t.manager.buf_size t.manager.buf_size (negsuc 0) ok in
    let (s, at) = get_elem?-in t.manager.slots n (omega (arith, free)) in
    let c' : Connection = record c { state = record (c.state) { cs_new = true } } in
    (
      record { manager = grown t v c' socket free s at; objects = t.objects ++ (c' ∷ []) },
      [],
      rw (made, cm_add_connection_lem t v c' socket free s at),
      (
        grown-IsTable t v c' socket free s at,
        omega arith,
        inr (ids-append t.objects c' ∙ ap (λ n. ids t.objects ++ (n ∷ [])) is_new),
      ),
    )

pub accept_connection_lem :
    (a : Allocations) (result : Accepted) (t : Table)
    → IsTable t
    → IsAllocated a
    → (t' : Table) × (calls : List Call) × (accept_connection a result t ≡ some (t', calls))
      × Accepts t t'
unfolding accept_connection
accept_connection_lem a result t v ok =
    elim (ℕ_discrete t.manager.connections_count max_connections) [
      | yes e ↦ (t, [], ground (arith, e), (v, omega arith, inl refl))
      | no f ↦
          let ne : (t.manager.connections_count == max_connections) ≡ false = ground (arith, f) in
          rw ne (by_result f result)
    ]
  where
    by_result :
        t.manager.connections_count ≢ max_connections
        → (r : Accepted)
        → (t' : Table) × (calls : List Call) × ((elim r [
          | accepted s addr ↦ accept_socket a addr (pos s) t
          | accept_failed err addr ↦
              if try_again err then some (t, []) else accept_socket a addr (negsuc 0) t
        ])
            ≡ some (t', calls))
          × Accepts t t'
    by_result f (accepted s addr) = accept_socket_lem a addr (pos s) t v f ok
    by_result f (accept_failed err addr) = elim (Bool-cases (try_again err)) [
      | inl e ↦ (t, [], rw e, (v, omega arith, inl refl))
      | inr e ↦ rw e (accept_socket_lem a addr (negsuc 0) t v f ok)
    ]
