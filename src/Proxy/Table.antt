-- ===== src/Proxy/Table.antt =====
-- The table of clients: every slot below `clients_count` has a client; and accepting a connection.
use os_tasks.Prelude.{
  ℕ, zero, suc, ◌+◌, ◌≤◌, ◌<◌, ◌≡◌, ◌⊎◌, inl, inr, refl, ap, true, Option, none, some, List, [],
  ◌∷◌, arith, length, take, set, get_elem?, store-eq-set, length-set, Bool-cases, Option-cases, ℤ,
}
use os_tasks.Prelude.Updates.{get_elem?-in}
use os_tasks.Proxy.{
  max_clients, Client, ClientSlot, Proxy, is_used, can_add_slot, add_slot, ClientAllocations,
  make_client, added, system_error, add_client, Accepted, accepted, accept_failed, Calls,
  close_both_sockets, accept_connection,
}
use os_tasks.Connection.{pollin_only}
use os_tasks.ProxyBuffer.{rb_init}

abbrev pub AllUsed : List ClientSlot → Type 0
AllUsed [] = Unit
AllUsed (s ∷ slots) = (is_used s ≡ true) × AllUsed slots

-- The arrays have their size, and every slot in use has a client.
pub record IsTable (p : Proxy) : Type 0 where
  pub size : length p.slots ≡ max_clients
  pub bound : p.clients_count ≤ max_clients
  pub all_used : AllUsed (take p.clients_count p.slots)

-- The buffer that `make_client` makes last can be allocated.
abbrev pub IsAllocated : ClientAllocations → Type 0
IsAllocated a = (ptr : List ℕ) × (a.src_dst ≡ some ptr)

take-set_low :
    (slots : List ClientSlot) (i : ℕ) (s : ClientSlot) → take i (set slots i s) ≡ take i slots
take-set_low [] zero s = refl
take-set_low [] (suc i) s = refl
take-set_low (x ∷ slots) zero s = refl
take-set_low (x ∷ slots) (suc i) s = ap (λ l. x ∷ l) (take-set_low slots i s)

-- What a call may do to the table: it adds at most one slot behind those in use.
pub record Grows (p p' : Proxy) : Type 0 where
  pub same_size : length p'.slots ≡ length p.slots
  pub bounded : p'.clients_count ≤ max_clients
  pub kept : take p.clients_count p'.slots ≡ take p.clients_count p.slots

pub stays : (p : Proxy) → IsTable p → Grows p p
stays p t = record { same_size = refl; bounded = t.bound; kept = refl }

module _ (c : Client) (p : Proxy) (s : ClientSlot)
    (at : get_elem? p.slots p.clients_count ≡ some s) where
  abbrev new_slot : ClientSlot
  new_slot = record {
    client = some c;
    src = record (s.src) { fd = c.src_fd; events = pollin_only };
    dst = record (s.dst) { fd = c.dst_fd; events = pollin_only };
  }

  abbrev grown : Proxy
  grown = record p {
    clients_count = p.clients_count + 1;
    slots = set p.slots p.clients_count new_slot;
  }

  add_slot_run : p.clients_count < length p.slots → add_slot c p ≡ some (p.clients_count, grown)
  unfolding add_slot
  add_slot_run h = rw (at, store-eq-set p.slots p.clients_count new_slot h)

  grown-Grows : p.clients_count < max_clients → Grows p grown
  grown-Grows h = record {
    same_size = length-set p.slots p.clients_count new_slot;
    bounded = omega arith;
    kept = take-set_low p.slots p.clients_count new_slot;
  }

make_client_lem :
    (a : ClientAllocations) (addr : ℕ) (src_fd dst_fd : ℤ)
    → IsAllocated a
    → (c : Option Client) × (make_client a addr src_fd dst_fd ≡ some c)
unfolding make_client rb_init
make_client_lem a addr src_fd dst_fd (ptr, e) = elim (Bool-cases a.client) [
  | inr f ↦ (none, rw f)
  | inl t ↦ elim (Option-cases a.dst_src) [
    | inl n ↦ (none, rw (t, n))
    | inr (ptr2, n) ↦ rw (t, n, e) (_, refl)
  ]
]

module _ (a : ClientAllocations) (addr : ℕ) (src_fd dst_fd : ℤ) (p : Proxy) (t : IsTable p)
    (ok : IsAllocated a) (free : can_add_slot p ≡ true) where
  -- The slot may be added or not; the table stays as it is where not.
  add_client_lem :
      ((p' : Proxy) × (add_client a addr src_fd dst_fd p ≡ some (added p.clients_count, p'))
        × Grows p p')
      ⊎ (add_client a addr src_fd dst_fd p ≡ some (system_error, p))
  unfolding add_client can_add_slot
  add_client_lem =
      let below : p.clients_count < max_clients = ground (arith, free) in
      let size = t.size in
      let (s, at) = get_elem?-in p.slots p.clients_count (omega (arith, size)) in
      let (c, made) = make_client_lem a addr src_fd dst_fd ok in
      elim (Option-cases c) [
        | inl e ↦ inr (rw (free, made, e))
        | inr (c', e) ↦ inl (
          grown c' p s at,
          rw (free, made, e, add_slot_run c' p s at (omega (arith, size))),
          grown-Grows c' p s at below,
        )
      ]

-- `accept_connection` ends whatever the system answers, if the last buffer can be allocated, and adds
-- at most one slot behind those in use.
pub accept_connection_lem :
    (acc : Accepted) (calls : Calls) (p : Proxy)
    → IsTable p
    → IsAllocated calls.allocations
    → (p' : Proxy) × (closed : List ℤ) × (accept_connection acc calls p ≡ some (p', closed))
      × Grows p p'
unfolding accept_connection
accept_connection_lem accept_failed calls p t ok = (p, [], refl, stays p t)
accept_connection_lem (accepted incoming addr) calls p t ok = elim (Bool-cases (can_add_slot p)) [
  | inr full ↦ (p, incoming ∷ [], rw full, stays p t)
  | inl free ↦ elim (Option-cases calls.socket) [
    | inl e ↦ (p, incoming ∷ [], rw (free, e), stays p t)
    | inr (outcoming, e) ↦ elim (Bool-cases calls.connected) [
      | inr f ↦ (p, close_both_sockets calls outcoming incoming, rw (free, e, f), stays p t)
      | inl g ↦ elim (add_client_lem calls.allocations addr incoming outcoming p t ok free) [
        | inl (p', run, grows) ↦ (p', [], rw (free, e, g, run), grows)
        | inr run ↦
            (p, close_both_sockets calls outcoming incoming, rw (free, e, g, run), stays p t)
      ]
    ]
  ]
]
