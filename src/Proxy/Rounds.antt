-- ===== src/Proxy/Rounds.antt =====
-- A round of the loop of `main` uses no null pointer, and keeps the table.
use os_tasks.Prelude.{
  ℕ, zero, suc, ◌≡◌, inl, inr, refl, sym, ap, ◌∙◌, Bool, true, false, some, List, [], ◌∷◌, ◌++◌,
  arith, if◌then◌else◌, length, map, take, drop, length-take, take-append-drop, Bool-cases, ℤ,
}
use mathlib.Core.Path.{subst}
use os_tasks.RoundBuffer.{Received, Sent}
use os_tasks.Connection.{Events, PollFd}
use os_tasks.Proxy.{max_clients, ClientSlot, Proxy, is_used, shrink_slots, accept_connection}
use os_tasks.Proxy.Slots.{used, shrink_slots_lem}
use os_tasks.Proxy.Table.{AllUsed, IsTable, IsAllocated, Grows, stays, accept_connection_lem}
use os_tasks.Proxy.Loop.{Call, closes, serve_clients, ProxyRound, with_revents, proxy_round}
use os_tasks.Proxy.Serving.{serve_clients_lem}

used-AllUsed : (slots : List ClientSlot) → AllUsed (used slots)
unfolding used
used-AllUsed [] = tt
used-AllUsed (s ∷ slots) = elim (Bool-cases (is_used s)) [
  | inl e ↦ rw e (e, used-AllUsed slots)
  | inr e ↦ rw e (used-AllUsed slots)
]

-- The new `revents` change no client.
length-with_revents :
    (events : List (Events × Events)) (slots : List ClientSlot)
    → length (with_revents events slots) ≡ length slots
length-with_revents [] slots = refl
length-with_revents (e ∷ events) [] = refl
length-with_revents (e ∷ events) (s ∷ slots) = ap suc (length-with_revents events slots)

take-with_revents :
    (n : ℕ) (events : List (Events × Events)) (slots : List ClientSlot)
    → AllUsed (take n slots)
    → AllUsed (take n (with_revents events slots))
take-with_revents n [] slots all = all
take-with_revents zero (e ∷ events) slots all = tt
take-with_revents (suc n) (e ∷ events) [] all = tt
take-with_revents (suc n) (e ∷ events) (s ∷ slots) (u, all) =
    (u, take-with_revents n events slots all)

with_revents-IsTable :
    (events : List (Events × Events)) (listener : PollFd) (p : Proxy)
    → IsTable p
    → IsTable (record p { listener = listener; slots = with_revents events p.slots })
with_revents-IsTable events listener p t = record {
  size = length-with_revents events p.slots ∙ t.size;
  bound = t.bound;
  all_used = take-with_revents p.clients_count events p.slots t.all_used;
}

-- What follows the call of `accept_connection` in a round.
module _ (readv : ℤ → ℕ → Received) (writev : ℤ → List ℕ → Sent) (p p' : Proxy) (t : IsTable p)
    (g : Grows p p') where
  serve_grown :
      (slots' : List ClientSlot) × (calls : List Call) × (serve_clients readv writev p.clients_count
          0 p'.slots
        ≡ some (slots', calls))
      × (length slots' ≡ max_clients)
  serve_grown =
      let n = p.clients_count in
      let size = t.size in
      let bound = t.bound in
      let same_size = g.same_size in
      let (slots', calls, run, same) =
        serve_clients_lem readv writev (take n p'.slots) (drop n p'.slots) 0 p'.slots
          (sym (take-append-drop n p'.slots)) (subst AllUsed (sym g.kept) t.all_used) in
      (
        slots',
        calls,
        ap (λ k. serve_clients readv writev k 0 p'.slots)
              (let e : n ≡ length (take n p'.slots) = omega (arith, length-take n p'.slots) in e)
            ∙ run,
        same ∙ same_size ∙ size,
      )

  shrink_grown :
      (slots : List ClientSlot)
      → length slots ≡ max_clients
      → (p'' : Proxy) × (shrink_slots (record p' { slots = slots }) ≡ some p'') × IsTable p''
  shrink_grown slots size =
      let bounded = g.bounded in
      let (p'', run, kept, same, less, l) =
        shrink_slots_lem (record p' { slots = slots }) (omega arith) in
      (
        p'',
        run,
        record {
          size = same ∙ size;
          bound = omega arith;
          all_used = subst AllUsed (sym kept) (used-AllUsed (take p'.clients_count slots));
        },
      )

accept_if :
    (r : ProxyRound) (ready : Bool) (p : Proxy)
    → IsTable p
    → IsAllocated r.calls.allocations
    → (p' : Proxy) × (closed : List ℤ) × ((if ready
          then accept_connection r.accepted r.calls p
          else some (p, []))
        ≡ some (p', closed))
      × Grows p p'
accept_if r true p t ok = accept_connection_lem r.accepted r.calls p t ok
accept_if r false p t ok = (p, [], refl, stays p t)

-- If the buffer that `make_client` makes last can be allocated, the body of the loop after `poll` ends,
-- whatever the system answers: no index is outside of the arrays and no client is null; and it keeps
-- the invariant that the arrays have their size, `clients_count` is at most MAX_CLIENTS and each
-- slot below it has a client.
pub proxy_round_lem :
    (r : ProxyRound) (listener : Events) (events : List (Events × Events)) (p : Proxy)
    → IsTable p
    → IsAllocated r.calls.allocations
    → (p' : Proxy) × (calls : List Call) × (proxy_round r listener events p ≡ some (p', calls))
      × IsTable p'
unfolding proxy_round
proxy_round_lem r listener events p t ok =
    let p0 = record p {
      listener = record (p.listener) { revents = listener };
      slots = with_revents events p.slots;
    } in
    let t0 = with_revents-IsTable events (record (p.listener) { revents = listener }) p t in
    let (p1, closed, run1, g) = accept_if r listener.pollin p0 t0 ok in
    let (slots2, calls, run2, size2) = serve_grown r.readv r.writev p0 p1 t0 g in
    let (p3, run3, t3) = shrink_grown r.readv r.writev p0 p1 t0 g slots2 size2 in
    (p3, map closes closed ++ calls, rw (run1, run2, run3), t3)
