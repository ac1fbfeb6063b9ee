-- ===== src/Proxy/Run.antt =====
-- The whole run of the proxy.
use os_tasks.Prelude.{
  ℕ, suc, ◌+◌, ◌<◌, ◌≡◌, ◌⊎◌, inl, inr, refl, sym, ap, ◌∙◌, Bool, true, false, Option, none, some,
  ◌>>=◌, List, [], ◌∷◌, ◌++◌, arith, length, map, take, drop, set, length-take, take-append-drop,
  append_assoc, ℤ, if◌then◌else◌,
}
use os_tasks.Prelude.Updates.{get_elem?-drop, drop_next, drop-set, drop_in, take-set}
use os_tasks.Connection.{Events}
use os_tasks.Proxy.{Client, ClientSlot, Proxy, disconnect_client}
use os_tasks.Proxy.Table.{AllUsed, IsTable, IsAllocated}
use os_tasks.Proxy.Serving.{is_used-some, disconnect_client_lem}
use os_tasks.Proxy.Rounds.{proxy_round_lem}
use os_tasks.Proxy.Loop.{
  Call, closes, ProxyRound, Polled, polled, poll_failed, prepare_listener, proxy_round, proxy_loop,
  disconnect_all, parse_args, start_listening_socket, prepare_poll_structures, proxy_main,
}

abbrev pub AllAllocated : List ProxyRound → Type 0
AllAllocated [] = Unit
AllAllocated (r ∷ rounds) = IsAllocated r.calls.allocations × AllAllocated rounds

prepare_listener-IsTable : (p : Proxy) → IsTable p → IsTable (prepare_listener p)
prepare_listener-IsTable p t = record { size = t.size; bound = t.bound; all_used = t.all_used }

polled_cases :
    (o : Polled)
    → ((listener : Events) × (events : List (Events × Events)) × (o ≡ polled listener events))
      ⊎ ((again : Bool) × (o ≡ poll_failed again))
polled_cases (polled listener events) = inl (listener, events, refl)
polled_cases (poll_failed again) = inr (again, refl)

abbrev Loops : List ProxyRound → Proxy → Type 0
Loops rounds p =
    (p' : Proxy) × (calls : List Call) × (proxy_loop rounds p ≡ some (p', calls)) × IsTable p'

loop_next :
    (r : ProxyRound) (rounds : List ProxyRound) (p p1 p2 : Proxy) (listener : Events)
    (events : List (Events × Events)) (calls more : List Call)
    → r.polled ≡ polled listener events
    → proxy_round r listener events (prepare_listener p) ≡ some (p1, calls)
    → proxy_loop rounds p1 ≡ some (p2, more)
    → proxy_loop (r ∷ rounds) p ≡ some (p2, calls ++ more)
unfolding proxy_loop
loop_next r rounds p p1 p2 listener events calls more e run run2 =
    ap
      (λ o. elim o [
        | poll_failed again ↦
            if again then proxy_loop rounds (prepare_listener p) else some (prepare_listener p, [])
        | polled listener events ↦
            proxy_round r listener events (prepare_listener p) >>= λ (p, calls).
            proxy_loop rounds p >>= λ (p, more). some (p, calls ++ more)
      ])
      e
    ∙ rw (run, run2)

proxy_loop_lem :
    (rounds : List ProxyRound) (p : Proxy) → IsTable p → AllAllocated rounds → Loops rounds p
unfolding proxy_loop
proxy_loop_lem [] p t ok = (p, [], refl, t)
proxy_loop_lem (r ∷ rounds) p t (ok, oks) =
    let t0 = prepare_listener-IsTable p t in
    elim (polled_cases r.polled) [
      | inl (listener, events, e) ↦
          let (p1, calls, run, t1) = proxy_round_lem r listener events (prepare_listener p) t0 ok in
          let (p2, more, run2, t2) = proxy_loop_lem rounds p1 t1 oks in
          (p2, calls ++ more, loop_next r rounds p p1 p2 listener events calls more e run run2, t2)
      | inr (true, e) ↦
          let (p2, calls, run, t2) = proxy_loop_lem rounds (prepare_listener p) t0 oks in
          (p2, calls, rw e run, t2)
      | inr (false, e) ↦ (prepare_listener p, [], rw e, t0)
    ]

disconnect_next :
    (n i : ℕ) (slots slots1 slots2 : List ClientSlot) (closed : List ℤ) (more : List Call)
    → disconnect_client i slots ≡ some (slots1, closed)
    → disconnect_all n (i + 1) slots1 ≡ some (slots2, more)
    → disconnect_all (suc n) i slots ≡ some (slots2, map closes closed ++ more)
unfolding disconnect_all
disconnect_next n i slots slots1 slots2 closed more run run2 = rw (run, run2)

-- Both sockets of every client, in the order of the slots.
abbrev pub sockets_of : List ClientSlot → List Call
sockets_of [] = []
sockets_of (s ∷ slots) = elim s.client [
  | none ↦ sockets_of slots
  | some c ↦ closes c.src_fd ∷ closes c.dst_fd ∷ sockets_of slots
]

-- The slots without their clients.
abbrev pub emptied : List ClientSlot → List ClientSlot
emptied [] = []
emptied (s ∷ slots) = record s { client = none } ∷ emptied slots

sockets_of_next :
    (s : ClientSlot) (c : Client) (slots : List ClientSlot)
    → s.client ≡ some c
    → sockets_of (s ∷ slots) ≡ closes c.src_fd ∷ closes c.dst_fd ∷ sockets_of slots
sockets_of_next s c slots has =
    ap
      (λ (o : Option Client). elim o [
        | none ↦ sockets_of slots
        | some c ↦ closes c.src_fd ∷ closes c.dst_fd ∷ sockets_of slots
      ])
      has

disconnect_all_lem :
    (todo rest : List ClientSlot) (i : ℕ) (slots : List ClientSlot)
    → drop i slots ≡ todo ++ rest
    → AllUsed todo
    → disconnect_all (length todo) i slots
      ≡ some (take i slots ++ (emptied todo ++ rest), sockets_of todo)
unfolding disconnect_all
disconnect_all_lem [] rest i slots e all =
    ap (λ l. some (l, [])) (sym (ap (λ l. take i slots ++ l) (sym e) ∙ take-append-drop i slots))
disconnect_all_lem (s ∷ todo) rest i slots e (u, all) =
    let (c, has) = is_used-some s u in
    let run =
      disconnect_client_lem i slots s c (get_elem?-drop slots i s (todo ++ rest) e) has
        (drop_in slots i s (todo ++ rest) e) in
    let gone : ClientSlot = record s { client = none } in
    let low : i < i + 1 = omega arith in
    let next =
      disconnect_all_lem todo rest (i + 1) (set slots i gone)
        (drop-set slots i (i + 1) gone low ∙ drop_next slots i s (todo ++ rest) e) all in
    let after = emptied todo ++ rest in
    let calls = closes c.src_fd ∷ closes c.dst_fd ∷ sockets_of todo in
    let step : i + 1 ≡ suc i = omega arith in
    let kept : take (i + 1) (set slots i gone) ++ after ≡ take i slots ++ (gone ∷ after) =
      ap (λ k. take k (set slots i gone) ++ after) step
      ∙ ap (λ l. l ++ after) (take-set slots i gone (drop_in slots i s (todo ++ rest) e))
      ∙ append_assoc (take i slots) (gone ∷ []) after in
    disconnect_next (length todo) i slots (set slots i gone)
      (take (i + 1) (set slots i gone) ++ after) (c.src_fd ∷ c.dst_fd ∷ []) (sockets_of todo) run
      next
    ∙ ap (λ l. some (l, calls)) kept
    ∙ ap (λ l. some (take i slots ++ (gone ∷ after), l)) (sym (sockets_of_next s c todo has))

start-IsTable : (fd : ℤ) → IsTable (prepare_poll_structures fd)
unfolding prepare_poll_structures
start-IsTable fd = record { size = refl; bound = omega arith; all_used = tt }

-- Closes both sockets of every client of the table, in order, and clears their slots.
abbrev pub DisconnectsAll : Proxy → Type 0
DisconnectsAll p =
    disconnect_all p.clients_count 0 p.slots
    ≡ some (
      emptied (take p.clients_count p.slots) ++ drop p.clients_count p.slots,
      sockets_of (take p.clients_count p.slots),
    )

disconnects : (p : Proxy) → IsTable p → DisconnectsAll p
disconnects p t =
    let n = p.clients_count in
    let size = t.size in
    let bound = t.bound in
    let e : n ≡ length (take n p.slots) = omega (arith, length-take n p.slots) in
    ap (λ k. disconnect_all k 0 p.slots) e
    ∙ disconnect_all_lem (take n p.slots) (drop n p.slots) 0 p.slots
        (sym (take-append-drop n p.slots)) t.all_used

module _ (strtol : List ℕ → ℤ) (is_address : List ℕ → Bool) (argv : List (List ℕ)) (ports : ℕ × ℕ)
    (fd : ℤ) (rounds : List ProxyRound) (e : parse_args strtol is_address argv ≡ some ports) where
  main_runs :
      (p : Proxy) (slots : List ClientSlot) (calls closed : List Call)
      → proxy_loop rounds (prepare_poll_structures fd) ≡ some (p, calls)
      → disconnect_all p.clients_count 0 p.slots ≡ some (slots, closed)
      → proxy_main strtol is_address argv (some fd) true true rounds
        ≡ some (0, calls ++ (closed ++ (closes fd ∷ [])))
  unfolding proxy_main start_listening_socket
  main_runs p slots calls closed run run2 = rw (proxy_main, e, run, run2)

-- If the arguments are right, the socket listens, and the buffer that `make_client` makes last can be
-- allocated in every round, the program ends with code 0 when the signal arrives after any rounds,
-- whatever `poll`, `accept`, `read` and `write` give: it uses no index outside of the arrays and no
-- null pointer. After the rounds' calls it closes both sockets of each client that the table still
-- holds, in the order of the slots, clears those slots and leaves the others as they are, and closes
-- the listening socket last; every slot that the table counts holds a client then.
pub proxy_main_lem :
    (strtol : List ℕ → ℤ) (is_address : List ℕ → Bool) (argv : List (List ℕ)) (ports : ℕ × ℕ)
    (fd : ℤ) (rounds : List ProxyRound)
    → parse_args strtol is_address argv ≡ some ports
    → AllAllocated rounds
    → (p : Proxy) × (calls : List Call) × (proxy_loop rounds (prepare_poll_structures fd)
        ≡ some (p, calls))
      × IsTable p
      × DisconnectsAll p
      × (proxy_main strtol is_address argv (some fd) true true rounds
          ≡ some (0, calls ++ (sockets_of (take p.clients_count p.slots) ++ (closes fd ∷ []))))
proxy_main_lem strtol is_address argv ports fd rounds e ok =
    let (p, calls, run, t) =
      proxy_loop_lem rounds (prepare_poll_structures fd) (start-IsTable fd) ok in
    let gone = disconnects p t in
    let n = p.clients_count in
    (
      p,
      calls,
      run,
      t,
      gone,
      main_runs strtol is_address argv ports fd rounds e p
          (emptied (take n p.slots) ++ drop n p.slots) calls (sockets_of (take n p.slots)) run gone,
    )
