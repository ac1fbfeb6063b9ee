-- ===== src/Proxy/Serving.antt =====
-- The inner loop of a round uses no null pointer.
use os_tasks.Prelude.{
  ℕ, ◌+◌, ◌<◌, ◌≡◌, inl, inr, refl, ap, ◌∙◌, Bool, true, false, not, ◌&&◌, Option, none, some, List,
  [], ◌∷◌, ◌++◌, arith, length, map, drop, set, get_elem?, get_elem?-set_self, store-eq-set,
  length-set, Bool-cases, Option-cases, ℤ,
}
use os_tasks.Prelude.Updates.{get_elem?-drop, drop_next, drop-set, drop_in}
use os_tasks.RoundBuffer.{Received, Sent}
use os_tasks.Proxy.{Client, ClientSlot, is_used, clear_slot, disconnect_client}
use os_tasks.Proxy.Directions.{Transfer}
use os_tasks.Proxy.Table.{AllUsed}
use os_tasks.Proxy.Loop.{Call, closes, shutdowns, run_direction, serve_client, serve_clients}

-- What a call that serves the slots below `i` may do to the others: nothing.
abbrev Beyond : (i : ℕ) (slots slots' : List ClientSlot) → Type 0
Beyond i slots slots' = (length slots' ≡ length slots) × (drop i slots' ≡ drop i slots)

module _ (i : ℕ) (slots : List ClientSlot) (s : ClientSlot) (c : Client)
    (at : get_elem? slots i ≡ some s) (has : s.client ≡ some c) (inside : i < length slots) where
  pub disconnect_client_lem :
      disconnect_client i slots
      ≡ some (set slots i (record s { client = none }), c.src_fd ∷ c.dst_fd ∷ [])
  unfolding disconnect_client clear_slot
  disconnect_client_lem = rw (at, has, store-eq-set slots i (record s { client = none }) inside)

pub is_used-some : (s : ClientSlot) → is_used s ≡ true → (c : Client) × (s.client ≡ some c)
is_used-some s e = elim (Option-cases s.client) [
  | inl f ↦
      absurd
        (ground (arith, ap (λ (o : Option Client). elim o [ none ↦ false | some c ↦ true ]) f, e))
  | inr h ↦ h
]

module _ (readv : ℤ → ℕ → Received) (writev : ℤ → List ℕ → Sent) (i : ℕ) (slots : List ClientSlot)
    (s : ClientSlot) (c : Client) (at : get_elem? slots i ≡ some s) (has : s.client ≡ some c)
    (inside : i < length slots) where
  abbrev there : Transfer × Bool
  there = run_direction readv writev c.src_dst_active s.src s.dst c.src_dst_buf

  abbrev back : Transfer × Bool
  back = run_direction readv writev c.dst_src_active there.0.out_fd there.0.in_fd c.dst_src_buf

  abbrev served : ClientSlot
  served = record {
    client = some (record c {
      src_dst_active = there.1;
      src_dst_buf = there.0.buf;
      dst_src_active = back.1;
      dst_src_buf = back.0.buf;
    });
    src = back.0.out_fd;
    dst = back.0.in_fd;
  }

  serve_client_stays :
      (not there.1 && not back.1) ≡ false
      → serve_client readv writev i slots
        ≡ some (set slots i served, shutdowns there.0 ++ shutdowns back.0)
  unfolding serve_client
  serve_client_stays e = rw (at, has, store-eq-set slots i served inside, e)

  serve_client_leaves :
      (not there.1 && not back.1) ≡ true
      → (slots' : List ClientSlot) (closed : List ℤ)
      → disconnect_client i (set slots i served) ≡ some (slots', closed)
      → serve_client readv writev i slots
        ≡ some (slots', (shutdowns there.0 ++ shutdowns back.0) ++ map closes closed)
  unfolding serve_client
  serve_client_leaves e slots' closed run = rw (at, has, store-eq-set slots i served inside, e, run)

  serve_client_lem :
      (slots' : List ClientSlot) × (calls : List Call) × (serve_client readv writev i slots
        ≡ some (slots', calls))
      × Beyond (i + 1) slots slots'
  serve_client_lem =
      let low : i < i + 1 = omega arith in
      let beyond = drop-set slots i (i + 1) served low in
      elim (Bool-cases (not there.1 && not back.1)) [
        | inr e ↦ (
          set slots i served,
          shutdowns there.0 ++ shutdowns back.0,
          serve_client_stays e,
          (length-set slots i served, beyond),
        )
        | inl e ↦
            let slots1 = set slots i served in
            let gone : ClientSlot = record served { client = none } in
            let run =
              disconnect_client_lem i slots1 served _ (get_elem?-set_self slots i served inside)
                refl (omega (arith, length-set slots i served)) in
            (
              set slots1 i gone,
              _,
              serve_client_leaves e (set slots1 i gone) _ run,
              (
                length-set slots1 i gone ∙ length-set slots i served,
                drop-set slots1 i (i + 1) gone low ∙ beyond,
              ),
            )
      ]

pub serve_clients_lem :
    (readv : ℤ → ℕ → Received) (writev : ℤ → List ℕ → Sent) (todo rest : List ClientSlot) (i : ℕ)
    (slots : List ClientSlot)
    → drop i slots ≡ todo ++ rest
    → AllUsed todo
    → (slots' : List ClientSlot) × (calls : List Call) × (serve_clients readv writev
          (length todo)
          i
          slots
        ≡ some (slots', calls))
      × (length slots' ≡ length slots)
unfolding serve_clients
serve_clients_lem readv writev [] rest i slots e all = (slots, [], refl, refl)
serve_clients_lem readv writev (s ∷ todo) rest i slots e (u, all) =
    let (c, has) = is_used-some s u in
    let at = get_elem?-drop slots i s (todo ++ rest) e in
    let (slots1, calls, run, (same, beyond)) =
      serve_client_lem readv writev i slots s c at has (drop_in slots i s (todo ++ rest) e) in
    let (slots2, more, run2, same2) =
      serve_clients_lem readv writev todo rest (i + 1) slots1
        (beyond ∙ drop_next slots i s (todo ++ rest) e) all in
    (slots2, calls ++ more, rw (run, run2), same2 ∙ same)
