-- ===== src/Controller/Changes.antt =====
-- `handle_state_changes` stays within its arrays, and keeps the ids in their range.
use os_tasks.Prelude.{
  get_elem?-set_ne, ℕ, zero, suc, ◌+◌, ◌≤◌, ◌<◌, ◌≡◌, inl, inr, refl, ap, ◌∙◌, Bool, true, false,
  ◌||◌, Option, none, some, List, arith, length, set, get_elem?, store-eq-set, Bool-cases,
  Option-cases,
}
use os_tasks.Prelude.Updates.{get_elem?-in}
use os_tasks.Connection.{Connection}
use os_tasks.Pump.{World, to_byte}
use os_tasks.Controller.{
  Control, State, state_ok, state_again, state_shutdown, tell, give_back, cmd_close,
  should_close_connection,
}
use os_tasks.Controller.Steady.{
  IsSteady, Keeps, Keeps-refl, Keeps-trans, PointsTo-clear, tell_lem, announce_lem, end_in_lem,
  end_out_lem, give_back_lem,
}
use os_tasks.Controller.Step.{
  announce, end_in, end_out, end_both, handle_connection, handle_loop, handle_state_changes,
}

-- The tunnel keeps its place.
abbrev pub SameTunnel : (connections connections' : List (Option ℕ)) → Type 0
SameTunnel connections connections' = get_elem? connections' 0 ≡ get_elem? connections 0

-- A step of the loop that runs.
abbrev Handles :
    List (Option ℕ) → World Control → Option (Bool × List (Option ℕ) × World Control) → Type 0
Handles connections w o =
    (go_on : Bool) × (connections' : List (Option ℕ)) × (w' : World Control) × (o
      ≡ some (go_on, connections', w'))
    × IsSteady w' connections'
    × Keeps w w'
    × SameTunnel connections connections'

module _ (connections : List (Option ℕ)) (i addr : ℕ) (low : 0 < i) (high : i < 256)
    (here : get_elem? connections i ≡ some (some addr)) where
  module _ (w w1 : World Control) (c : Connection) (at : get_elem? w.objects addr ≡ some c) where
    abbrev Told : Bool → Type 0
    Told sent =
        tell cmd_close (to_byte c.id) addr
          (λ c. record c { state = record (c.state) { cs_delete = true } }) w
        ≡ some (sent, w1)

    end_both_full : Told false → end_both i addr connections w ≡ some (false, connections, w1)
    unfolding end_both
    end_both_full run = rw (at, run)

    end_both_done :
        (w2 : World Control)
        → Told true
        → give_back c.id w1 ≡ some w2
        → i < length connections
        → end_both i addr connections w ≡ some (true, set connections i none, w2)
    unfolding end_both
    end_both_done w2 run run2 h = rw (at, run, run2, store-eq-set connections i none h)

  end_both_lem :
      (w : World Control)
      → IsSteady w connections
      → Handles connections w (end_both i addr connections w)
  end_both_lem w v =
      let points = v.points in
      let size = points.0 in
      let (c, at, id) = points.1 i addr here in
      let (sent, w1, run1, v1, k1) =
        tell_lem connections w addr c at v cmd_close (to_byte c.id)
          (λ c. record c { state = record (c.state) { cs_delete = true } }) refl in
      elim (Bool-cases sent) [
        | inr e ↦ (
          false,
          connections,
          w1,
          end_both_full w w1 c at (run1 ∙ ap (λ b. some (b, w1)) e),
          v1,
          k1,
          refl,
        )
        | inl e ↦
            let (w2, run2, v2, k2) = give_back_lem connections w1 i v1 low high in
            (
              true,
              set connections i none,
              w2,
              end_both_done w w1 c at w2 (run1 ∙ ap (λ b. some (b, w1)) e)
                  (ap (λ n. give_back n w1) id ∙ run2) (omega arith),
              record {
                queue = v2.queue;
                ids = v2.ids;
                all_ids = v2.all_ids;
                points = PointsTo-clear w2.objects i connections v2.points;
              },
              Keeps-trans w w1 w2 k1 k2,
              get_elem?-set_ne connections none (λ f. omega (arith, f)),
            )
      ]

  module _ (w w1 : World Control) where
    handle_again :
        announce addr w ≡ some (false, w1)
        → handle_connection i addr connections w ≡ some (false, connections, w1)
    unfolding handle_connection
    handle_again run = rw run

    module _ (c : Connection) (run : announce addr w ≡ some (true, w1))
        (at : get_elem? w1.objects addr ≡ some c) where
      handle_both :
          should_close_connection c ≡ true
          → handle_connection i addr connections w ≡ end_both i addr connections w1
      unfolding handle_connection
      handle_both e = rw (run, at, e)

      handle_in_again :
          (w2 : World Control)
          → should_close_connection c ≡ false
          → end_in addr w1 ≡ some (false, w2)
          → handle_connection i addr connections w ≡ some (false, connections, w2)
      unfolding handle_connection
      handle_in_again w2 e run2 = rw (run, at, e, run2)

      handle_ends :
          (w2 w3 : World Control) (sent : Bool)
          → should_close_connection c ≡ false
          → end_in addr w1 ≡ some (true, w2)
          → end_out addr w2 ≡ some (sent, w3)
          → handle_connection i addr connections w ≡ some (sent, connections, w3)
      unfolding handle_connection
      handle_ends w2 w3 sent e run2 run3 = rw (run, at, e, run2, run3)

  handle_connection_lem :
      (w : World Control)
      → IsSteady w connections
      → Handles connections w (handle_connection i addr connections w)
  handle_connection_lem w v =
      let (c0, at0, id0) = (v.points).1 i addr here in
      let (sent, w1, run1, v1, k1) = announce_lem connections w addr c0 at0 v in
      let (c, at, id) = (v1.points).1 i addr here in
      elim (Bool-cases sent) [
        | inr e ↦ (
          false,
          connections,
          w1,
          handle_again w w1 (run1 ∙ ap (λ b. some (b, w1)) e),
          v1,
          k1,
          refl,
        )
        | inl e ↦
            let told_new = run1 ∙ ap (λ b. some (b, w1)) e in
            elim (Bool-cases (should_close_connection c)) [
              | inl both ↦
                  let (go_on, cs, w2, run2, v2, k2, t2) = end_both_lem w1 v1 in
                  (
                    go_on,
                    cs,
                    w2,
                    handle_both w w1 c told_new at both ∙ run2,
                    v2,
                    Keeps-trans w w1 w2 k1 k2,
                    t2,
                  )
              | inr open_still ↦
                  let (sent2, w2, run2, v2, k2) = end_in_lem connections w1 addr c at v1 in
                  let k12 = Keeps-trans w w1 w2 k1 k2 in
                  elim (Bool-cases sent2) [
                    | inr f ↦ (
                      false,
                      connections,
                      w2,
                      handle_in_again w w1 c told_new at w2 open_still
                          (run2 ∙ ap (λ b. some (b, w2)) f),
                      v2,
                      k12,
                      refl,
                    )
                    | inl f ↦
                        let (c2, at2, id2) = (v2.points).1 i addr here in
                        let (sent3, w3, run3, v3, k3) = end_out_lem connections w2 addr c2 at2 v2 in
                        (
                          sent3,
                          connections,
                          w3,
                          handle_ends w w1 c told_new at w2 w3 sent3 open_still
                              (run2 ∙ ap (λ b. some (b, w2)) f) run3,
                          v3,
                          Keeps-trans w w2 w3 k12 k3,
                          refl,
                        )
                  ]
            ]
      ]

-- The loop that runs.
abbrev pub Loops :
    List (Option ℕ) → World Control → Option (State × List (Option ℕ) × World Control) → Type 0
Loops connections w o =
    (state : State) × (connections' : List (Option ℕ)) × (w' : World Control) × (o
      ≡ some (state, connections', w'))
    × IsSteady w' connections'
    × Keeps w w'
    × SameTunnel connections connections'

module _ (n i : ℕ) (connections : List (Option ℕ)) (w : World Control) where
  loop_free :
      get_elem? connections i ≡ some none
      → handle_loop (suc n) i connections w ≡ handle_loop n (i + 1) connections w
  unfolding handle_loop
  loop_free at = rw at

  module _ (addr : ℕ) (at : get_elem? connections i ≡ some (some addr)) (cs : List (Option ℕ))
      (w1 : World Control) where
    loop_again :
        handle_connection i addr connections w ≡ some (false, cs, w1)
        → handle_loop (suc n) i connections w ≡ some (state_again, cs, w1)
    unfolding handle_loop
    loop_again run = rw (at, run)

    loop_next :
        handle_connection i addr connections w ≡ some (true, cs, w1)
        → handle_loop (suc n) i connections w ≡ handle_loop n (i + 1) cs w1
    unfolding handle_loop
    loop_next run = rw (at, run)

handle_loop_lem :
    (n i : ℕ) (connections : List (Option ℕ)) (w : World Control)
    → 0 < i
    → i + n ≤ 256
    → IsSteady w connections
    → Loops connections w (handle_loop n i connections w)
unfolding handle_loop
handle_loop_lem zero i connections w low high v =
    (state_ok, connections, w, refl, v, Keeps-refl w, refl)
handle_loop_lem (suc n) i connections w low high v =
    let points = v.points in
    let size = points.0 in
    let (entry, at) = get_elem?-in connections i (omega arith) in
    elim (Option-cases entry) [
      | inl e ↦
          let (st, cs, w', run, v', k, t) =
            handle_loop_lem n (i + 1) connections w (omega arith) (omega arith) v in
          (st, cs, w', loop_free n i connections w (at ∙ ap some e) ∙ run, v', k, t)
      | inr (addr, e) ↦
          let here = at ∙ ap some e in
          let (go_on, cs, w1, run, v1, k1, t1) =
            handle_connection_lem connections i addr low (omega arith) here w v in
          elim (Bool-cases go_on) [
            | inr f ↦ (
              state_again,
              cs,
              w1,
              loop_again n i connections w addr here cs w1 (run ∙ ap (λ b. some (b, cs, w1)) f),
              v1,
              k1,
              t1,
            )
            | inl f ↦
                let (st, cs', w2, run2, v2, k2, t2) =
                  handle_loop_lem n (i + 1) cs w1 (omega arith) (omega arith) v1 in
                (
                  st,
                  cs',
                  w2,
                  loop_next n i connections w addr here cs w1 (run ∙ ap (λ b. some (b, cs, w1)) f)
                      ∙ run2,
                  v2,
                  Keeps-trans w w1 w2 k1 k2,
                  t2 ∙ t1,
                )
          ]
    ]

module _ (connections : List (Option ℕ)) (w : World Control) (tunnel : ℕ) (c : Connection)
    (here : get_elem? connections 0 ≡ some (some tunnel))
    (at : get_elem? w.objects tunnel ≡ some c) where
  abbrev tunnel_closed : Bool
  tunnel_closed = c.state.cs_closed || c.in_state.cs_closed || c.out_state.cs_closed

  changes_shutdown :
      tunnel_closed ≡ true
      → handle_state_changes connections w ≡ some (state_shutdown, connections, w)
  unfolding handle_state_changes
  changes_shutdown e = rw (here, at, e)

  changes_loop :
      tunnel_closed ≡ false → handle_state_changes connections w ≡ handle_loop 255 1 connections w
  unfolding handle_state_changes
  changes_loop e = rw (here, at, e)

-- Where the tunnel has its place in the array, the queue of commands is valid, the free ids are at most
-- 255 numbers from 1 to 255, the connections' ids are below 256 or negative, and the array of 256
-- entries holds at an index only a connection with that id, `handle_state_changes` ends, on every
-- branch, within its arrays and without a null pointer, and all this still holds, for the array as
-- it leaves it; no connection is added or removed, the table of the manager stays, and the tunnel keeps its
-- place.
pub handle_state_changes_lem :
    (connections : List (Option ℕ)) (w : World Control) (tunnel : ℕ)
    → get_elem? connections 0 ≡ some (some tunnel)
    → IsSteady w connections
    → Loops connections w (handle_state_changes connections w)
handle_state_changes_lem connections w tunnel here v =
    let (c, at, id) = (v.points).1 0 tunnel here in
    elim (Bool-cases (c.state.cs_closed || c.in_state.cs_closed || c.out_state.cs_closed)) [
      | inl e ↦ (
        state_shutdown,
        connections,
        w,
        changes_shutdown connections w tunnel c here at e,
        v,
        Keeps-refl w,
        refl,
      )
      | inr e ↦
          let (st, cs, w', run, v', k, t) =
            handle_loop_lem 255 1 connections w (omega arith) (omega arith) v in
          (st, cs, w', changes_loop connections w tunnel c here at e ∙ run, v', k, t)
    ]
