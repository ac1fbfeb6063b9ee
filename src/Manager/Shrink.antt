-- ===== src/Manager/Shrink.antt =====
-- `shrink` keeps the connections that are not deleted, in their order.
use os_tasks.Prelude.{
  ℕ, suc, ◌+◌, ◌≤◌, ◌<◌, ◌≡◌, refl, sym, ap, ◌∙◌, Bool, true, false, not, Option, none, some, ◌>>=◌,
  List, [], ◌∷◌, ◌++◌, arith, ◌==◌, if◌then◌else◌, length, take, drop, set, get_elem?, store,
  store-eq-set, length-set, append_assoc, append-nil, Bool-cases, inl, inr, length-take,
  take-append-drop,
}
use mathlib.Core.Path.{subst}
use native.Mathlib.Decide.{ℕ_discrete}
use os_tasks.Connection.{Connection, should_delete}
use os_tasks.Prelude.Updates.{get_elem?-drop, drop_next, set_same, drop-set, take-set, drop_in}
use os_tasks.Manager.{Slot, Manager, Table, load_slot, shrink_loop, shrink}

abbrev pub keeps : Option Connection → Bool
keeps none = true
keeps (some c) = not (should_delete c.state)

-- Whether the connection of a slot stays.
abbrev pub stays : List Connection → Slot → Bool
stays objects s = keeps (s.conn >>= λ a. get_elem? objects a)

-- The slots whose connections stay, in their order.
unfoldable pub staying : List Connection → List Slot → List Slot
staying objects [] = []
staying objects (s ∷ slots) =
    let rest = staying objects slots in if stays objects s then s ∷ rest else rest

-- Every slot has a connection.
abbrev pub IsLive : List Connection → List Slot → Type 0
IsLive objects [] = Unit
IsLive objects (s ∷ slots) =
    ((a : ℕ) × (c : Connection) × (s.conn ≡ some a) × (get_elem? objects a ≡ some c))
    × IsLive objects slots

-- What the loop of `shrink` has made of the slots `todo` from `i` on.
pub record Shrunk (objects : List Connection) (i : ℕ) (todo : List Slot) (m m' : Manager)
    : Type 0 where
  pub kept : take m'.connections_count m'.slots ≡ take i m.slots ++ staying objects todo
  pub counted : m'.connections_count ≡ i + length (staying objects todo)
  pub same_length : length m'.slots ≡ length m.slots
  pub same_pipe : (m'.pipe ≡ m.pipe) × (m'.acceptor ≡ m.acceptor) × (m'.pipe_in ≡ m.pipe_in)

staying_next :
    (objects : List Connection) (s : Slot) (todo : List Slot) (a : ℕ) (c : Connection)
    → s.conn ≡ some a
    → get_elem? objects a ≡ some c
    → staying objects (s ∷ todo)
      ≡ (if not (should_delete c.state) then s ∷ staying objects todo else staying objects todo)
unfolding staying
staying_next objects s todo a c e f =
    ap (λ b. if b then s ∷ staying objects todo else staying objects todo)
      (ap (λ o. keeps (o >>= λ a. get_elem? objects a)) e ∙ ap keeps f)

module _ (n j i : ℕ) (objects : List Connection) (m : Manager) (s : Slot) (a : ℕ) (c : Connection)
    (at : get_elem? m.slots j ≡ some s) (at_a : s.conn ≡ some a)
    (at_c : get_elem? objects a ≡ some c) where
  load_slot_lem : load_slot j objects m ≡ some (s, should_delete c.state)
  unfolding load_slot
  load_slot_lem =
      ap
        (λ o.
          o >>= λ s. s.conn >>= λ a. get_elem? objects a >>= λ c. some (s, should_delete c.state))
        at
      ∙ ap (λ o. o >>= λ a. get_elem? objects a >>= λ c. some (s, should_delete c.state)) at_a
      ∙ ap (λ o. o >>= λ c. some (s, should_delete c.state)) at_c

  loop_delete :
      should_delete c.state ≡ true
      → shrink_loop (suc n) j i objects m ≡ shrink_loop n (j + 1) i objects m
  unfolding shrink_loop
  loop_delete e = rw (load_slot_lem ∙ ap (λ b. some (s, b)) e)

  same_place :
      i ≤ j
      → i < length m.slots
      → (if i == j then some m.slots else store m.slots i s) ≡ some (set m.slots i s)
  same_place h l = elim (ℕ_discrete i j) [
    | yes e ↦
        ground
          (arith, set_same m.slots i s (subst (λ k. get_elem? m.slots k ≡ some s) (sym e) at), e)
    | no e ↦ ground (arith, store-eq-set m.slots i s l, e)
  ]

  loop_keep :
      should_delete c.state ≡ false
      → i ≤ j
      → i < length m.slots
      → shrink_loop (suc n) j i objects m
        ≡ shrink_loop n (j + 1) (i + 1) objects (record m { slots = set m.slots i s })
  unfolding shrink_loop
  loop_keep e h l = rw (load_slot_lem ∙ ap (λ b. some (s, b)) e, same_place h l)

staying_deleted :
    (objects : List Connection) (s : Slot) (todo : List Slot) (a : ℕ) (c : Connection)
    → s.conn ≡ some a
    → get_elem? objects a ≡ some c
    → should_delete c.state ≡ true
    → staying objects (s ∷ todo) ≡ staying objects todo
staying_deleted objects s todo a c e f g =
    staying_next objects s todo a c e f
    ∙ ap (λ b. if not b then s ∷ staying objects todo else staying objects todo) g

staying_kept :
    (objects : List Connection) (s : Slot) (todo : List Slot) (a : ℕ) (c : Connection)
    → s.conn ≡ some a
    → get_elem? objects a ≡ some c
    → should_delete c.state ≡ false
    → staying objects (s ∷ todo) ≡ s ∷ staying objects todo
staying_kept objects s todo a c e f g =
    staying_next objects s todo a c e f
    ∙ ap (λ b. if not b then s ∷ staying objects todo else staying objects todo) g

shrink_loop_lem :
    (todo rest : List Slot) (j i : ℕ) (objects : List Connection) (m : Manager)
    → drop j m.slots ≡ todo ++ rest
    → i ≤ j
    → IsLive objects todo
    → (m' : Manager) × (shrink_loop (length todo) j i objects m ≡ some m')
      × Shrunk objects i todo m m'
unfolding shrink_loop staying
shrink_loop_lem [] rest j i objects m e h live = (
  record m { connections_count = i },
  refl,
  record {
    kept = sym (append-nil (take i m.slots));
    counted = omega arith;
    same_length = refl;
    same_pipe = (refl, refl, refl);
  },
)
shrink_loop_lem (s ∷ todo) rest j i objects m e h ((a, c, at_a, at_c), live) =
    let at = get_elem?-drop m.slots j s (todo ++ rest) e in
    let next = drop_next m.slots j s (todo ++ rest) e in
    elim (Bool-cases (should_delete c.state)) [
      | inl yes_deleted ↦
          let (m', run, r) =
            shrink_loop_lem todo rest (j + 1) i objects m next (omega arith) live in
          let f = staying_deleted objects s todo a c at_a at_c yes_deleted in
          (
            m',
            loop_delete (length todo) j i objects m s a c at at_a at_c yes_deleted ∙ run,
            record {
              kept = r.kept ∙ ap (λ l. take i m.slots ++ l) (sym f);
              counted = r.counted ∙ ap (λ (l : List Slot). i + length l) (sym f);
              same_length = r.same_length;
              same_pipe = r.same_pipe;
            },
          )
      | inr not_deleted ↦
          let in_range = drop_in m.slots j s (todo ++ rest) e in
          let (m', run, r) =
            shrink_loop_lem todo rest (j + 1) (i + 1) objects (record m { slots = set m.slots i s })
              (drop-set m.slots i (j + 1) s (omega arith) ∙ next) (omega arith) live in
          let f = staying_kept objects s todo a c at_a at_c not_deleted in
          (
            m',
            loop_keep (length todo) j i objects m s a c at at_a at_c not_deleted h (omega arith)
                ∙ run,
            record {
              kept =
                  r.kept
                  ∙ ap (λ l. l ++ staying objects todo)
                      (ap (λ k. take k (set m.slots i s)) (let g : i + 1 ≡ suc i = omega arith in g)
                        ∙ take-set m.slots i s (omega arith))
                  ∙ append_assoc (take i m.slots) (s ∷ []) (staying objects todo)
                  ∙ ap (λ l. take i m.slots ++ l) (sym f);
              counted =
                  r.counted
                  ∙ (let g : i + 1 + length (staying objects todo)
                          ≡ i + length (s ∷ staying objects todo) =
                        omega arith in
                      g)
                  ∙ ap (λ (l : List Slot). i + length l) (sym f);
              same_length = r.same_length ∙ length-set m.slots i s;
              same_pipe = r.same_pipe;
            },
          )
    ]

-- If every slot in use has a connection, `shrink` ends with the slots in use being those of the
-- connections that are not both deleted and closed, in their old order, and counted; the
-- descriptors of the manager stay.
pub shrink_lem :
    (t : Table)
    → t.manager.connections_count ≤ length t.manager.slots
    → IsLive t.objects (take t.manager.connections_count t.manager.slots)
    → (t' : Table) × (shrink t ≡ some t')
      × (t'.objects ≡ t.objects)
      × Shrunk t.objects 0 (take t.manager.connections_count t.manager.slots) t.manager t'.manager
unfolding shrink
shrink_lem t h live =
    let n = t.manager.connections_count in
    let (m, run, r) =
      shrink_loop_lem (take n t.manager.slots) (drop n t.manager.slots) 0 0 t.objects t.manager
        (sym (take-append-drop n t.manager.slots)) (omega arith) live in
    (
      record t { manager = m },
      ap (λ o. o >>= λ m. some (record t { manager = m }))
          (ap (λ k. shrink_loop k 0 0 t.objects t.manager)
              (let g : n ≡ length (take n t.manager.slots) =
                  omega (arith, length-take n t.manager.slots) in
                g)
            ∙ run),
      refl,
      r,
    )
