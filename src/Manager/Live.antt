-- ===== src/Manager/Live.antt =====
-- The slots in use have connections: the loops over them run to their end and keep that so.
use os_tasks.Prelude.{
  ℕ, zero, suc, ℤ, map, none, ◌+◌, ◌≤◌, ◌<◌, ◌≡◌, refl, sym, ap, ◌∙◌, Option, some, ◌>>=◌, List, [],
  ◌∷◌, ◌++◌, arith, length, set, get_elem?, get_elem?-set_self, get_elem?-set_ne, store-eq-set,
  length-set,
}
use mathlib.Core.Path.{subst}
use native.Mathlib.Decide.{ℕ_discrete}
use os_tasks.Prelude.Updates.{get_elem?-in, get_elem?-below}
use os_tasks.Connection.{Connection, PollFd}
use os_tasks.Manager.{max_connections, Slot, Table, Call, at_slot, each_slot}

-- Slot j has one of `n` connections.
abbrev pub LiveAt : (n : ℕ) → List Slot → (j : ℕ) → Type 0
LiveAt n slots j = (s : Slot) × (a : ℕ) × (get_elem? slots j ≡ some s) × (s.conn ≡ some a) × (a < n)

-- The slots below `k` are live.
abbrev pub LiveTo : (n k : ℕ) → List Slot → Type 0
LiveTo n k slots = (j : ℕ) → j < k → LiveAt n slots j

-- The storage has its size, and the slots in use have connections.
pub record IsTable (t : Table) : Type 0 where
  pub size : length t.manager.slots ≡ max_connections
  pub bound : t.manager.connections_count ≤ max_connections
  pub live : LiveTo (length t.objects) t.manager.connections_count t.manager.slots

-- The connections' ids.
abbrev pub ids : List Connection → List ℤ
ids objects = map (λ (c : Connection). c.id) objects

-- A connection changes, but not its id.
ids-set :
    (objects : List Connection) (a : ℕ) (c d : Connection)
    → get_elem? objects a ≡ some c
    → d.id ≡ c.id
    → ids (set objects a d) ≡ ids objects
ids-set [] a c d at e = refl
ids-set (x ∷ objects) zero c d at e =
    ap (λ n. n ∷ ids objects)
      (e ∙ ap (λ (o : Option Connection). elim o [ none ↦ c.id | some z ↦ z.id ]) (sym at))
ids-set (x ∷ objects) (suc a) c d at e = ap (λ l. x.id ∷ l) (ids-set objects a c d at e)

-- The table after a step is one, with the same connections by their ids.
abbrev pub Kept : (t t' : Table) → Type 0
Kept t t' = IsTable t' × (ids t'.objects ≡ ids t.objects)

-- What the loops leave alone.
pub record Same (t t' : Table) : Type 0 where
  pub same_count : t'.manager.connections_count ≡ t.manager.connections_count
  pub same_size : length t'.manager.slots ≡ length t.manager.slots
  pub same_objects : length t'.objects ≡ length t.objects
  pub same_ids : ids t'.objects ≡ ids t.objects
  pub still_live :
      (j : ℕ)
      → LiveAt (length t.objects) t.manager.slots j
      → LiveAt (length t.objects) t'.manager.slots j

Same-IsTable : (t t' : Table) → Same t t' → IsTable t → IsTable t'
Same-IsTable t t' s v =
    let count = s.same_count in
    let size = s.same_size in
    let objects = s.same_objects in
    let bound = v.bound in
    record {
      size = size ∙ v.size;
      bound = omega arith;
      live = λ j h.
          subst (λ n. LiveAt n t'.manager.slots j) (sym objects)
            (s.still_live j (v.live j (omega arith)));
    }

pub Same-Kept : (t t' : Table) → Same t t' → IsTable t → Kept t t'
Same-Kept t t' s v = (Same-IsTable t t' s v, s.same_ids)

pub Same-refl : (t : Table) → Same t t
Same-refl t = record {
  same_count = refl;
  same_size = refl;
  same_objects = refl;
  same_ids = refl;
  still_live = λ j h. h;
}

pub Same-trans : (t t' t'' : Table) → Same t t' → Same t' t'' → Same t t''
Same-trans t t' t'' s s' = record {
  same_count = s'.same_count ∙ s.same_count;
  same_size = s'.same_size ∙ s.same_size;
  same_objects = s'.same_objects ∙ s.same_objects;
  same_ids = s'.same_ids ∙ s.same_ids;
  still_live = λ j h.
      subst (λ n. LiveAt n t''.manager.slots j) s.same_objects
        (s'.still_live j
          (subst (λ n. LiveAt n t'.manager.slots j) (sym s.same_objects) (s.still_live j h)));
}

-- A new poll entry in slot i.
LiveAt-set :
    (n i j : ℕ) (slots : List Slot) (s : Slot) (p : PollFd)
    → get_elem? slots i ≡ some s
    → i < length slots
    → LiveAt n slots j
    → LiveAt n (set slots i (record s { pfd = p })) j
LiveAt-set n i j slots s p at h (s', a, at', has, lt) = elim (ℕ_discrete i j) [
  | no f ↦ (s', a, get_elem?-set_ne slots (record s { pfd = p }) f ∙ at', has, lt)
  | yes f ↦ (
    record s { pfd = p },
    a,
    subst (λ k. get_elem? (set slots i (record s { pfd = p })) k ≡ some (record s { pfd = p })) f
        (get_elem?-set_self slots i (record s { pfd = p }) h),
    ap (λ o. o >>= λ s. s.conn) (sym at ∙ ap (get_elem? slots) f ∙ at') ∙ has,
    lt,
  )
]

module _ (f : PollFd → Connection → PollFd × Connection × List Call)
    (keeps : (p : PollFd) (c : Connection) → (f p c).1.id ≡ c.id) where
  module _ (i : ℕ) (t : Table) (s : Slot) (a : ℕ) (c : Connection)
      (at : get_elem? t.manager.slots i ≡ some s) (has : s.conn ≡ some a)
      (at_a : get_elem? t.objects a ≡ some c) where
    abbrev slots_after : List Slot
    slots_after = set t.manager.slots i (record s { pfd = (f s.pfd c).0 })

    abbrev table_after : Table
    table_after = record {
      manager = record (t.manager) { slots = slots_after };
      objects = set t.objects a (f s.pfd c).1;
    }

    at_slot_run :
        i < length t.manager.slots
        → a < length t.objects
        → at_slot f i t ≡ some (table_after, (f s.pfd c).2)
    unfolding at_slot
    at_slot_run h k = rw (
      at,
      has,
      at_a,
      store-eq-set t.manager.slots i (record { conn = some a; pfd = (f s.pfd c).0 }) h,
      store-eq-set t.objects a (f s.pfd c).1 k,
    )

    table_after-Same : i < length t.manager.slots → Same t table_after
    table_after-Same h = record {
      same_count = refl;
      same_size = length-set t.manager.slots i (record s { pfd = (f s.pfd c).0 });
      same_objects = length-set t.objects a (f s.pfd c).1;
      same_ids = ids-set t.objects a c (f s.pfd c).1 at_a (keeps s.pfd c);
      still_live = λ j l. LiveAt-set (length t.objects) i j t.manager.slots s (f s.pfd c).0 at h l;
    }

  at_slot_lem :
      (i : ℕ) (t : Table)
      → LiveAt (length t.objects) t.manager.slots i
      → (t' : Table) × (calls : List Call) × (at_slot f i t ≡ some (t', calls)) × Same t t'
  at_slot_lem i t (s, a, at, has, lt) =
      let (c, at_a) = get_elem?-in t.objects a lt in
      let h = get_elem?-below t.manager.slots i s at in
      (
        table_after i t s a c at has at_a,
        _,
        at_slot_run i t s a c at has at_a h lt,
        table_after-Same i t s a c at has at_a h,
      )

  each_slot_next :
      (n i : ℕ) (t t' t'' : Table) (calls more : List Call)
      → at_slot f i t ≡ some (t', calls)
      → each_slot f n (i + 1) t' ≡ some (t'', more)
      → each_slot f (suc n) i t ≡ some (t'', calls ++ more)
  unfolding each_slot
  each_slot_next n i t t' t'' calls more run run2 = rw (run, run2)

  pub each_slot_lem :
      (n i : ℕ) (t : Table)
      → ((j : ℕ) → j < i + n → LiveAt (length t.objects) t.manager.slots j)
      → (t' : Table) × (calls : List Call) × (each_slot f n i t ≡ some (t', calls)) × Same t t'
  unfolding each_slot
  each_slot_lem zero i t live = (t, [], refl, Same-refl t)
  each_slot_lem (suc n) i t live =
      let (t1, calls, run, same) = at_slot_lem i t (live i (omega arith)) in
      let (t2, more, run2, same2) = each_slot_lem n (i + 1) t1 (λ j h.
        subst (λ k. LiveAt k t1.manager.slots j) (sym same.same_objects)
          (same.still_live j (live j (omega arith)))) in
      (
        t2,
        calls ++ more,
        each_slot_next n i t t1 t2 calls more run run2,
        Same-trans t t1 t2 same same2,
      )
