-- ===== src/Controller/Sorted.antt =====
-- `sort_connections`: the ids stay in their range, and with them the indexes into the array.
use os_tasks.Prelude.{
  ℕ, zero, suc, ◌+◌, ◌-◌, ◌≤◌, ◌<◌, ◌≡◌, ◌≢◌, refl, sym, ap, ◌∙◌, Option, none, some, List, arith,
  length, set, get_elem?, get_elem?-set_self, get_elem?-set_ne, store-eq-set, length-set, ℤ, pos,
  negsuc, replicate, length-replicate, ne_zero,
}
use mathlib.Core.Path.{subst}
use native.Mathlib.Decide.{ℕ_discrete}
use os_tasks.Prelude.Updates.{get_elem?-in, get_elem?-below}
use os_tasks.Connection.{Connection}
use os_tasks.Pump.Objects.{modify_lem}
use os_tasks.Manager.{Slot, Table}
use os_tasks.Manager.Live.{LiveAt, IsTable}
use os_tasks.Controller.{
  IdStack, id_stack_empty, id_stack_pop, put_sorted, Sorting, sort_connection, sort_connections,
}

-- An id that is none, or an index of the sorted array.
abbrev pub IsId : ℤ → Type 0
IsId (pos n) = n < 256
IsId (negsuc n) = Unit

-- The free ids are from 1 to 255.
pub record IsStack (s : IdStack) : Type 0 where
  pub size : length s.stack ≡ 255
  pub bound : s.cnt ≤ 255
  pub range :
      (i : ℕ) → i < s.cnt → (n : ℕ) × (get_elem? s.stack i ≡ some (pos n)) × (0 < n) × (n < 256)

abbrev pub AllIds : List Connection → Type 0
AllIds objects = (a : ℕ) (c : Connection) → get_elem? objects a ≡ some c → IsId c.id

-- The sorted array has its size, and holds at an index a connection with that id.
abbrev pub PointsTo : List Connection → List (Option ℕ) → Type 0
PointsTo objects sorted =
    (length sorted ≡ 256)
    × ((i a : ℕ)
        → get_elem? sorted i ≡ some (some a)
        → (c : Connection) × (get_elem? objects a ≡ some c) × (c.id ≡ pos i))

pub record IsSorting (n : ℕ) (s : Sorting) : Type 0 where
  pub ids : IsStack s.free_ids
  pub all_ids : AllIds s.objects
  pub points : PointsTo s.objects s.sorted
  pub count : length s.objects ≡ n

pub both_some : (a b : ℕ) → some (some a) ≡ some (some b) → a ≡ b
both_some a b e = cc

pub same_id : (x y : Connection) → some x ≡ some y → x.id ≡ y.id
same_id x y e = ap (λ (o : Option Connection). elim o [ none ↦ x.id | some z ↦ z.id ]) e

PointsTo-set :
    (objects : List Connection) (i a : ℕ) (c : Connection) (sorted : List (Option ℕ))
    → i < 256
    → get_elem? objects a ≡ some c
    → c.id ≡ pos i
    → PointsTo objects sorted
    → PointsTo objects (set sorted i (some a))
PointsTo-set objects i a c sorted h at id (size, points) = (
  length-set sorted i (some a) ∙ size,
  λ j b e. elim (ℕ_discrete i j) [
    | yes f ↦ (
      c,
      ap (get_elem? objects) (
            sym (
              both_some a b (
                sym (get_elem?-set_self sorted i (some a) (omega arith))
                ∙ ap (get_elem? (set sorted i (some a))) f
                ∙ e)))
          ∙ at,
      id ∙ ap pos f,
    )
    | no f ↦ points j b (sym (get_elem?-set_ne sorted (some a) f) ∙ e)
  ],
)

-- A connection without an id is not in the array, and may change.
PointsTo-change :
    (objects : List Connection) (a k : ℕ) (c d : Connection) (sorted : List (Option ℕ))
    → get_elem? objects a ≡ some c
    → c.id ≡ negsuc k
    → PointsTo objects sorted
    → PointsTo (set objects a d) sorted
PointsTo-change objects a k c d sorted at id (size, points) = (
  size,
  λ j b e.
      let (x, at_b, id_b) = points j b e in
      elim (ℕ_discrete a b) [
        | no f ↦ (x, get_elem?-set_ne objects d f ∙ at_b, id_b)
        | yes f ↦
            absurd (
              negative k j (sym id ∙ same_id c x (sym at ∙ ap (get_elem? objects) f ∙ at_b) ∙ id_b))
      ],
)
  where
    negative : (k j : ℕ) → negsuc k ≡ pos j → ⊥
    negative k j e = cc

pub AllIds-set :
    (objects : List Connection) (a : ℕ) (c : Connection)
    → IsId c.id
    → AllIds objects
    → AllIds (set objects a c)
AllIds-set objects a c ok all b d e = elim (ℕ_discrete a b) [
  | no f ↦ all b d (sym (get_elem?-set_ne objects c f) ∙ e)
  | yes f ↦
      let below : b < length objects =
        omega (arith, get_elem?-below (set objects a c) b d e, length-set objects a c) in
      subst (λ x. IsId x)
        (same_id c d (
          sym (get_elem?-set_self objects a c (omega (arith, f)))
          ∙ ap (get_elem? (set objects a c)) f
          ∙ e))
        ok
]

id_stack_pop_lem :
    (s : IdStack)
    → IsStack s
    → s.cnt ≢ 0
    → (n : ℕ) × (id_stack_pop s ≡ some (pos n, record s { cnt = s.cnt - 1 })) × (0 < n) × (n < 256)
unfolding id_stack_pop
id_stack_pop_lem s v h =
    let (n, at, low, high) = v.range (s.cnt - 1) (omega (arith, h)) in
    (n, rw (ne_zero s.cnt h, at), low, high)

IsStack-pop : (s : IdStack) → IsStack s → IsStack (record s { cnt = s.cnt - 1 })
IsStack-pop s v =
    let bound = v.bound in
    record { size = v.size; bound = omega arith; range = λ i h. v.range i (omega arith) }

module _ (n addr : ℕ) (s : Sorting) (c : Connection) (at : get_elem? s.objects addr ≡ some c)
    (v : IsSorting n s) where
  -- A connection that has an id is put in its place.
  placed :
      (k : ℕ)
      → c.id ≡ pos k
      → k < 256
      → addr < n
      → (s' : Sorting) × (sort_connection addr s ≡ some s') × IsSorting n s'
  unfolding sort_connection put_sorted
  placed k e h lt =
      let points = v.points in
      let size = points.0 in
      (
        record s { sorted = set s.sorted k (some addr) },
        simp (at, e) (ground (arith, store-eq-set s.sorted k (some addr) (omega arith))),
        record {
          ids = v.ids;
          all_ids = v.all_ids;
          points = PointsTo-set s.objects k addr c s.sorted h at e points;
          count = v.count;
        },
      )

  -- A new one gets a free id, if there is one.
  assigned :
      (k : ℕ)
      → c.id ≡ negsuc k
      → addr < n
      → (s' : Sorting) × (sort_connection addr s ≡ some s') × IsSorting n s'
  unfolding sort_connection put_sorted id_stack_empty
  assigned k e lt = elim (ℕ_discrete s.free_ids.cnt 0) [
    | yes z ↦ (s, simp (at, e) (ground (arith, z)), v)
    | no f ↦
        let (m, popped, low, high) = id_stack_pop_lem s.free_ids v.ids f in
        let points = v.points in
        let size = points.0 in
        let with_id : Connection = record c { id = pos m } in
        (
          record {
            free_ids = record (s.free_ids) { cnt = s.free_ids.cnt - 1 };
            sorted = set s.sorted m (some addr);
            objects = set s.objects addr with_id;
          },
          simp (
            at,
            e,
            ne_zero s.free_ids.cnt f,
            popped,
            (modify_lem addr (λ c. record c { id = pos m }) s.objects c at).0,
            store-eq-set s.sorted m (some addr) (omega arith),
          ),
          record {
            ids = IsStack-pop s.free_ids v.ids;
            all_ids = AllIds-set s.objects addr with_id high v.all_ids;
            points =
                PointsTo-set (set s.objects addr with_id) m addr with_id s.sorted high
                  (modify_lem addr (λ c. record c { id = pos m }) s.objects c at).1 refl
                  (PointsTo-change s.objects addr k c with_id s.sorted at e points);
            count = length-set s.objects addr with_id ∙ v.count;
          },
        )
  ]

sort_connection_lem :
    (n addr : ℕ) (s : Sorting)
    → addr < n
    → IsSorting n s
    → (s' : Sorting) × (sort_connection addr s ≡ some s') × IsSorting n s'
sort_connection_lem n addr s lt v =
    let count = v.count in
    let (c, at) = get_elem?-in s.objects addr (omega arith) in by_id c at c.id refl
  where
    by_id :
        (c : Connection)
        → get_elem? s.objects addr ≡ some c
        → (id : ℤ) → c.id ≡ id
        → (s' : Sorting) × (sort_connection addr s ≡ some s') × IsSorting n s'
    by_id c at (pos k) e = placed n addr s c at v k e (subst IsId e (v.all_ids addr c at)) lt
    by_id c at (negsuc k) e = assigned n addr s c at v k e lt

sort_next :
    (n i addr : ℕ) (slots : List Slot) (slot : Slot) (s s' : Sorting)
    → get_elem? slots i ≡ some slot
    → slot.conn ≡ some addr
    → sort_connection addr s ≡ some s'
    → sort_connections (suc n) i slots s ≡ sort_connections n (i + 1) slots s'
unfolding sort_connections
sort_next n i addr slots slot s s' at has run = rw (at, has, run)

sort_loop :
    (m n i : ℕ) (slots : List Slot) (s : Sorting)
    → ((j : ℕ) → j < i + m → LiveAt n slots j)
    → IsSorting n s
    → (s' : Sorting) × (sort_connections m i slots s ≡ some s') × IsSorting n s'
unfolding sort_connections
sort_loop zero n i slots s live v = (s, refl, v)
sort_loop (suc m) n i slots s live v =
    let (slot, addr, at, has, lt) = live i (omega arith) in
    let (s1, run, v1) = sort_connection_lem n addr s lt v in
    let (s2, run2, v2) = sort_loop m n (i + 1) slots s1 (λ j h. live j (omega arith)) v1 in
    (s2, sort_next m i addr slots slot s s1 at has run ∙ run2, v2)

no_entry : (k i a : ℕ) → get_elem? (replicate k none) i ≡ some (some a) → ⊥
no_entry zero i a e = cc
no_entry (suc k) zero a e = cc
no_entry (suc k) (suc i) a e = no_entry k i a e

-- Where every slot in use has a connection, every id of a connection is below 256 if it is not
-- negative, and the free ids are at most 255 numbers from 1 to 255, `sort_connections` ends within its
-- arrays; all this stays so, no connection is added or removed, and the sorted array has 256 entries
-- and holds at an index only a connection with that id.
pub sort_connections_lem :
    (t : Table) (ids : IdStack)
    → IsTable t
    → IsStack ids
    → AllIds t.objects
    → (s : Sorting) × (sort_connections t.manager.connections_count 0 t.manager.slots
          (record { free_ids = ids; sorted = replicate 256 none; objects = t.objects })
        ≡ some s)
      × IsSorting (length t.objects) s
sort_connections_lem t ids v stack all =
    sort_loop t.manager.connections_count (length t.objects) 0 t.manager.slots
      (record { free_ids = ids; sorted = replicate 256 none; objects = t.objects })
      (λ j h. v.live j (omega arith))
      (record {
        ids = stack;
        all_ids = all;
        points = (length-replicate {A = Option ℕ} 256 none, λ i a e. absurd (no_entry 256 i a e));
        count = refl;
      })
