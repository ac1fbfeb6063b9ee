-- ===== src/Manager/Shrinking.antt =====
-- `shrink` keeps the table.
use os_tasks.Prelude.{
  ℕ, zero, suc, ◌≤◌, ◌≡◌, refl, sym, ap, ◌∙◌, Option, some, ◌>>=◌, List, [], ◌∷◌, arith, length,
  take, length-take, Bool-cases, inl, inr,
}
use mathlib.Core.Path.{subst}
use os_tasks.Prelude.Updates.{get_elem?-in, get_elem?-below}
use os_tasks.Connection.{Connection}
use os_tasks.Manager.{max_connections, Slot, Table, shrink}
use os_tasks.Manager.Shrink.{IsLive, stays, staying, shrink_lem}
use os_tasks.Manager.Live.{LiveTo, IsTable, ids, Kept}

-- The form of the invariant that `shrink` uses.
to_IsLive :
    (objects : List Connection) (k : ℕ) (slots : List Slot)
    → LiveTo (length objects) k slots
    → IsLive objects (take k slots)
to_IsLive objects zero slots live = tt
to_IsLive objects (suc k) [] live = tt
to_IsLive objects (suc k) (s ∷ slots) live =
    let (s', a, at, has, lt) = live 0 (omega arith) in
    let (c, at_a) = get_elem?-in objects a lt in
    (
      (a, c, ap (λ (o : Option Slot). o >>= λ s. s.conn) at ∙ has, at_a),
      to_IsLive objects k slots (λ j h. live (suc j) (omega arith)),
    )

staying-IsLive :
    (objects : List Connection) (slots : List Slot)
    → IsLive objects slots
    → IsLive objects (staying objects slots)
unfolding staying
staying-IsLive objects [] h = tt
staying-IsLive objects (s ∷ slots) (h, hs) = elim (Bool-cases (stays objects s)) [
  | inl e ↦ rw e (h, staying-IsLive objects slots hs)
  | inr e ↦ rw e (staying-IsLive objects slots hs)
]

from_IsLive :
    (objects : List Connection) (k : ℕ) (slots : List Slot)
    → k ≤ length slots
    → IsLive objects (take k slots)
    → LiveTo (length objects) k slots
from_IsLive objects zero slots l h j lt = absurd (omega arith)
from_IsLive objects (suc k) [] l h j lt = absurd (omega arith)
from_IsLive objects (suc k) (s ∷ slots) l ((a, c, has, at), h) zero lt =
    (s, a, refl, has, get_elem?-below objects a c at)
from_IsLive objects (suc k) (s ∷ slots) l (h, hs) (suc j) lt =
    from_IsLive objects k slots (omega arith) hs j (omega arith)

length-staying :
    (objects : List Connection) (slots : List Slot) → length (staying objects slots) ≤ length slots
unfolding staying
length-staying objects [] = omega arith
length-staying objects (s ∷ slots) = ground (arith, length-staying objects slots)

pub shrink-IsTable : (t : Table) → IsTable t → (t' : Table) × (shrink t ≡ some t') × Kept t t'
shrink-IsTable t v =
    let n = t.manager.connections_count in
    let size = v.size in
    let bound = v.bound in
    let live = to_IsLive t.objects n t.manager.slots v.live in
    let (t', run, objects, r) = shrink_lem t (omega arith) live in
    let counted = r.counted in
    let same = r.same_length in
    let less = length-staying t.objects (take n t.manager.slots) in
    let below : t'.manager.connections_count ≤ max_connections =
      omega (arith, length-take n t.manager.slots) in
    (
      t',
      run,
      (
        record {
          size = same ∙ size;
          bound = below;
          live =
              subst (λ os. LiveTo (length os) t'.manager.connections_count t'.manager.slots)
                (sym objects)
                (from_IsLive t.objects t'.manager.connections_count t'.manager.slots (omega arith) (
                  subst (IsLive t.objects) (sym r.kept)
                    (staying-IsLive t.objects (take n t.manager.slots) live)));
        },
        ap ids objects,
      ),
    )
