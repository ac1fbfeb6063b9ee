-- ===== src/Controller/Ids.antt =====
-- The stack of free ids.
use os_tasks.Prelude.{
  ℕ, zero, suc, ◌+◌, ◌≤◌, ◌<◌, ◌≡◌, refl, ap, some, arith, ℤ, pos, length, set, get_elem?,
  get_elem?-set_self, store-eq-set,
}
use os_tasks.Controller.{IdStack, id_stack_push, id_stack_pop, init_ids, id_stack_init}
use os_tasks.Controller.Sorted.{IsStack}

-- The id that was pushed last on a stack that is not full is popped next, and the stack has as
-- many ids as before.
pub id_stack_pop-id_stack_push :
    (s : IdStack) (id : ℤ)
    → length s.stack ≡ 255
    → s.cnt < 255
    → (s' : IdStack) × (s'' : IdStack) × (id_stack_push s id ≡ some s')
      × (id_stack_pop s' ≡ some (id, s''))
      × (s''.cnt ≡ s.cnt)
unfolding id_stack_push id_stack_pop
id_stack_pop-id_stack_push s id l h = (
  record { stack = set s.stack s.cnt id; cnt = s.cnt + 1 },
  record { stack = set s.stack s.cnt id; cnt = s.cnt },
  ground (arith, store-eq-set s.stack s.cnt id (omega arith)),
  ground (arith, get_elem?-set_self s.stack s.cnt id (omega arith)),
  refl,
)

init_ids_lem :
    (n i : ℕ) → i < n → (k : ℕ) × (get_elem? (init_ids n) i ≡ some (pos k)) × (0 < k) × (k ≤ n)
unfolding init_ids
init_ids_lem zero i h = absurd (omega arith)
init_ids_lem (suc n) zero h = (suc n, refl, omega arith, omega arith)
init_ids_lem (suc n) (suc i) h =
    let (k, at, low, high) = init_ids_lem n i (omega arith) in (k, at, low, omega arith)

length-init_ids : (n : ℕ) → length (init_ids n) ≡ n
unfolding init_ids
length-init_ids zero = refl
length-init_ids (suc n) = ap suc (length-init_ids n)

-- The free ids at the start.
pub id_stack_init-IsStack : IsStack id_stack_init
unfolding id_stack_init
id_stack_init-IsStack = record {
  size = length-init_ids 255;
  bound = omega arith;
  range = λ i h. let (k, at, low, high) = init_ids_lem 255 i h in (k, at, low, omega arith);
}
