-- ===== src/Pump/Objects.antt =====
-- Access to the connections by their addresses.
use os_tasks.Prelude.{ℕ, ◌≡◌, some, List, set, get_elem?, store-eq-set, get_elem?-set_self}
use os_tasks.Prelude.Updates.{get_elem?-below}
use os_tasks.Connection.{Connection}
use os_tasks.Pump.{modify}

-- What `modify` leaves at an address in use.
pub modify_lem :
    (a : ℕ) (f : Connection → Connection) (os : List Connection) (c : Connection)
    → get_elem? os a ≡ some c
    → (modify a f os ≡ some (set os a (f c))) × (get_elem? (set os a (f c)) a ≡ some (f c))
unfolding modify
modify_lem a f os c e = (
  rw e (store-eq-set os a (f c) (get_elem?-below os a c e)),
  get_elem?-set_self os a (f c) (get_elem?-below os a c e),
)
