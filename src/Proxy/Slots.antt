-- ===== src/Proxy/Slots.antt =====
-- `shrink_slots` keeps the slots that have a client.
use os_tasks.Prelude.{
  ℕ, suc, ◌+◌, ◌≤◌, ◌<◌, ◌≡◌, refl, sym, ap, ◌∙◌, Bool, true, false, some, ◌>>=◌, List, [], ◌∷◌,
  ◌++◌, arith, if◌then◌else◌, length, take, drop, set, get_elem?, store-eq-set, length-set,
  append_assoc, append-nil, Bool-cases, inl, inr, length-take, take-append-drop,
}
use mathlib.Core.Path.{subst}
use native.Mathlib.Decide.{ℕ_discrete}
use os_tasks.Prelude.Updates.{get_elem?-drop, drop_next, set_same, drop-set, take-set, drop_in}
use os_tasks.Proxy.{ClientSlot, Proxy, is_used, used_at, copy_slot, shrink_slots_loop, shrink_slots}

-- The slots that have a client, in their order.
unfoldable pub used : List ClientSlot → List ClientSlot
used [] = []
used (s ∷ slots) = let rest = used slots in if is_used s then s ∷ rest else rest

module _ (slots : List ClientSlot) (n j i : ℕ) (s : ClientSlot)
    (at : get_elem? slots j ≡ some s) where
  used_at_lem : (b : Bool) → is_used s ≡ b → used_at slots j ≡ some b
  unfolding used_at
  used_at_lem b e = rw at (ap some e)

  loop_drop :
      is_used s ≡ false → shrink_slots_loop (suc n) j i slots ≡ shrink_slots_loop n (j + 1) i slots
  unfolding shrink_slots_loop
  loop_drop e = rw (used_at_lem false e)

  copy_slot_lem : i < length slots → copy_slot j i slots ≡ some (set slots i s)
  unfolding copy_slot
  copy_slot_lem l = elim (ℕ_discrete i j) [
    | yes e ↦
        ground (arith, set_same slots i s (subst (λ k. get_elem? slots k ≡ some s) (sym e) at), e)
    | no e ↦ rw at (ground (arith, store-eq-set slots i s l, e))
  ]

  loop_copy :
      is_used s ≡ true
      → i < length slots
      → shrink_slots_loop (suc n) j i slots ≡ shrink_slots_loop n (j + 1) (i + 1) (set slots i s)
  unfolding shrink_slots_loop
  loop_copy e l = rw (used_at_lem true e, copy_slot_lem l)

-- What the loop has made of the slots `todo` from `i` on.
abbrev Shrunk : (n j i : ℕ) (todo slots : List ClientSlot) → Type 0
Shrunk n j i todo slots =
    (k : ℕ) × (slots' : List ClientSlot) × (shrink_slots_loop n j i slots ≡ some (k, slots'))
    × (take k slots' ≡ take i slots ++ used todo)
    × (length slots' ≡ length slots)
    × (k ≤ i + length todo)

shrink_slots_loop_lem :
    (todo rest : List ClientSlot) (j i : ℕ) (slots : List ClientSlot)
    → drop j slots ≡ todo ++ rest
    → i ≤ j
    → Shrunk (length todo) j i todo slots
unfolding shrink_slots_loop used
shrink_slots_loop_lem [] rest j i slots e h =
    (i, slots, refl, sym (append-nil (take i slots)), refl, omega arith)
shrink_slots_loop_lem (s ∷ todo) rest j i slots e h =
    let at = get_elem?-drop slots j s (todo ++ rest) e in
    let next = drop_next slots j s (todo ++ rest) e in
    elim (Bool-cases (is_used s)) [
      | inr empty ↦
          let (k, slots', run, kept, same, less) =
            shrink_slots_loop_lem todo rest (j + 1) i slots next (omega arith) in
          (
            k,
            slots',
            loop_drop slots (length todo) j i s at empty ∙ run,
            kept ∙ ap (λ b. take i slots ++ (if b then s ∷ used todo else used todo)) (sym empty),
            same,
            omega arith,
          )
      | inl full ↦
          let in_range = drop_in slots j s (todo ++ rest) e in
          let (k, slots', run, kept, same, less) =
            shrink_slots_loop_lem todo rest (j + 1) (i + 1) (set slots i s)
              (drop-set slots i (j + 1) s (omega arith) ∙ next) (omega arith) in
          (
            k,
            slots',
            loop_copy slots (length todo) j i s at full (omega arith) ∙ run,
            kept
                ∙ ap (λ l. l ++ used todo)
                    (ap (λ k. take k (set slots i s)) (let g : i + 1 ≡ suc i = omega arith in g)
                      ∙ take-set slots i s (omega arith))
                ∙ append_assoc (take i slots) (s ∷ []) (used todo)
                ∙ ap (λ b. take i slots ++ (if b then s ∷ used todo else used todo)) (sym full),
            same ∙ length-set slots i s,
            omega arith,
          )
    ]

-- Where `clients_count` is within the array, `shrink_slots` ends, and the slots in use are then
-- those of before that have a client, in their order, with their poll entries; the listener stays.
pub shrink_slots_lem :
    (p : Proxy)
    → p.clients_count ≤ length p.slots
    → (p' : Proxy) × (shrink_slots p ≡ some p')
      × (take p'.clients_count p'.slots ≡ used (take p.clients_count p.slots))
      × (length p'.slots ≡ length p.slots)
      × (p'.clients_count ≤ p.clients_count)
      × (p'.listener ≡ p.listener)
unfolding shrink_slots
shrink_slots_lem p h =
    let n = p.clients_count in
    let (k, slots, run, kept, same, less) =
      shrink_slots_loop_lem (take n p.slots) (drop n p.slots) 0 0 p.slots
        (sym (take-append-drop n p.slots)) (omega arith) in
    (
      record p { clients_count = k; slots = slots },
      ap (λ o. o >>= λ (i, slots). some (record p { clients_count = i; slots = slots }))
          (ap (λ m. shrink_slots_loop m 0 0 p.slots)
              (let g : n ≡ length (take n p.slots) = omega (arith, length-take n p.slots) in g)
            ∙ run),
      kept,
      same,
      omega (arith, length-take n p.slots),
      refl,
    )
