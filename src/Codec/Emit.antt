-- ===== src/Codec/Emit.antt =====
-- Bytes written through an iterator fill the places that it walks.
use os_tasks.Prelude.{
  ℕ, zero, suc, ◌+◌, ◌≤◌, ◌≡◌, refl, some, List, [], ◌∷◌, ◌++◌, arith, length, drop, set, fill,
  store-eq-set,
}
use native.Mathlib.Nat.{add-zero}
use Prim.Native.Nat.add
use os_tasks.BufIter.{BufIter, buf_iter_next}
use os_tasks.BufIter.Walk.{Walks}
use os_tasks.Codec.{emit}

pub fill-append :
    (mem is xs ys : List ℕ)
    → fill mem is (xs ++ ys) ≡ fill (fill mem is xs) (drop (length xs) is) ys
unfolding fill
fill-append mem [] [] ys = refl
fill-append mem [] (x ∷ xs) ys = refl
fill-append mem (i ∷ is) [] ys = refl
fill-append mem (i ∷ is) (x ∷ xs) ys = fill-append (set mem i x) is xs ys

pub fill-nil : (mem is : List ℕ) → fill mem is [] ≡ mem
unfolding fill
fill-nil mem [] = refl
fill-nil mem (i ∷ is) = refl

pub drop-drop : (m n : ℕ) (is : List ℕ) → drop n (drop m is) ≡ drop (m + n) is
drop-drop zero n is = rw add.zero
drop-drop (suc m) zero [] = rw add-zero
drop-drop (suc m) (suc n) [] = rw add.suc
drop-drop (suc m) n (i ∷ is) = rw add.suc (drop-drop m n is)

pub emit_lem :
    (x n : ℕ) (mem : List ℕ) (it : BufIter) (q : ℕ) (qs : List ℕ)
    → Walks n it (q ∷ qs)
    → n ≤ length mem
    → emit x (mem, it) ≡ some (set mem q x, (buf_iter_next it).1)
unfolding emit
emit_lem x n mem it q qs w h = rw (w.0, store-eq-set mem q x (omega arith))
