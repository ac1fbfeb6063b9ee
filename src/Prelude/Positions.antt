-- ===== src/Prelude/Positions.antt =====
-- Index lists of an array: spans, positions on a ring, and reading and filling at them.
use Prim.Native.Nat.{ℕ, zero, suc, ◌+◌, ◌-◌, ◌%◌, ◌≤◌, ◌<◌}
use mathlib.Core.Path.{◌≡◌, refl, ap, ap₂, ◌∙◌, sym, subst}
use mathlib.Core.Logic.{◌≢◌}
use mathlib.Core.List.{List, [], ◌∷◌, ◌++◌, append-nil, append_assoc}
use native.Mathlib.Omega.{arith}
use Prim.Native.Nat.add
use native.Mathlib.Nat.{mod-eq_of_lt, mod-eq-sub-mod, mod-mod, mod-add-mod, add-mod_left, add-zero}
use native.Mathlib.Decide.{dec_lt}
use os_tasks.Prelude.Lists.{
  length, get_or, set, take, drop, length-set, get_or-set_self, get_or-set_ne,
}

-- `a, a + 1, …`: `n` numbers
unfoldable pub span : ℕ → ℕ → List ℕ
span a zero = []
span a (suc n) = a ∷ span (a + 1) n

-- the `n` places from `p` on of a ring of `size` places
unfoldable pub positions : ℕ → ℕ → ℕ → List ℕ
positions size p zero = []
positions size p (suc n) = (p % size) ∷ positions size (p + 1) n

pub length-span : (a n : ℕ) → length (span a n) ≡ n
unfolding span
length-span a zero = refl
length-span a (suc n) = ap suc (length-span (a + 1) n)

pub length-positions : (size p n : ℕ) → length (positions size p n) ≡ n
unfolding positions
length-positions size p zero = refl
length-positions size p (suc n) = ap suc (length-positions size (p + 1) n)

pub positions-add :
    (size p m n : ℕ) → positions size p (m + n) ≡ positions size p m ++ positions size (p + m) n
unfolding positions
positions-add size p zero n = rw (add.zero, add-zero)
positions-add size p (suc m) n =
    rw (add.suc, positions-add size (p + 1) m n)
      (ap (λ k. (p % size) ∷ (positions size (p + 1) m ++ positions size k n)) (omega arith))

pub positions_eq_span : (size p n : ℕ) → p + n ≤ size → positions size p n ≡ span p n
unfolding positions span
positions_eq_span size p zero h = refl
positions_eq_span size p (suc n) h =
    ap₂ ◌∷◌ (mod-eq_of_lt (omega arith)) (positions_eq_span size (p + 1) n (omega arith))

-- Once round the ring is the same place.
pub positions-add_size : (size p n : ℕ) → positions size (size + p) n ≡ positions size p n
unfolding positions
positions-add_size size p zero = refl
positions-add_size size p (suc n) =
    ap₂ ◌∷◌ (add-mod_left size p)
      (ap (λ k. positions size k n) (omega arith) ∙ positions-add_size size (p + 1) n)

-- Only the place modulo the size counts.
pub positions_congr :
    (size p q n : ℕ) → p % size ≡ q % size → positions size p n ≡ positions size q n
unfolding positions
positions_congr size p q zero e = refl
positions_congr size p q (suc n) e = ap₂ ◌∷◌ e (
    positions_congr size (p + 1) (q + 1) n
      (sym (mod-add-mod p size 1) ∙ ap (λ k. (k + 1) % size) e ∙ mod-add-mod q size 1))

-- Fewer than `size` steps round the ring do not come back.
ring_ne : (size p m : ℕ) → 0 < m → m < size → p % size ≢ (p + m) % size
ring_ne size p m h k e = elim (dec_lt (p % size + m) size) [
  | yes l ↦ omega (arith, mod-eq_of_lt l, mod-add-mod p size m)
  | no l ↦ omega (
    arith,
    mod-add-mod p size m,
    mod-eq-sub-mod {n = p % size + m} {m = size} (omega arith),
    mod-eq_of_lt {n = p % size + m - size} {m = size} (omega arith),
  )
]

-- A window that goes round the end is two spans.
pub positions_wrap :
    (size p n : ℕ)
    → p ≤ size
    → size ≤ p + n
    → p + n ≤ size + size
    → positions size p n ≡ span p (size - p) ++ span 0 (p + n - size)
unfolding positions
positions_wrap size p n h k l =
    ap (positions size p) (let e : n ≡ size - p + (p + n - size) = omega arith in e)
    ∙ positions-add size p (size - p) (p + n - size)
    ∙ ap₂ ◌++◌ (positions_eq_span size p (size - p) (omega arith)) (
        ap (λ k. positions size k (p + n - size))
          (let e : p + (size - p) ≡ size + 0 = omega arith in e)
        ∙ positions-add_size size 0 (p + n - size)
        ∙ positions_eq_span size 0 (p + n - size) (omega arith))

drop-positions : (size p n k : ℕ) → drop k (positions size p n) ≡ positions size (p + k) (n - k)
unfolding positions
drop-positions size p n zero = ap₂ (positions size) (omega arith) (omega arith)
drop-positions size p zero (suc k) =
    ap (positions size (p + suc k)) (let e : zero ≡ zero - suc k = omega arith in e)
drop-positions size p (suc n) (suc k) =
    drop-positions size (p + 1) n k ∙ ap₂ (positions size) (omega arith) (omega arith)

module _ {A : Type 0} where
  -- the bytes go to the places in order, until either list ends
  unfoldable pub fill : List A → List ℕ → List A → List A
  fill mem [] xs = mem
  fill mem (i ∷ is) [] = mem
  fill mem (i ∷ is) (x ∷ xs) = fill (set mem i x) is xs

  pub length-fill :
      (mem : List A) (is : List ℕ) (xs : List A) → length (fill mem is xs) ≡ length mem
  unfolding fill
  length-fill mem [] xs = refl
  length-fill mem (i ∷ is) [] = refl
  length-fill mem (i ∷ is) (x ∷ xs) = length-fill (set mem i x) is xs ∙ length-set mem i x

-- `d` is read outside of the array.
module _ {A : Type 0} (d : A) where
  unfoldable pub reads : List A → List ℕ → List A
  reads mem [] = []
  reads mem (i ∷ is) = get_or mem i d ∷ reads mem is

  pub length-reads : (mem : List A) (is : List ℕ) → length (reads mem is) ≡ length is
  unfolding reads
  length-reads mem [] = refl
  length-reads mem (i ∷ is) = ap suc (length-reads mem is)

  pub reads-append :
      (mem : List A) (is js : List ℕ) → reads mem (is ++ js) ≡ reads mem is ++ reads mem js
  unfolding reads
  reads-append mem [] js = refl
  reads-append mem (i ∷ is) js = ap (λ l. get_or mem i d ∷ l) (reads-append mem is js)

  pub reads-drop :
      (mem : List A) (n : ℕ) (is : List ℕ) → reads mem (drop n is) ≡ drop n (reads mem is)
  unfolding reads
  reads-drop mem zero is = refl
  reads-drop mem (suc n) [] = refl
  reads-drop mem (suc n) (i ∷ is) = reads-drop mem n is

  pub reads-take :
      (mem : List A) (n : ℕ) (is : List ℕ) → reads mem (take n is) ≡ take n (reads mem is)
  unfolding reads
  reads-take mem zero is = refl
  reads-take mem (suc n) [] = refl
  reads-take mem (suc n) (i ∷ is) = ap (λ l. get_or mem i d ∷ l) (reads-take mem n is)

  pub reads-set_after :
      (mem : List A) (size p n m : ℕ) (x : A)
      → n ≤ m
      → m < size
      → reads (set mem ((p + m) % size) x) (positions size p n) ≡ reads mem (positions size p n)
  unfolding reads positions
  reads-set_after mem size p zero m x h k = refl
  reads-set_after mem size p (suc n) m x h k =
      ap₂ ◌∷◌ (get_or-set_ne mem x d (λ e. ring_ne size p m (omega arith) k (sym e))) (
        subst
          (λ j.
            reads (set mem (j % size) x) (positions size (p + 1) n)
            ≡ reads mem (positions size (p + 1) n))
          (let e : p + 1 + (m - 1) ≡ p + m = omega arith in e)
          (reads-set_after mem size (p + 1) n (m - 1) x (omega arith) (omega arith)))

  -- One byte written at the end of a window of the ring extends the window by it.
  pub reads-set_end :
      (mem : List A) (size p n : ℕ) (x : A)
      → n < size
      → size ≤ length mem
      → reads (set mem ((p + n) % size) x) (positions size p (n + 1))
        ≡ reads mem (positions size p n) ++ (x ∷ [])
  unfolding reads positions
  reads-set_end mem size p n x h k = rw (
    positions-add size p n 1,
    reads-append (set mem ((p + n) % size) x) (positions size p n) (positions size (p + n) 1),
    reads-set_after mem size p n n x (omega arith) h,
    get_or-set_self mem ((p + n) % size) x d (omega arith),
  )

  -- Bytes filled in at the end of a window extend it by those bytes.
  pub reads-fill_end :
      (mem : List A) (size p n m : ℕ) (xs : List A)
      → length xs ≤ m
      → n + length xs ≤ size
      → size ≤ length mem
      → reads (fill mem (positions size (p + n) m) xs) (positions size p (n + length xs))
        ≡ reads mem (positions size p n) ++ xs
  unfolding fill positions
  reads-fill_end mem size p n zero [] h k l = rw (add-zero, append-nil)
  reads-fill_end mem size p n (suc m) [] h k l = rw (add-zero, append-nil)
  reads-fill_end mem size p n zero (x ∷ xs) h k l = absurd (omega arith)
  reads-fill_end mem size p n (suc m) (x ∷ xs) h k l =
      ap₂ (λ a b. reads (fill mem' (positions size a m) xs) (positions size p b)) (omega arith)
        (omega arith)
      ∙ reads-fill_end mem' size p (n + 1) m xs (omega arith) (omega arith)
          (omega (arith, length-set mem ((p + n) % size) x))
      ∙ ap (λ l. l ++ xs) (reads-set_end mem size p n x (omega arith) l)
      ∙ append_assoc (reads mem (positions size p n)) (x ∷ []) xs
    where
      mem' : List A
      mem' = set mem ((p + n) % size) x

  -- Reading from `k` places on is reading all and dropping `k` bytes.
  pub reads-positions_later :
      (mem : List A) (size p n k : ℕ)
      → reads mem (positions size ((p + k) % size) (n - k))
        ≡ drop k (reads mem (positions size p n))
  reads-positions_later mem size p n k =
      ap (reads mem) (
        positions_congr size ((p + k) % size) (p + k) (n - k) (mod-mod (p + k) size)
        ∙ sym (drop-positions size p n k))
      ∙ reads-drop mem k (positions size p n)
