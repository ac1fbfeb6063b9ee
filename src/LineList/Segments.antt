-- ===== src/LineList/Segments.antt =====
-- A part of a linked list, from a pointer to another one.
use os_tasks.Prelude.{
  ℕ, zero, suc, ◌≤◌, ◌<◌, ◌≡◌, refl, ◌∙◌, Option, some, List, [], ◌∷◌, ◌++◌, arith, length,
  get_elem?, set, get_elem?-set_ne,
}
use os_tasks.LineList.{FileLine, Node, node}

-- From `p` the pointers lead through nodes with the lines `xs`, at rising addresses below `lim`, to
-- `q`.
abbrev pub Seg : List Node → (from lim : ℕ) → List FileLine → (p q : Option ℕ) → Type 0
Seg heap from lim [] p q = p ≡ q
Seg heap from lim (x ∷ xs) p q =
    (a : ℕ) × (next : Option ℕ) × (p ≡ some a)
    × (get_elem? heap a ≡ some (node x next))
    × (from ≤ a)
    × (a < lim)
    × Seg heap (suc a) lim xs next q

-- Writing at or above the limit leaves a segment.
pub Seg-set :
    (heap : List Node) (from lim : ℕ) (xs : List FileLine) (p q : Option ℕ) (i : ℕ) (n : Node)
    → lim ≤ i
    → Seg heap from lim xs p q
    → Seg (set heap i n) from lim xs p q
Seg-set heap from lim [] p q i n h s = s
Seg-set heap from lim (x ∷ xs) p q i n h (a, next, e, at, l, k, s) = (
  a,
  next,
  e,
  get_elem?-set_ne heap n (λ f. omega arith) ∙ at,
  l,
  k,
  Seg-set heap (suc a) lim xs next q i n h s,
)

pub get_elem?-append_left {ℓ} :
    {A : Type ℓ} (xs ys : List A) (i : ℕ) → i < length xs → get_elem? (xs ++ ys) i ≡ get_elem? xs i
get_elem?-append_left [] ys i h = absurd (omega arith)
get_elem?-append_left (x ∷ xs) ys zero h = refl
get_elem?-append_left (x ∷ xs) ys (suc i) h = get_elem?-append_left xs ys i (omega arith)

pub get_elem?-append_end {ℓ} :
    {A : Type ℓ} (xs : List A) (x : A) → get_elem? (xs ++ (x ∷ [])) (length xs) ≡ some x
get_elem?-append_end [] x = refl
get_elem?-append_end (y ∷ xs) x = get_elem?-append_end xs x

pub Seg-append_heap :
    (heap more : List Node) (from lim : ℕ) (xs : List FileLine) (p q : Option ℕ)
    → lim ≤ length heap
    → Seg heap from lim xs p q
    → Seg (heap ++ more) from lim xs p q
Seg-append_heap heap more from lim [] p q h s = s
Seg-append_heap heap more from lim (x ∷ xs) p q h (a, next, e, at, l, k, s) = (
  a,
  next,
  e,
  get_elem?-append_left heap more a (omega arith) ∙ at,
  l,
  k,
  Seg-append_heap heap more (suc a) lim xs next q h s,
)

-- A segment grows by the node that it leads to.
pub Seg-snoc :
    (heap : List Node) (from lim lim' : ℕ) (xs : List FileLine) (x : FileLine) (p q : Option ℕ)
    (a : ℕ)
    → get_elem? heap a ≡ some (node x q)
    → lim ≤ a
    → from ≤ lim
    → a < lim'
    → Seg heap from lim xs p (some a)
    → Seg heap from lim' (xs ++ (x ∷ [])) p q
Seg-snoc heap from lim lim' [] x p q a at l f k s = (a, q, s, at, omega arith, k, refl)
Seg-snoc heap from lim lim' (y ∷ xs) x p q a at l f k (b, next, e, at', f', l', s) = (
  b,
  next,
  e,
  at',
  f',
  omega arith,
  Seg-snoc heap (suc b) lim lim' xs x next q a at l (omega arith) k s,
)

pub Seg-head :
    (heap : List Node) (from lim : ℕ) (xs : List FileLine) (p : Option ℕ) (a : ℕ)
    → Seg heap from lim xs p (some a)
    → (h : ℕ) × (p ≡ some h)
Seg-head heap from lim [] p a s = (a, s)
Seg-head heap from lim (x ∷ xs) p a (b, next, e, at, f, l, s) = (b, e)
