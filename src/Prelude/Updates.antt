-- ===== src/Prelude/Updates.antt =====
-- Lists with one entry replaced, and cut at an index.
use Prim.Native.Nat.{ℕ, zero, suc, ◌+◌, ◌<◌}
use mathlib.Core.Path.{◌≡◌, refl, ap, ◌∙◌}
use mathlib.Core.List.{List, [], ◌∷◌, ◌++◌}
use mathlib.Core.Option.{some}
use native.Mathlib.Omega.{arith}
use os_tasks.Prelude.Lists.{length, get_elem?, set, take, drop, length-drop}

module _ {ℓ} {A : Type ℓ} where
  pub get_elem?-drop :
      (xs : List A) (i : ℕ) (x : A) (ys : List A) → drop i xs ≡ x ∷ ys → get_elem? xs i ≡ some x
  get_elem?-drop [] zero x ys e =
      absurd (let f : 0 ≡ suc (length ys) = ap (λ (l : List A). length l) e in omega arith)
  get_elem?-drop [] (suc i) x ys e =
      absurd (let f : 0 ≡ suc (length ys) = ap (λ (l : List A). length l) e in omega arith)
  get_elem?-drop (z ∷ xs) zero x ys e = ap (λ l. get_elem? l 0) e
  get_elem?-drop (z ∷ xs) (suc i) x ys e = get_elem?-drop xs i x ys e

  drop_one : (xs : List A) (i : ℕ) → drop (suc i) xs ≡ drop 1 (drop i xs)
  drop_one xs zero = refl
  drop_one [] (suc i) = refl
  drop_one (z ∷ xs) (suc i) = drop_one xs i

  pub drop_next :
      (xs : List A) (i : ℕ) (x : A) (ys : List A) → drop i xs ≡ x ∷ ys → drop (i + 1) xs ≡ ys
  drop_next xs i x ys e =
      ap (λ k. drop k xs) (let f : i + 1 ≡ suc i = omega arith in f) ∙ drop_one xs i ∙ ap (drop 1) e

  pub set_same : (xs : List A) (i : ℕ) (x : A) → get_elem? xs i ≡ some x → set xs i x ≡ xs
  set_same [] i x e = refl
  set_same (z ∷ xs) zero x e = ground (arith, e)
  set_same (z ∷ xs) (suc i) x e = ap (λ l. z ∷ l) (set_same xs i x e)

  pub drop-set : (xs : List A) (i j : ℕ) (x : A) → i < j → drop j (set xs i x) ≡ drop j xs
  drop-set xs i zero x h = absurd (omega arith)
  drop-set [] i (suc j) x h = refl
  drop-set (z ∷ xs) zero (suc j) x h = refl
  drop-set (z ∷ xs) (suc i) (suc j) x h = drop-set xs i j x (omega arith)

  pub take-set :
      (xs : List A) (i : ℕ) (x : A)
      → i < length xs
      → take (suc i) (set xs i x) ≡ take i xs ++ (x ∷ [])
  take-set [] i x h = absurd (omega arith)
  take-set (z ∷ xs) zero x h = refl
  take-set (z ∷ xs) (suc i) x h = ap (λ l. z ∷ l) (take-set xs i x (omega arith))

  pub drop_in : (xs : List A) (j : ℕ) (x : A) (ys : List A) → drop j xs ≡ x ∷ ys → j < length xs
  drop_in xs j x ys e =
      let f : length (drop j xs) ≡ suc (length ys) = ap (λ (l : List A). length l) e in
      omega (arith, length-drop j xs)

  pub set-set : (xs : List A) (i : ℕ) (x y : A) → set (set xs i x) i y ≡ set xs i y
  set-set [] i x y = refl
  set-set (z ∷ xs) zero x y = refl
  set-set (z ∷ xs) (suc i) x y = ap (λ l. z ∷ l) (set-set xs i x y)

  -- An index is in use exactly where it is below the length.
  pub get_elem?-in : (xs : List A) (i : ℕ) → i < length xs → (x : A) × (get_elem? xs i ≡ some x)
  get_elem?-in [] i h = absurd (omega arith)
  get_elem?-in (x ∷ xs) zero h = (x, refl)
  get_elem?-in (x ∷ xs) (suc i) h = get_elem?-in xs i (omega arith)

  pub get_elem?-below : (xs : List A) (i : ℕ) (x : A) → get_elem? xs i ≡ some x → i < length xs
  get_elem?-below [] i x e = ground arith
  get_elem?-below (y ∷ xs) zero x e = omega arith
  get_elem?-below (y ∷ xs) (suc i) x e = omega (arith, get_elem?-below xs i x e)

  pub drop_here :
      (xs : List A) (i : ℕ) (x : A) → get_elem? xs i ≡ some x → drop i xs ≡ x ∷ drop (i + 1) xs
  drop_here [] i x e = ground arith
  drop_here (y ∷ xs) zero x e = ground (arith, e)
  drop_here (y ∷ xs) (suc i) x e =
      drop_here xs i x e
      ∙ ap (λ k. x ∷ drop k (y ∷ xs)) (let f : suc (i + 1) ≡ suc i + 1 = omega arith in f)

  pub take-set_end : (xs : List A) (i : ℕ) (x : A) → take i (set xs i x) ≡ take i xs
  take-set_end [] i x = refl
  take-set_end (y ∷ xs) zero x = refl
  take-set_end (y ∷ xs) (suc i) x = ap (λ l. y ∷ l) (take-set_end xs i x)
