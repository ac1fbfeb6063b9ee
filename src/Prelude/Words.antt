-- ===== src/Prelude/Words.antt =====
-- C integers: `size_t` with its wrap-around, `int` as an integer, and the Option monad in which a
-- memory access outside its array is `none`.
use Prim.Native.Nat.{ℕ, ◌+◌, ◌-◌, ◌%◌, ◌^◌, ◌≤◌, ◌<◌}
use mathlib.Core.Path.{◌≡◌, refl}
use mathlib.Core.Option.{Option, none, some}
use mathlib.Core.List.{List, [], ◌∷◌}
use native.Mathlib.Omega.{arith}
use os_tasks.Prelude.Tests.{ltb, if◌then◌else◌, lt→ltb}
use os_tasks.Prelude.Lists.{length, set, get_elem?, get_or}

-- `negsuc n` is -(n + 1), which is also `~n`.
pub data ℤ : Type 0 where
  pos : ℕ → ℤ
  negsuc : ℕ → ℤ

abbrev pub add_size : ℕ → ℕ → ℕ
add_size a b = (a + b) % 2 ^ 64

abbrev pub sub_size : ℕ → ℕ → ℕ
sub_size a b = (a + 2 ^ 64 - b) % 2 ^ 64

-- The conversion of a `size_t` to `int`.
abbrev pub int_of_size : ℕ → ℤ
int_of_size n = let w = n % 2 ^ 32 in if ltb w (2 ^ 31) then pos w else negsuc (2 ^ 32 - 1 - w)

infixl 5 ◌>>=◌ ◌>>◌
abbrev pub ◌>>=◌ {ℓ κ} : {A : Type ℓ} {B : Type κ} → Option A → (A → Option B) → Option B
none >>= f = none
some a >>= f = f a

abbrev pub ◌>>◌ {ℓ} : {B : Type ℓ} → Option (Unit {0}) → Option B → Option B
m >> k = m >>= λ _. k

module _ {ℓ} {A : Type ℓ} where
  -- `mem[i] = v`
  unfoldable pub store : List A → ℕ → A → Option (List A)
  store mem i v = if ltb i (length mem) then some (set mem i v) else none

  pub store-eq-set :
      (mem : List A) (i : ℕ) (v : A) → i < length mem → store mem i v ≡ some (set mem i v)
  unfolding store
  store-eq-set mem i v h = ground (arith, lt→ltb i (length mem) h)

  pub store_out : (mem : List A) (i : ℕ) (v : A) → length mem ≤ i → store mem i v ≡ none
  unfolding store
  store_out mem i v h = ground arith

  pub get_elem?-eq-get_or :
      (xs : List A) (i : ℕ) (d : A) → i < length xs → get_elem? xs i ≡ some (get_or xs i d)
  get_elem?-eq-get_or [] i d h = absurd (omega arith)
  get_elem?-eq-get_or (x ∷ xs) ℕ.zero d h = refl
  get_elem?-eq-get_or (x ∷ xs) (ℕ.suc i) d h = get_elem?-eq-get_or xs i d (omega arith)
