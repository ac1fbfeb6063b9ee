-- ===== src/Codec/Escape.antt =====
-- The messages of the tunnel as lists of bytes: the specification of `encode` and `decode`.
use os_tasks.Prelude.{
  ℕ, suc, ◌-◌, ◌≤◌, ◌<◌, ◌≡◌, refl, Bool, true, false, ◌||◌, List, [], ◌∷◌, ◌++◌, arith, ltb,
  lt→ltb, ◌==◌, if◌then◌else◌, length, length-append, take,
}
use native.Mathlib.Decide.{dec_lt}
use os_tasks.Codec.{end_byte, esc_byte}

abbrev pub special : ℕ → Bool
special x = (x == esc_byte) || (x == end_byte)

unfoldable pub escape_byte : ℕ → List ℕ
escape_byte x = if special x then esc_byte ∷ x ∷ [] else x ∷ []

unfoldable pub escape : List ℕ → List ℕ
escape [] = []
escape (x ∷ xs) = escape_byte x ++ escape xs

-- The message with the bytes `xs` for connection `id`.
unfoldable pub message : ℕ → List ℕ → List ℕ
message id xs = end_byte ∷ id ∷ (escape xs ++ (end_byte ∷ []))

-- How many of the bytes have an escaped form that fits in `room` bytes.
unfoldable pub fits : ℕ → List ℕ → ℕ
fits room [] = 0
fits room (x ∷ xs) =
    if ltb room (length (escape_byte x)) then 0 else suc (fits (room - length (escape_byte x)) xs)

pub le→ltb : (a b : ℕ) → b ≤ a → ltb a b ≡ false
le→ltb a b h = ground arith

module _ (room x : ℕ) (xs : List ℕ) where
  pub fits_stop : room < length (escape_byte x) → fits room (x ∷ xs) ≡ 0
  unfolding fits
  fits_stop h = rw (lt→ltb room (length (escape_byte x)) h)

  pub fits_next :
      length (escape_byte x) ≤ room
      → fits room (x ∷ xs) ≡ suc (fits (room - length (escape_byte x)) xs)
  unfolding fits
  fits_next h = rw (le→ltb room (length (escape_byte x)) h)

pub escape_plain : (x : ℕ) → special x ≡ false → escape_byte x ≡ x ∷ []
unfolding escape_byte
escape_plain x e = rw e

pub escape_special : (x : ℕ) → special x ≡ true → escape_byte x ≡ esc_byte ∷ x ∷ []
unfolding escape_byte
escape_special x e = rw e

pub escape_byte_pos : (x : ℕ) → 0 < length (escape_byte x)
unfolding escape_byte
escape_byte_pos x = ground arith

pub fits-nil : (room : ℕ) → fits room [] ≡ 0
unfolding fits
fits-nil room = refl

pub fits-zero : (xs : List ℕ) → fits 0 xs ≡ 0
unfolding fits
fits-zero [] = refl
fits-zero (x ∷ xs) = fits_stop 0 x xs (escape_byte_pos x)

pub fits-le : (room : ℕ) (xs : List ℕ) → fits room xs ≤ length xs
unfolding fits
fits-le room [] = omega arith
fits-le room (x ∷ xs) = ground (arith, fits-le (room - length (escape_byte x)) xs)

-- What `fits` takes does fit.
pub length-escape-fits : (room : ℕ) (xs : List ℕ) → length (escape (take (fits room xs) xs)) ≤ room
unfolding fits escape
length-escape-fits room [] = omega arith
length-escape-fits room (x ∷ xs) = elim (dec_lt room (length (escape_byte x))) [
  | yes h ↦ rw (fits_stop room x xs h) (omega arith)
  | no h ↦ rw (fits_next room x xs (omega arith)) (
      omega (
        arith,
        length-escape-fits (room - length (escape_byte x)) xs,
        length-append (escape_byte x) (escape (take (fits (room - length (escape_byte x)) xs) xs)),
      ))
]

-- One byte more than `fits` says does not fit.
pub fits_maximal :
    (room : ℕ) (xs : List ℕ)
    → fits room xs < length xs
    → room < length (escape (take (suc (fits room xs)) xs))
unfolding fits escape
fits_maximal room [] h = absurd (omega arith)
fits_maximal room (x ∷ xs) h = elim (dec_lt room (length (escape_byte x))) [
  | yes l ↦ rw (fits_stop room x xs l) (omega (arith, length-append (escape_byte x) []))
  | no l ↦ rw (fits_next room x xs (omega arith)) (
      omega (
        arith,
        fits_maximal (room - length (escape_byte x)) xs
            (omega (arith, fits_next room x xs (omega arith))),
        length-append (escape_byte x)
            (escape (take (suc (fits (room - length (escape_byte x)) xs)) xs)),
      ))
]
