-- ===== src/RoundBuffer/Tests.antt =====
-- Runs of round_buffer.c on small buffers.
use os_tasks.Prelude.{
  ℕ, min, ◌≡◌, refl, some, List, [], ◌∷◌, length, take, positions, reads, arith, get_elem?,
}
use os_tasks.RoundBuffer.{
  RoundBuffer, iovec, buf_reading_iov, buf_writing_iov, buf_write, buf_read, Received, received,
  Sent, sent, count,
}
use os_tasks.RoundBuffer.Inv.{IsValid, contents}
use os_tasks.RoundBuffer.Reading.{buf_write_drops}
use os_tasks.RoundBuffer.Writing.{buf_read_appends}
use os_tasks.RoundBuffer.Overwrite.{buf_read_wrapped}

-- 8, then 9, with free places on both sides.
abbrev middle : RoundBuffer
middle = record { offset = 1; length = 2; capacity = 5; buffer = 0 ∷ 8 ∷ 9 ∷ 0 ∷ 0 ∷ [] }

-- 7, 8, then 9, round the end of the storage.
abbrev wrapped : RoundBuffer
wrapped = record { offset = 3; length = 3; capacity = 5; buffer = 9 ∷ 0 ∷ 0 ∷ 7 ∷ 8 ∷ [] }

abbrev delivers : List ℕ → ℕ → Received
delivers xs room = received (take room xs)

abbrev accepts : ℕ → List ℕ → Sent
accepts n xs = sent (min n (length xs))

middle-IsValid : IsValid middle
middle-IsValid = omega arith

wrapped-IsValid : IsValid wrapped
wrapped-IsValid = omega arith

contents-wrapped : contents wrapped ≡ 7 ∷ 8 ∷ 9 ∷ []
unfolding reads positions
contents-wrapped = refl

iovecs_of_wrapped :
    (buf_reading_iov wrapped ≡ iovec 3 2 ∷ iovec 0 1 ∷ [])
    × (buf_writing_iov wrapped ≡ iovec 0 3 ∷ [])
unfolding buf_reading_iov buf_writing_iov
iovecs_of_wrapped = (refl, refl)

buf_write_drops_example :
    (buf' : RoundBuffer) × (buf_write (accepts 2) wrapped ≡ (count 2, buf'))
    × (contents buf' ≡ 9 ∷ [])
    × IsValid buf'
unfolding reads positions
buf_write_drops_example =
    buf_write_drops (accepts 2) wrapped 2 wrapped-IsValid (λ e. omega arith) refl

buf_read_appends_example :
    (buf' : RoundBuffer) × (buf_read (delivers (4 ∷ 5 ∷ 6 ∷ 7 ∷ [])) middle ≡ (count 3, buf'))
    × (contents buf' ≡ 8 ∷ 9 ∷ 4 ∷ 5 ∷ 6 ∷ [])
    × IsValid buf'
unfolding reads positions
buf_read_appends_example =
    buf_read_appends (delivers (4 ∷ 5 ∷ 6 ∷ 7 ∷ [])) middle (4 ∷ 5 ∷ 6 ∷ []) middle-IsValid
      (omega arith) (omega arith) refl (omega arith)

-- The unread 9 becomes a 4.
buf_read_wrapped_example :
    (get_elem? (contents wrapped) 2 ≡ some 9)
    × (get_elem? (contents (buf_read (delivers (4 ∷ [])) wrapped).1) 2 ≡ some 4)
buf_read_wrapped_example =
    buf_read_wrapped (delivers (4 ∷ [])) wrapped 4 [] wrapped-IsValid (omega arith) (omega arith)
      refl
