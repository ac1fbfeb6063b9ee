-- ===== src/RoundBuffer/Writing.antt =====
-- What enters a buffer: `buf_create`, the writing iovecs, `buf_advance_write_ptr` and `buf_read`.
use os_tasks.Prelude.{
  ℕ, ◌+◌, ◌-◌, ◌^◌, ◌≤◌, ◌<◌, min, ◌≡◌, refl, ◌∙◌, ◌⊎◌, inl, inr, true, false, some, List, [], ◌++◌,
  append-nil, arith, ◌==◌, is_nil, span, positions, reads, fill, length, length-positions,
  positions_wrap, reads-fill_end, length-fill,
}
use os_tasks.RoundBuffer.{
  RoundBuffer, buf_create, buf_free_length, buf_writing_iov, spans, buf_advance_write_ptr, Received,
  received, read_failed, count, buf_read, Errno,
}
use os_tasks.RoundBuffer.Inv.{IsValid, IsUnwrapped, contents}

-- Given storage of the size asked for, `buf_create` gives an empty valid buffer of that capacity;
-- it fails exactly if one of the two allocations fails.
pub buf_create_lem :
    (ptr : List ℕ) (capacity : ℕ)
    → length ptr ≡ capacity
    → 0 < capacity
    → capacity ≤ 2 ^ 62
    → (buf : RoundBuffer) × (buf_create (some ptr) true capacity ≡ some buf)
      × IsValid buf
      × (contents buf ≡ [])
      × (buf.capacity ≡ capacity)
unfolding buf_create reads positions
buf_create_lem ptr capacity h p k = (
  record { offset = 0; length = 0; capacity = capacity; buffer = ptr },
  refl,
  omega arith,
  refl,
  refl,
)

pub buf_free_length_lem :
    (buf : RoundBuffer) → IsValid buf → buf_free_length buf ≡ buf.capacity - buf.length
unfolding buf_free_length
buf_free_length_lem buf v = omega arith

-- Unless the data goes round the end, the writing iovecs cover the free places, in order.
pub spans-buf_writing_iov :
    (buf : RoundBuffer)
    → IsValid buf
    → IsUnwrapped buf
    → spans (buf_writing_iov buf)
      ≡ positions buf.capacity (buf.offset + buf.length) (buf.capacity - buf.length)
unfolding buf_writing_iov spans positions span
spans-buf_writing_iov buf v u = ground (
  arith,
  positions_wrap buf.capacity (buf.offset + buf.length) (buf.capacity - buf.length),
  append-nil (span 0 buf.offset),
)

-- What a buffer is after `xs` were stored behind its data.
pub record Appended (buf : RoundBuffer) (xs : List ℕ) (out : RoundBuffer) : Type 0 where
  pub holds : contents out ≡ contents buf ++ xs
  pub length_now : out.length ≡ buf.length + length xs
  pub same_offset : out.offset ≡ buf.offset
  pub same_capacity : out.capacity ≡ buf.capacity
  pub valid : IsValid out

-- Bytes put at the free places in order, and counted.
abbrev pub appended : RoundBuffer → List ℕ → RoundBuffer
appended buf xs = record buf {
  buffer =
      fill buf.buffer (positions buf.capacity (buf.offset + buf.length) (buf.capacity - buf.length))
        xs;
  length = buf.length + length xs;
}

pub appended-Appended :
    (buf : RoundBuffer) (xs : List ℕ)
    → IsValid buf
    → buf.length + length xs ≤ buf.capacity
    → Appended buf xs (appended buf xs)
appended-Appended buf xs v h = record {
  holds =
      reads-fill_end 0 buf.buffer buf.capacity buf.offset buf.length (buf.capacity - buf.length) xs
        (omega arith) h (omega arith);
  length_now = refl;
  same_offset = refl;
  same_capacity = refl;
  valid = omega (
    arith,
    length-fill buf.buffer
        (positions buf.capacity (buf.offset + buf.length) (buf.capacity - buf.length)) xs,
  );
}

-- `buf_advance_write_ptr` counts the new bytes in, as many as there is room for.
pub buf_advance_write_ptr_lem :
    (buf : RoundBuffer) (n : ℕ)
    → IsValid buf
    → buf_advance_write_ptr buf n ≡ (
      min n (buf.capacity - buf.length),
      record buf { length = buf.length + min n (buf.capacity - buf.length) },
    )
unfolding buf_advance_write_ptr
buf_advance_write_ptr_lem buf n v = ground arith

min_self : (n m : ℕ) → n ≤ m → min n m ≡ n
min_self n m h = omega arith

-- The bytes filled in at the free places are counted in by `buf_advance_write_ptr`.
pub buf_advance_write_ptr-appended :
    (buf : RoundBuffer) (xs : List ℕ)
    → IsValid buf
    → length xs ≤ buf.capacity - buf.length
    → let places = positions buf.capacity (buf.offset + buf.length) (buf.capacity - buf.length) in
      (buf_advance_write_ptr (record buf { buffer = fill buf.buffer places xs }) (length xs)).1
      ≡ appended buf xs
buf_advance_write_ptr-appended buf xs v h =
    let places = positions buf.capacity (buf.offset + buf.length) (buf.capacity - buf.length) in
    rw (
      buf_advance_write_ptr_lem (record buf { buffer = fill buf.buffer places xs }) (length xs)
          (omega (arith, length-fill buf.buffer places xs)),
      min_self (length xs) (buf.capacity - buf.length) h,
    )

pub buf_writing_iov_nil :
    (buf : RoundBuffer) → IsValid buf → is_nil (buf_writing_iov buf) ≡ (buf.length == buf.capacity)
unfolding buf_writing_iov
buf_writing_iov_nil buf v = ground arith

ne_of_lt : (n m : ℕ) → n < m → (n == m) ≡ false
ne_of_lt n m h = ground arith

-- Where bytes arrive, they are filled in at the writing iovecs and counted, up to the room.
pub buf_read_stored :
    (readv : ℕ → Received) (buf : RoundBuffer) (is xs : List ℕ)
    → IsValid buf
    → buf.length < buf.capacity
    → spans (buf_writing_iov buf) ≡ is
    → readv (length is) ≡ received xs
    → buf_read readv buf ≡ (
      count (length xs),
      record buf {
        buffer = fill buf.buffer is xs;
        length = buf.length + min (length xs) (buf.capacity - buf.length);
      },
    )
unfolding buf_read
buf_read_stored readv buf is xs v h s e = rw (
  buf_writing_iov_nil buf v,
  ne_of_lt buf.length buf.capacity h,
  s,
  e,
  s,
  buf_advance_write_ptr_lem (record buf { buffer = fill buf.buffer is xs }) (length xs)
      (omega (arith, length-fill buf.buffer is xs)),
)

-- With room, and data that does not go round the end, `buf_read` offers all the room to `readv`,
-- and appends what it delivers.
pub buf_read_received :
    (readv : ℕ → Received) (buf : RoundBuffer) (xs : List ℕ)
    → IsValid buf
    → IsUnwrapped buf
    → buf.length < buf.capacity
    → readv (buf.capacity - buf.length) ≡ received xs
    → length xs ≤ buf.capacity - buf.length
    → buf_read readv buf ≡ (count (length xs), appended buf xs)
buf_read_received readv buf xs v u h e k =
    buf_read_stored readv buf is xs v h (spans-buf_writing_iov buf v u)
      (rw (length-positions buf.capacity (buf.offset + buf.length) (buf.capacity - buf.length)) e)
    ∙ rw (min_self (length xs) (buf.capacity - buf.length) k)
  where
    is : List ℕ
    is = positions buf.capacity (buf.offset + buf.length) (buf.capacity - buf.length)

-- A full buffer is left alone, and so is one at which `readv` fails.
pub buf_read_unchanged :
    (readv : ℕ → Received) (buf : RoundBuffer)
    → IsValid buf
    → (buf.length ≡ buf.capacity) ⊎ ((n : ℕ) → (err : Errno) × (readv n ≡ read_failed err))
    → (buf_read readv buf).1 ≡ buf
unfolding buf_read
buf_read_unchanged readv buf v (inl full) = ground (arith, buf_writing_iov_nil buf v)
buf_read_unchanged readv buf v (inr fails) =
    let (err, e) = fails (length (spans (buf_writing_iov buf))) in ground arith

-- With room, and data that does not go round the end, `buf_read` offers all the room to `readv`;
-- the bytes that `readv` delivers, at most as many, come behind the contents, their number is the
-- result, and the buffer stays valid.
pub buf_read_appends :
    (readv : ℕ → Received) (buf : RoundBuffer) (xs : List ℕ)
    → IsValid buf
    → IsUnwrapped buf
    → buf.length < buf.capacity
    → readv (buf.capacity - buf.length) ≡ received xs
    → length xs ≤ buf.capacity - buf.length
    → (buf' : RoundBuffer) × (buf_read readv buf ≡ (count (length xs), buf'))
      × (contents buf' ≡ contents buf ++ xs)
      × IsValid buf'
buf_read_appends readv buf xs v u h e k =
    let a = appended-Appended buf xs v (omega arith) in
    (appended buf xs, buf_read_received readv buf xs v u h e k, a.holds, a.valid)
