-- ===== src/RoundBuffer.antt =====
-- 34-35. Port forwarding/round_buffer.c and round_buffer.h: a byte ring of fixed capacity that is
-- filled and emptied through at most two iovecs. A function that changes `*buf` returns the new
-- buffer. An iovec's base is its index in the buffer's storage. The theorems are in the children.
pub mod Inv
pub mod Reading
pub mod Writing
pub mod Overwrite
mod Tests
use os_tasks.Prelude.{
  ℕ, ◌-◌, ◌%◌, Bool, true, Option, none, some, ◌>>=◌, List, [], ◌∷◌, ◌++◌, ltb, leb, ◌==◌,
  if◌then◌else◌, is_nil, ℤ, pos, negsuc, add_size, sub_size, int_of_size, span, reads, fill, length,
  get_elem?,
}

-- `struct round_buffer`; a `uint8_t` is a number.
pub record RoundBuffer : Type 0 where
  pub offset : ℕ
  pub length : ℕ
  pub capacity : ℕ
  pub buffer : List ℕ

-- `struct iovec`, with the base as an index.
pub record Iovec : Type 0 where
  pub iov_base : ℕ
  pub iov_len : ℕ

abbrev pub iovec : ℕ → ℕ → Iovec
iovec base len = record { iov_base = base; iov_len = len }

-- What the two calls of `malloc` give: the storage, and whether the record was allocated.
unfoldable pub buf_create :
    (ptr : Option (List ℕ)) (res_allocated : Bool) (capacity : ℕ) → Option RoundBuffer
buf_create none res_allocated capacity = none
buf_create (some ptr) res_allocated capacity =
    if res_allocated
    then some (record { offset = 0; length = 0; capacity = capacity; buffer = ptr })
    else none

pub buf_full : RoundBuffer → Bool
buf_full buf = buf.length == buf.capacity

unfoldable pub buf_empty : RoundBuffer → Bool
buf_empty buf = buf.length == 0

unfoldable pub buf_data_length : RoundBuffer → ℕ
buf_data_length buf = buf.length

unfoldable pub buf_free_length : RoundBuffer → ℕ
buf_free_length buf = sub_size buf.capacity buf.length

pub buf_capacity : RoundBuffer → ℤ
buf_capacity buf = int_of_size buf.capacity

-- The filled entries of `iov`; their number is the result.
unfoldable pub buf_writing_iov : RoundBuffer → List Iovec
buf_writing_iov buf =
    if buf.length == buf.capacity
    then []
    else let part_start = add_size buf.offset buf.length in
      (if ltb part_start buf.capacity
        then iovec part_start (sub_size buf.capacity part_start) ∷ []
        else [])
      ++ (if ltb 0 buf.offset then iovec 0 buf.offset ∷ [] else [])

unfoldable pub buf_reading_iov : RoundBuffer → List Iovec
buf_reading_iov buf =
    if buf.length == 0
    then []
    else let end = add_size buf.offset buf.length in
      if leb end buf.capacity
      then iovec buf.offset buf.length ∷ []
      else iovec buf.offset (sub_size buf.capacity buf.offset)
        ∷ iovec 0 (sub_size end buf.capacity)
        ∷ []

unfoldable pub buf_advance_read_ptr : RoundBuffer → ℕ → ℕ × RoundBuffer
buf_advance_read_ptr buf n =
    let len = (if ltb buf.length n then buf.length else n) in
    (
      len,
      (if len == buf.length then record buf { length = 0; offset = 0 } else record buf {
        length = sub_size buf.length len;
        offset = add_size buf.offset len % buf.capacity;
      }),
    )

unfoldable pub buf_advance_write_ptr : RoundBuffer → ℕ → ℕ × RoundBuffer
unfolding buf_free_length
buf_advance_write_ptr buf n =
    let max = buf_free_length buf in
    let len = (if ltb max n then max else n) in
    (len, record buf { length = add_size buf.length len })

-- `none` would be a read outside of the storage.
pub buf_peek_byte : RoundBuffer → Option ℤ
unfolding buf_empty
buf_peek_byte buf =
    if buf_empty buf then some (negsuc 0) else get_elem? buf.buffer buf.offset >>= λ b. some (pos b)

-- The indices that the iovecs cover, in order.
unfoldable pub spans : List Iovec → List ℕ
spans [] = []
spans (v ∷ iov) = span v.iov_base v.iov_len ++ spans iov

-- The loop of `buf_peek`, with the bytes that the calls of `memcpy` leave at `ptr`.
pub peek_loop : List ℕ → List Iovec → ℕ → List ℕ
peek_loop buffer [] len = []
peek_loop buffer (v ∷ iov) len =
    let l = (if ltb v.iov_len len then v.iov_len else len) in
    let rest = peek_loop buffer iov (len - l) in
    if ltb 0 len then reads 0 buffer (span v.iov_base l) ++ rest else []

-- `none` is -1; else the copied bytes, whose number is the result.
pub buf_peek : RoundBuffer → ℕ → Option (List ℕ)
buf_peek buf len =
    if is_nil (buf_reading_iov buf)
    then none
    else some (peek_loop buf.buffer (buf_reading_iov buf) len)

-- `errno` after a call that returned -1.
pub data Errno : Type 0 where
  eagain eintr econnreset epipe enotconn other : Errno

-- What `readv` stores at its iovecs, and what `writev` returns.
pub data Received : Type 0 where
  received : List ℕ → Received
  read_failed : Errno → Received

pub data Sent : Type 0 where
  sent : ℕ → Sent
  write_failed : Errno → Sent

-- The result of `buf_write` and `buf_read`: a count, -1 with `errno`, or -2.
pub data IoResult : Type 0 where
  count : ℕ → IoResult
  failed : Errno → IoResult
  no_iov : IoResult

-- `writev` is given the bytes at the iovecs.
unfoldable pub buf_write : (writev : List ℕ → Sent) → RoundBuffer → IoResult × RoundBuffer
buf_write writev buf =
    let iov = buf_reading_iov buf in
    if is_nil iov then (no_iov, buf) else elim (writev (reads 0 buf.buffer (spans iov))) [
      | sent n ↦ (count n, (buf_advance_read_ptr buf n).1)
      | write_failed e ↦ (failed e, buf)
    ]

-- `readv` is given the room at the iovecs, and its bytes are stored there in order.
unfoldable pub buf_read : (readv : ℕ → Received) → RoundBuffer → IoResult × RoundBuffer
buf_read readv buf =
    let iov = buf_writing_iov buf in
    if is_nil iov then (no_iov, buf) else elim (readv (length (spans iov))) [
      | received xs ↦ (
        count (length xs),
        (buf_advance_write_ptr (record buf { buffer = fill buf.buffer (spans iov) xs })
            (length xs)).1,
      )
      | read_failed e ↦ (failed e, buf)
    ]
