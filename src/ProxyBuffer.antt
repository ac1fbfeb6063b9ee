-- ===== src/ProxyBuffer.antt =====
-- 33. Proxy/round_buffer.c and round_buffer.h: the proxy's byte ring, with the same record as that of
-- the port forwarding, but other functions.
pub mod Same
mod Tests
use os_tasks.Prelude.{
  ℕ, ◌%◌, Bool, Option, none, some, List, [], ◌∷◌, ◌++◌, ltb, leb, ◌==◌, if◌then◌else◌, is_nil,
  add_size, sub_size, reads, fill, length,
}
use os_tasks.RoundBuffer.{
  RoundBuffer, Iovec, iovec, spans, Received, received, read_failed, Sent, sent, write_failed,
  IoResult, count, failed, no_iov,
}

-- `ptr` is what `malloc` gives; `none` is -1.
unfoldable pub rb_init : (ptr : Option (List ℕ)) (capacity : ℕ) → Option RoundBuffer
rb_init none capacity = none
rb_init (some ptr) capacity =
    some (record { offset = 0; length = 0; capacity = capacity; buffer = ptr })

unfoldable pub rb_full : RoundBuffer → Bool
rb_full buf = buf.length == buf.capacity

unfoldable pub rb_empty : RoundBuffer → Bool
rb_empty buf = buf.length == 0

-- The filled entries of `iov`; their number is the result.
pub make_write_iov : RoundBuffer → List Iovec
make_write_iov buf =
    if buf.length == buf.capacity
    then []
    else let part_start = add_size buf.offset buf.length in
      (if ltb part_start buf.capacity
        then iovec part_start (sub_size buf.capacity part_start) ∷ []
        else [])
      ++ (if ltb 0 buf.offset then iovec 0 buf.offset ∷ [] else [])

pub make_read_iov : RoundBuffer → List Iovec
make_read_iov buf =
    if buf.length == 0
    then []
    else let end = add_size buf.offset buf.length in
      if leb end buf.capacity
      then iovec buf.offset buf.length ∷ []
      else iovec buf.offset (sub_size buf.capacity buf.offset)
        ∷ iovec 0 (sub_size end buf.capacity)
        ∷ []

-- What `write_rb` does with the buffer when `writev` has written `res` bytes.
pub after_write : (res : ℕ) → RoundBuffer → RoundBuffer
after_write res buf =
    if res == buf.length then record buf { length = 0; offset = 0 } else record buf {
      length = sub_size buf.length res;
      offset = add_size buf.offset res % buf.capacity;
    }

-- `writev` is given the bytes at the iovecs.
pub write_rb : (writev : List ℕ → Sent) → RoundBuffer → IoResult × RoundBuffer
write_rb writev buf =
    let iov = make_read_iov buf in
    if is_nil iov then (no_iov, buf) else elim (writev (reads 0 buf.buffer (spans iov))) [
      | sent n ↦ (count n, after_write n buf)
      | write_failed e ↦ (failed e, buf)
    ]

-- `readv` is given the room at the iovecs, and its bytes are stored there in order.
pub read_rb : (readv : ℕ → Received) → RoundBuffer → IoResult × RoundBuffer
read_rb readv buf =
    let iov = make_write_iov buf in
    if is_nil iov then (no_iov, buf) else elim (readv (length (spans iov))) [
      | received xs ↦ (
        count (length xs),
        record buf {
          buffer = fill buf.buffer (spans iov) xs;
          length = add_size buf.length (length xs);
        },
      )
      | read_failed e ↦ (failed e, buf)
    ]
