-- ===== src/ReadLine.antt =====
-- 5,6. File/read_line.c (7. mmap/read_line.c is the same): a buffered reader of lines with a timeout.
-- What the system's calls give is an argument. `none` is an access outside of the buffer, the use
-- of `bytes_read` before it is set, or the end of the fuel or of the given results.
pub mod Consume
pub mod Collect
pub mod Supply
pub mod Whole
mod Tests
use os_tasks.Prelude.{
  ℕ, zero, suc, ◌+◌, ◌-◌, Bool, true, false, Option, none, some, ◌>>=◌, List, [], ◌∷◌, ◌++◌, ◌==◌,
  leb, if◌then◌else◌, is_nil, ℤ, length, get_elem?, reads, span, take, drop,
}
use os_tasks.RoundBuffer.{Received, received, read_failed, Errno}

-- `struct buffer`
pub record Buffer : Type 0 where
  pub buf : List ℕ
  pub cap : ℕ
  pub pos : ℕ
  pub len : ℕ

-- `struct file`
pub record File : Type 0 where
  pub fd : ℤ
  pub buf : Buffer

abbrev pub newline : ℕ
newline = 10

pub make_buf : (buf : Option (List ℕ)) (res_allocated : Bool) (cap : ℕ) → Option Buffer
make_buf buf res_allocated cap = buf >>= λ storage.
    if res_allocated then some (record { buf = storage; cap = cap; pos = 0; len = 0 }) else none

pub make_buffered_file :
    (buf : Option (List ℕ)) (res_allocated f_allocated : Bool) (fd : ℤ) (buf_size : ℕ) → Option File
make_buffered_file buf res_allocated f_allocated fd buf_size =
    make_buf buf res_allocated buf_size >>= λ b.
    if f_allocated then some (record { fd = fd; buf = b }) else none

-- The loop of `buf_consume_line`, with `n` rounds left: `cnt` at its end.
pub find_newline : (n i : ℕ) (buf : List ℕ) (pos : ℕ) → Option ℕ
find_newline zero i buf pos = some i
find_newline (suc n) i buf pos = get_elem? buf (pos + i) >>= λ b.
    let rest = find_newline n (i + 1) buf pos in if b == newline then some (i + 1) else rest

-- The copied bytes, whose number is the result, and the buffer.
unfoldable pub buf_consume_line : Buffer → (size : ℕ) → Option (List ℕ × Buffer)
buf_consume_line buf size =
    find_newline (if leb buf.len size then buf.len else size) 0 buf.buf buf.pos >>= λ cnt.
    some
      (reads 0 buf.buf (span buf.pos cnt), record buf { pos = buf.pos + cnt; len = buf.len - cnt })

-- What `select` gives: whether the input and the timer are ready.
pub data Ready : Type 0 where
  select_failed : Ready
  ready : (input timer : Bool) → Ready

-- The results of the calls of one round that finds the buffer empty.
pub record Round : Type 0 where
  pub selected : Ready
  pub bytes : Received

-- RL_FAIL, RL_EOF, RL_TIMEOUT, or the line.
pub data Line : Type 0 where
  line : List ℕ → Line
  rl_fail rl_eof rl_timeout : Line

-- What becomes of a buffer that is to be filled; `at_end` is a read of 0 bytes.
pub data Filled : Type 0 where
  filled : Buffer → Filled
  at_end fill_failed timed_out : Filled

-- `read` stores its bytes at the start of the storage.
pub store_read : Received → Buffer → Filled
store_read (received []) buf = at_end
store_read (received (x ∷ xs)) buf = filled (record buf {
  buf = (x ∷ xs) ++ drop (suc (length xs)) buf.buf;
  pos = 0;
  len = suc (length xs);
})
store_read (read_failed err) buf = fill_failed

-- The reading of `read_line`; with a timer, by the result of `select`.
pub fill_buffer : (timer : Bool) → Round → Buffer → Option Filled
fill_buffer timer round buf =
    if timer
    then elim round.selected [
      | select_failed ↦ some fill_failed
      | ready input expired ↦
          if expired
          then some timed_out
          else if input
          then some (store_read round.bytes buf)
          else none
    ]
    else some (store_read round.bytes buf)

abbrev pub ends_line : List ℕ → Bool
ends_line [] = false
ends_line (x ∷ []) = x == newline
ends_line (x ∷ y ∷ xs) = ends_line (y ∷ xs)

-- The buffer with data for the next copy, the rounds left, and how the reading ended.
pub next_data : (timer : Bool) → List Round → Buffer → Option (Filled × List Round)
next_data timer rounds buf =
    if buf.len == 0
    then elim rounds [
      | [] ↦ none
      | round ∷ rounds ↦ fill_buffer timer round buf >>= λ f. some (f, rounds)
    ]
    else some (filled buf, rounds)

-- The loop of `read_line` with `size` bytes of room; `res` are the bytes so far.
pub read_loop :
    ℕ
    → (timer : Bool) → List Round
    → (res : List ℕ) (size : ℕ) → Buffer
    → Option (Line × List Round × Buffer)
read_loop zero timer rounds res size buf = none
read_loop (suc fuel) timer rounds res size buf =
    if size == 0
    then some (line res, rounds, buf)
    else (next_data timer rounds buf >>= λ (f, rounds). elim f [
      | at_end ↦ some (if is_nil res then rl_eof else line (res ++ (newline ∷ [])), rounds, buf)
      | fill_failed ↦ some (rl_fail, rounds, buf)
      | timed_out ↦ some (rl_timeout, rounds, buf)
      | filled buf ↦ buf_consume_line buf size >>= λ (xs, buf).
          let rest = read_loop fuel timer rounds (res ++ xs) (size - length xs) buf in
          if ends_line (res ++ xs) then some (line (res ++ xs), rounds, buf) else rest
    ])

-- One byte of the room is kept for the terminator. The rounds that were not used are left for the
-- next call.
pub read_line : (timer : Bool) → List Round → File → (size : ℕ) → Option (Line × List Round × File)
read_line timer rounds f size =
    if size == 0
    then some (line [], rounds, f)
    else (read_loop size timer rounds [] (size - 1) f.buf >>= λ (l, rounds, b).
        some (l, rounds, record f { buf = b }))
