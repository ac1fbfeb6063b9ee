-- ===== src/Proxy/Moves.antt =====
-- The bytes that a direction of a client moves, and those that it leaves behind where the input ends.
use os_tasks.Prelude.{
  ne_zero, ℕ, suc, ◌-◌, ◌≤◌, ◌<◌, ◌≡◌, ◌≢◌, refl, ap, ◌∙◌, true, false, none, some, List, [], ◌∷◌,
  ◌++◌, arith, length, drop, ℤ, length-append, append-nil,
}
use mathlib.Core.Path.{subst}
use os_tasks.RoundBuffer.{RoundBuffer, Received, received, Sent, sent, count}
use os_tasks.RoundBuffer.Inv.{IsValid, IsUnwrapped, contents, length-contents}
use os_tasks.RoundBuffer.Reading.{buf_write_drops}
use os_tasks.RoundBuffer.Writing.{buf_read_appends}
use os_tasks.Connection.{
  PollFd, get_rw_error_cause, is_cause_none, clear_pollfd_flags, pollin_only, pollout_only,
}
use os_tasks.Connection.Polling.{real_fd}
use os_tasks.ProxyBuffer.{rb_full, rb_empty}
use os_tasks.ProxyBuffer.Same.{read_rb_lem, write_rb_lem}
use os_tasks.Proxy.Directions.{shut_wr, try_shutdown, Transfer, transfer_in, transfer_out, transfer}
use os_tasks.Proxy.Transfers.{in_ends, goes_on, clear_out, shut_out}
use os_tasks.Proxy.Loop.{run_direction}

-- `read` delivers no more than it is asked for, and `write` takes no more than it is given.
abbrev pub IsReader : (ℕ → Received) → Type 0
IsReader readv = (k : ℕ) (xs : List ℕ) → readv k ≡ received xs → length xs ≤ k

abbrev pub IsWriter : (List ℕ → Sent) → Type 0
IsWriter writev = (xs : List ℕ) (n : ℕ) → writev xs ≡ sent n → n ≤ length xs

not_full : (buf : RoundBuffer) → buf.length < buf.capacity → rb_full buf ≡ false
unfolding rb_full
not_full buf h = ground arith

not_empty : (buf : RoundBuffer) → buf.length ≢ 0 → rb_empty buf ≡ false
unfolding rb_empty
not_empty buf h = ne_zero buf.length h

module _ (readv : ℤ → ℕ → Received) (p : PollFd) (buf : RoundBuffer) (xs : List ℕ)
    (reader : IsReader (readv p.fd)) (valid : IsValid buf) (unwrapped : IsUnwrapped buf)
    (room : buf.length < buf.capacity) (ready : p.revents.pollin ≡ true)
    (got : readv p.fd (buf.capacity - buf.length) ≡ received xs) where
  transfer_in_lem :
      (buf' : RoundBuffer) × (transfer_in readv p buf ≡ (count (length xs), buf'))
      × (contents buf' ≡ contents buf ++ xs)
      × IsValid buf'
  unfolding transfer_in
  transfer_in_lem =
      let (buf', run, holds, valid') =
        buf_read_appends (readv p.fd) buf xs valid unwrapped room got
          (reader (buf.capacity - buf.length) xs got) in
      (
        buf',
        rw (ready, not_full buf room)
            (read_rb_lem (readv p.fd) buf valid unwrapped (reader (buf.capacity - buf.length))
              ∙ run),
        holds,
        valid',
      )

module _ (writev : ℤ → List ℕ → Sent) (q : PollFd) (buf : RoundBuffer) (n : ℕ)
    (writer : IsWriter (writev q.fd)) (valid : IsValid buf) (filled : buf.length ≢ 0)
    (ready : q.revents.pollout ≡ true) (put : writev q.fd (contents buf) ≡ sent n) where
  transfer_out_lem :
      (buf' : RoundBuffer) × (transfer_out writev q buf ≡ (count n, buf'))
      × (contents buf' ≡ drop n (contents buf))
      × IsValid buf'
  unfolding transfer_out
  transfer_out_lem =
      let (buf', run, holds, valid') = buf_write_drops (writev q.fd) buf n valid filled put in
      (
        buf',
        rw (ready, not_empty buf filled)
            (write_rb_lem (writev q.fd) buf valid
                (λ m e. subst (λ k. m ≤ k) (length-contents buf) (writer (contents buf) m e))
              ∙ run),
        holds,
        valid',
      )

counts : (n : ℕ) → is_cause_none (get_rw_error_cause (count (suc n))) ≡ true
unfolding get_rw_error_cause
counts n = refl

count_ends : is_cause_none (get_rw_error_cause (count 0)) ≡ false
unfolding get_rw_error_cause
count_ends = refl

-- If both ends are ready, the buffer has room and its data does not go round its end, and `read`
-- delivers the bytes xs, some but no more than asked for, and `write` takes the oldest n of what then
-- is in the buffer, some but no more than given, `transfer` goes on, and the buffer holds what it
-- held, followed by xs, less the first n bytes; and it is valid.
pub transfer_moves :
    (readv : ℤ → ℕ → Received) (writev : ℤ → List ℕ → Sent) (p q : PollFd) (buf : RoundBuffer)
    (x : ℕ) (xs : List ℕ) (n : ℕ)
    → IsReader (readv p.fd)
    → IsWriter (writev q.fd)
    → IsValid buf
    → IsUnwrapped buf
    → buf.length < buf.capacity
    → p.revents.pollin ≡ true
    → q.revents.pollout ≡ true
    → readv p.fd (buf.capacity - buf.length) ≡ received (x ∷ xs)
    → writev q.fd (contents buf ++ (x ∷ xs)) ≡ sent (suc n)
    → ((transfer readv writev p q buf).ended ≡ none)
      × (contents (transfer readv writev p q buf).buf ≡ drop (suc n) (contents buf ++ (x ∷ xs)))
      × IsValid (transfer readv writev p q buf).buf
transfer_moves readv writev p q buf x xs n reader writer v u room ready_in ready_out got put =
    let (buf1, run1, holds1, v1) =
      transfer_in_lem readv p buf (x ∷ xs) reader v u room ready_in got in
    let (buf2, run2, holds2, v2) =
      transfer_out_lem writev q buf1 (suc n) writer v1
        (λ e. omega (
          arith,
          length-contents buf1,
          ap (λ (l : List ℕ). length l) holds1,
          length-append (contents buf) (x ∷ xs),
        ))
        ready_out (ap (writev q.fd) holds1 ∙ put) in
    let run =
      goes_on readv writev p q buf (count (length (x ∷ xs))) buf1 run1 (counts (length xs))
        (count (suc n)) buf2 run2 (counts n) in
    rw run (refl, holds2 ∙ ap (drop (suc n)) holds1, v2)

-- If the input has ended, the buffer has room and its data does not go round its end, a direction that
-- is active becomes inactive with the bytes it held still in the buffer: the output is no longer
-- polled and is shut down for writing at once, and later rounds move nothing in this direction,
-- whatever `read` and `write` do.
pub eof_strands :
    (readv : ℤ → ℕ → Received) (writev : ℤ → List ℕ → Sent) (p q : PollFd) (buf : RoundBuffer)
    → IsReader (readv p.fd)
    → IsValid buf
    → IsUnwrapped buf
    → buf.length < buf.capacity
    → p.revents.pollin ≡ true
    → readv p.fd (buf.capacity - buf.length) ≡ received []
    → (t : Transfer) × (run_direction readv writev true p q buf ≡ (t, false))
      × (contents t.buf ≡ contents buf)
      × (t.out_fd.events.pollout ≡ false)
      × (t.ended ≡ some (record { fd = real_fd q; dir = shut_wr }))
      × ((readv' : ℤ → ℕ → Received) (writev' : ℤ → List ℕ → Sent) (p' q' : PollFd)
          → run_direction readv' writev' false p' q' t.buf
            ≡ (record { in_fd = p'; out_fd = q'; buf = t.buf; ended = none }, false))
unfolding run_direction
eof_strands readv writev p q buf reader v u room ready got =
    let (buf1, run1, holds1, v1) = transfer_in_lem readv p buf [] reader v u room ready got in
    let run = in_ends readv writev p q buf (count 0) buf1 run1 count_ends in
    (
      record {
        in_fd = clear_pollfd_flags p pollin_only;
        out_fd = clear_pollfd_flags q pollout_only;
        buf = buf1;
        ended = some (try_shutdown (clear_pollfd_flags q pollout_only).fd shut_wr);
      },
      rw run,
      holds1 ∙ append-nil (contents buf),
      clear_out q,
      ap some (shut_out q shut_wr),
      λ readv' writev' p' q'. refl,
    )
