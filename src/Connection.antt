-- ===== src/Connection.antt =====
-- 34-35. Port forwarding/manager.h and manager.c: connections, their state flags and their poll
-- entries. A flag byte is the record of its bits; a `short` of poll events is the record of the
-- two bits that the program uses. An address is an opaque number.
pub mod Polling
mod Tests
use os_tasks.Prelude.{
  ℕ, Bool, true, false, not, ◌&&◌, ◌||◌, Option, none, some, ◌>>=◌, List, if◌then◌else◌, ℤ, pos,
  negsuc,
}
use os_tasks.RoundBuffer.{
  RoundBuffer, buf_create, buf_full, buf_empty, buf_read, buf_write, Received, Sent, Errno, eagain,
  eintr, econnreset, epipe, enotconn, other, IoResult, count, failed, no_iov,
}

-- CS_NEW, CS_EOF, CS_CLOSED, CS_DELETE and CS_STOPPED.
pub record Flags : Type 0 where
  pub cs_new : Bool
  pub cs_eof : Bool
  pub cs_closed : Bool
  pub cs_delete : Bool
  pub cs_stopped : Bool

abbrev pub no_flags : Flags
no_flags = record {
  cs_new = false;
  cs_eof = false;
  cs_closed = false;
  cs_delete = false;
  cs_stopped = false;
}

-- `struct connection`
pub record Connection : Type 0 where
  pub id : ℤ
  pub state : Flags
  pub in_state : Flags
  pub out_state : Flags
  pub address : ℕ
  pub in_buf : RoundBuffer
  pub out_buf : RoundBuffer

unfoldable pub is_alive : Flags → Bool
is_alive s = not (s.cs_eof || s.cs_closed || s.cs_delete)

unfoldable pub is_stopped : Flags → Bool
is_stopped s = s.cs_stopped

unfoldable pub is_closed : Flags → Bool
is_closed s = s.cs_closed

unfoldable pub should_close : Flags → Bool
should_close s = s.cs_eof || s.cs_delete

unfoldable pub should_close_socket : Connection → Bool
unfolding should_close is_alive
should_close_socket c =
    should_close c.state || (not (is_alive c.in_state) && not (is_alive c.out_state))

unfoldable pub should_delete : Flags → Bool
should_delete s = s.cs_delete && s.cs_closed

-- What the calls of `malloc` in `make_connection` give, in their order.
pub record Allocations : Type 0 where
  pub in_ptr : Option (List ℕ)
  pub in_res : Bool
  pub out_ptr : Option (List ℕ)
  pub out_res : Bool
  pub connection : Bool

unfoldable pub make_connection :
    Allocations → (addr in_buf_size out_buf_size : ℕ) (id : ℤ) → Option Connection
make_connection a addr in_buf_size out_buf_size id =
    buf_create a.in_ptr a.in_res in_buf_size >>= λ in_buf.
    buf_create a.out_ptr a.out_res out_buf_size >>= λ out_buf.
    if a.connection
    then some (record {
      id = id;
      state = no_flags;
      in_state = no_flags;
      out_state = no_flags;
      address = addr;
      in_buf = in_buf;
      out_buf = out_buf;
    })
    else none

-- POLLIN and POLLOUT.
pub record Events : Type 0 where
  pub pollin : Bool
  pub pollout : Bool

abbrev pub no_events : Events
no_events = record { pollin = false; pollout = false }

abbrev pub pollin_only : Events
pollin_only = record { pollin = true; pollout = false }

abbrev pub pollout_only : Events
pollout_only = record { pollin = false; pollout = true }

-- `struct pollfd`
pub record PollFd : Type 0 where
  pub fd : ℤ
  pub events : Events
  pub revents : Events

-- `~n` of an `int`.
unfoldable pub complement : ℤ → ℤ
complement (pos n) = negsuc n
complement (negsuc n) = pos n

abbrev pub is_negative : ℤ → Bool
is_negative (pos n) = false
is_negative (negsuc n) = true

-- `events & ~mask`, `events | mask` and whether a mask is 0.
abbrev pub without : Events → Events → Events
without e mask = record {
  pollin = e.pollin && not mask.pollin;
  pollout = e.pollout && not mask.pollout;
}

abbrev pub with_events : Events → Events → Events
with_events e mask = record {
  pollin = e.pollin || mask.pollin;
  pollout = e.pollout || mask.pollout;
}

abbrev pub is_zero : Events → Bool
is_zero e = not (e.pollin || e.pollout)

unfoldable pub clear_pollfd_flags : PollFd → Events → PollFd
unfolding complement
clear_pollfd_flags p mask =
    let events = without p.events mask in
    if is_zero events && not (is_negative p.fd)
    then record p { events = events; fd = complement p.fd }
    else record p { events = events }

unfoldable pub set_pollfd_flags : PollFd → Events → PollFd
unfolding complement
set_pollfd_flags p mask = if is_zero mask then p else record p {
  fd = if is_negative p.fd then complement p.fd else p.fd;
  events = with_events p.events mask;
}

-- CAUSE_NONE, CAUSE_EOF and CAUSE_ERROR.
pub data Cause : Type 0 where
  cause_none cause_eof cause_error : Cause

-- A result of -1 comes with its `errno`; -2 is `no_iov`.
unfoldable pub get_rw_error_cause : IoResult → Cause
get_rw_error_cause (failed eagain) = cause_none
get_rw_error_cause (failed eintr) = cause_none
get_rw_error_cause (failed econnreset) = cause_eof
get_rw_error_cause (failed epipe) = cause_eof
get_rw_error_cause (failed enotconn) = cause_error
get_rw_error_cause (failed other) = cause_error
get_rw_error_cause (count ℕ.zero) = cause_eof
get_rw_error_cause (count (ℕ.suc n)) = cause_none
get_rw_error_cause no_iov = cause_none

abbrev pub is_cause_none : Cause → Bool
is_cause_none cause_none = true
is_cause_none cause_eof = false
is_cause_none cause_error = false

-- The first half of `receive`: the read, and the end of the direction.
unfoldable pub receive_data : (readv : ℤ → ℕ → Received) → PollFd → Connection → Connection
receive_data readv p conn =
    if p.revents.pollin && not (buf_full conn.in_buf)
    then (let (res, buf) = buf_read (readv p.fd) conn.in_buf in
        if is_cause_none (get_rw_error_cause res)
        then record conn { in_buf = buf }
        else record conn { in_buf = buf; in_state = record (conn.in_state) { cs_eof = true } })
    else conn

unfoldable pub receive : (readv : ℤ → ℕ → Received) → PollFd → Connection → PollFd × Connection
receive readv p conn =
    if not (is_alive conn.in_state) || is_stopped conn.state
    then (p, conn)
    else let conn = receive_data readv p conn in
      (
        if buf_full conn.in_buf || not (is_alive conn.in_state)
            then clear_pollfd_flags p pollin_only
            else set_pollfd_flags p pollin_only,
        conn,
      )

-- The same for `transmit`.
unfoldable pub transmit_data : (writev : ℤ → List ℕ → Sent) → PollFd → Connection → Connection
transmit_data writev p conn =
    if p.revents.pollout && not (buf_empty conn.out_buf)
    then (let (res, buf) = buf_write (writev p.fd) conn.out_buf in
        if is_cause_none (get_rw_error_cause res)
        then record conn { out_buf = buf }
        else record conn { out_buf = buf; out_state = record (conn.out_state) { cs_eof = true } })
    else conn

unfoldable pub transmit : (writev : ℤ → List ℕ → Sent) → PollFd → Connection → PollFd × Connection
transmit writev p conn =
    if not (is_alive conn.out_state) || is_stopped conn.state
    then (p, conn)
    else let conn = transmit_data writev p conn in
      (
        if buf_empty conn.out_buf || not (is_alive conn.out_state)
            then clear_pollfd_flags p pollout_only
            else set_pollfd_flags p pollout_only,
        conn,
      )
