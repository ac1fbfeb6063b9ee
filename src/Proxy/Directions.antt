-- ===== src/Proxy/Directions.antt =====
-- 33. Proxy/main.c: `try_shutdown` and `transfer`, which serves one direction of a client.
use os_tasks.Prelude.{ℕ, not, ◌&&◌, Option, none, some, List, if◌then◌else◌, ℤ}
use os_tasks.RoundBuffer.{RoundBuffer, Received, Sent, IoResult, no_iov}
use os_tasks.Connection.{
  pollin_only, pollout_only, PollFd, complement, is_negative, clear_pollfd_flags, set_pollfd_flags,
  get_rw_error_cause, is_cause_none,
}
use os_tasks.ProxyBuffer.{rb_full, rb_empty, write_rb, read_rb}

-- SHUT_RD and SHUT_WR.
pub data Direction : Type 0 where
  shut_rd shut_wr : Direction

-- The arguments with which `try_shutdown` calls `shutdown`.
pub record Shutdown : Type 0 where
  pub fd : ℤ
  pub dir : Direction

unfoldable pub try_shutdown : ℤ → Direction → Shutdown
unfolding complement
try_shutdown fd dir = record { fd = if is_negative fd then complement fd else fd; dir = dir }

-- What `transfer` leaves; `ended` is the shutdown with which it ends the direction and returns -1.
pub record Transfer : Type 0 where
  pub in_fd : PollFd
  pub out_fd : PollFd
  pub buf : RoundBuffer
  pub ended : Option Shutdown

-- The read and the write of `transfer`; without them the result is one that has no cause.
unfoldable pub transfer_in :
    (readv : ℤ → ℕ → Received) → PollFd → RoundBuffer → IoResult × RoundBuffer
transfer_in readv in_fd buf =
    if in_fd.revents.pollin && not (rb_full buf)
    then read_rb (readv in_fd.fd) buf
    else (no_iov, buf)

unfoldable pub transfer_out :
    (writev : ℤ → List ℕ → Sent) → PollFd → RoundBuffer → IoResult × RoundBuffer
transfer_out writev out_fd buf =
    if out_fd.revents.pollout && not (rb_empty buf)
    then write_rb (writev out_fd.fd) buf
    else (no_iov, buf)

unfoldable pub transfer :
    (readv : ℤ → ℕ → Received) (writev : ℤ → List ℕ → Sent) (in_fd out_fd : PollFd)
    → RoundBuffer
    → Transfer
transfer readv writev in_fd out_fd buf =
    let (res, buf) = transfer_in readv in_fd buf in
    let in_off = clear_pollfd_flags in_fd pollin_only in
    let out_off = clear_pollfd_flags out_fd pollout_only in
    if not (is_cause_none (get_rw_error_cause res))
    then record {
      in_fd = in_off;
      out_fd = out_off;
      buf = buf;
      ended = some (try_shutdown out_off.fd shut_wr);
    }
    else let (res, buf) = transfer_out writev out_fd buf in
      if not (is_cause_none (get_rw_error_cause res))
      then record {
        in_fd = in_off;
        out_fd = out_off;
        buf = buf;
        ended = some (try_shutdown in_off.fd shut_rd);
      }
      else record {
        in_fd = in_fd;
        out_fd = if rb_empty buf then out_off else set_pollfd_flags out_fd pollout_only;
        buf = buf;
        ended = none;
      }
