-- ===== src/Manager/Closing.antt =====
-- `close_sockets` closes and shuts down once.
use os_tasks.Prelude.{◌≡◌, true, false, [], arith}
use os_tasks.Connection.{Connection, PollFd, is_alive, is_closed, should_close, should_close_socket}
use os_tasks.Manager.{close_socket, must_shut}

-- The body of `close_sockets` on what it has left does nothing more: no descriptor is closed or shut
-- down a second time.
pub close_socket_again :
    (p : PollFd) (conn : Connection)
    → close_socket (close_socket p conn).0 (close_socket p conn).1
      ≡ ((close_socket p conn).0, (close_socket p conn).1, [])
unfolding close_socket is_closed should_close_socket should_close is_alive must_shut
close_socket_again p conn = ground arith

-- A socket whose connection is not yet closed is closed exactly if the connection is at its end or
-- neither direction is alive; then all its states are closed.
pub close_socket_closes :
    (p : PollFd) (conn : Connection)
    → is_closed conn.state ≡ false
    → should_close_socket conn ≡ true
    → (is_closed (close_socket p conn).1.state ≡ true)
      × (is_alive (close_socket p conn).1.in_state ≡ false)
      × (is_alive (close_socket p conn).1.out_state ≡ false)
unfolding close_socket is_closed is_alive
close_socket_closes p conn e f = ground arith
