-- ===== src/Manager/Keeping.antt =====
-- The steps of the loops on one connection keep its id.
use os_tasks.Prelude.{ℕ, ◌≡◌, refl, ◌∙◌, arith, List, Bool-cases, inl, inr, ℤ}
use os_tasks.RoundBuffer.{Received, Sent}
use os_tasks.Connection.{
  Connection, PollFd, is_alive, receive_data, receive, transmit_data, transmit,
}
use os_tasks.Manager.{close_socket}
use os_tasks.Manager.Poll.{want_output, serve}

pub close_socket_id : (p : PollFd) (c : Connection) → (close_socket p c).1.id ≡ c.id
unfolding close_socket
close_socket_id p c = ground arith

pub want_output_id : (p : PollFd) (c : Connection) → (want_output p c).1.id ≡ c.id
unfolding want_output
want_output_id p c = ground arith

receive_data_id :
    (readv : ℤ → ℕ → Received) (p : PollFd) (c : Connection) → (receive_data readv p c).id ≡ c.id
unfolding receive_data
receive_data_id readv p c = ground arith

transmit_data_id :
    (writev : ℤ → List ℕ → Sent) (p : PollFd) (c : Connection)
    → (transmit_data writev p c).id ≡ c.id
unfolding transmit_data
transmit_data_id writev p c = ground arith

receive_id :
    (readv : ℤ → ℕ → Received) (p : PollFd) (c : Connection) → (receive readv p c).1.id ≡ c.id
unfolding receive
receive_id readv p c = ground (arith, receive_data_id readv p c)

transmit_id :
    (writev : ℤ → List ℕ → Sent) (p : PollFd) (c : Connection) → (transmit writev p c).1.id ≡ c.id
unfolding transmit
transmit_id writev p c = ground (arith, transmit_data_id writev p c)

pub serve_id :
    (readv : ℤ → ℕ → Received) (writev : ℤ → List ℕ → Sent) (p : PollFd) (c : Connection)
    → (serve readv writev p c).1.id ≡ c.id
unfolding serve
serve_id readv writev p c = elim (Bool-cases (is_alive c.state)) [
  | inr e ↦ rw e refl
  | inl e ↦
      rw e (transmit_id writev (receive readv p c).0 (receive readv p c).1 ∙ receive_id readv p c)
]
