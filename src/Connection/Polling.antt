-- ===== src/Connection/Polling.antt =====
-- The poll entry of a connection: its descriptor survives being disabled, and after `receive` and
-- `transmit` it asks for what the connection can use.
use os_tasks.Prelude.{◌≡◌, refl, true, not, ◌||◌, if◌then◌else◌, arith, ℤ, pos, negsuc}
use os_tasks.Connection.{
  PollFd, Events, is_negative, is_zero, complement, clear_pollfd_flags, set_pollfd_flags, without,
  with_events,
}

-- The descriptor of an entry, also where it is disabled: `cm_get_connection_fd`.
unfoldable pub real_fd : PollFd → ℤ
unfolding complement
real_fd p = if is_negative p.fd then complement p.fd else p.fd

-- An entry that asks for nothing is disabled.
abbrev pub IsQuiet : PollFd → Type 0
IsQuiet p = (is_negative p.fd || not (is_zero p.events)) ≡ true

pub complement-complement : (n : ℤ) → complement (complement n) ≡ n
unfolding complement
complement-complement (pos n) = refl
complement-complement (negsuc n) = refl

pub is_negative-complement : (n : ℤ) → is_negative (complement n) ≡ not (is_negative n)
unfolding complement
is_negative-complement (pos n) = refl
is_negative-complement (negsuc n) = refl

-- `clear_pollfd_flags` removes the flags from the events, keeps the descriptor behind the sign,
-- and leaves an entry without events disabled, if it was so before.
pub clear_pollfd_flags_lem :
    (p : PollFd) (mask : Events)
    → IsQuiet p
    → ((clear_pollfd_flags p mask).events ≡ without p.events mask)
      × (real_fd (clear_pollfd_flags p mask) ≡ real_fd p)
      × IsQuiet (clear_pollfd_flags p mask)
unfolding clear_pollfd_flags real_fd
clear_pollfd_flags_lem p mask q =
    ground (arith, complement-complement p.fd, is_negative-complement p.fd, q)

-- `set_pollfd_flags` adds the flags to the events, keeps the descriptor behind the sign, and leaves
-- an entry without events disabled, if it was so before.
pub set_pollfd_flags_lem :
    (p : PollFd) (mask : Events)
    → IsQuiet p
    → ((set_pollfd_flags p mask).events ≡ with_events p.events mask)
      × (real_fd (set_pollfd_flags p mask) ≡ real_fd p)
      × IsQuiet (set_pollfd_flags p mask)
unfolding set_pollfd_flags real_fd
set_pollfd_flags_lem p mask q =
    ground (arith, complement-complement p.fd, is_negative-complement p.fd, q)
