-- ===== src/Connection/Tests.antt =====
-- Runs of the poll entry's functions of manager.c.
use os_tasks.Prelude.{◌≡◌, refl, pos, negsuc}
use os_tasks.Connection.{
  PollFd, complement, pollin_only, no_events, clear_pollfd_flags, set_pollfd_flags,
}

abbrev reading : PollFd
reading = record { fd = pos 9; events = pollin_only; revents = no_events }

-- The entry is off when it asks for nothing, and comes back with its descriptor.
abbrev off : PollFd
off = record { fd = negsuc 9; events = no_events; revents = no_events }

turned_off : clear_pollfd_flags reading pollin_only ≡ off
unfolding clear_pollfd_flags complement
turned_off = refl

turned_on : set_pollfd_flags off pollin_only ≡ reading
unfolding set_pollfd_flags complement
turned_on = refl
