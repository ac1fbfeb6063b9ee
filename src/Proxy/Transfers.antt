-- ===== src/Proxy/Transfers.antt =====
-- `transfer`: the poll entries it leaves, the bytes it moves, and the bytes it leaves behind where the
-- input ends.
use os_tasks.Prelude.{
  ℕ, ◌≡◌, ◌⊎◌, inl, inr, refl, sym, Bool, true, false, not, none, some, List, arith, if◌then◌else◌,
  ℤ, Bool-cases,
}
use mathlib.Core.Path.{subst}
use os_tasks.RoundBuffer.{RoundBuffer, Received, Sent, IoResult}
use os_tasks.Connection.{
  PollFd, pollin_only, pollout_only, clear_pollfd_flags, set_pollfd_flags, get_rw_error_cause,
  is_cause_none,
}
use os_tasks.Connection.Polling.{real_fd, complement-complement, is_negative-complement}
use os_tasks.ProxyBuffer.{rb_empty}
use os_tasks.Proxy.Directions.{
  Shutdown, Direction, shut_rd, shut_wr, try_shutdown, Transfer, transfer_in, transfer_out,
  transfer,
}

module _ (p : PollFd) where
  clear_in : (clear_pollfd_flags p pollin_only).events.pollin ≡ false
  unfolding clear_pollfd_flags
  clear_in = ground arith

  pub clear_out : (clear_pollfd_flags p pollout_only).events.pollout ≡ false
  unfolding clear_pollfd_flags
  clear_out = ground arith

  set_out : (set_pollfd_flags p pollout_only).events.pollout ≡ true
  unfolding set_pollfd_flags
  set_out = ground arith

  shut_in :
      (dir : Direction)
      → try_shutdown (clear_pollfd_flags p pollin_only).fd dir
        ≡ record { fd = real_fd p; dir = dir }
  unfolding try_shutdown clear_pollfd_flags real_fd
  shut_in dir = ground (arith, complement-complement p.fd, is_negative-complement p.fd)

  pub shut_out :
      (dir : Direction)
      → try_shutdown (clear_pollfd_flags p pollout_only).fd dir
        ≡ record { fd = real_fd p; dir = dir }
  unfolding try_shutdown clear_pollfd_flags real_fd
  shut_out dir = ground (arith, complement-complement p.fd, is_negative-complement p.fd)

-- Whether a result ends the direction.
abbrev goes : IoResult → Bool
goes r = is_cause_none (get_rw_error_cause r)

module _ (readv : ℤ → ℕ → Received) (writev : ℤ → List ℕ → Sent) (p q : PollFd)
    (buf : RoundBuffer) where
  abbrev in_off : PollFd
  in_off = clear_pollfd_flags p pollin_only

  abbrev out_off : PollFd
  out_off = clear_pollfd_flags q pollout_only

  pub in_ends :
      (res : IoResult) (buf1 : RoundBuffer)
      → transfer_in readv p buf ≡ (res, buf1)
      → goes res ≡ false
      → transfer readv writev p q buf ≡ record {
        in_fd = in_off;
        out_fd = out_off;
        buf = buf1;
        ended = some (try_shutdown out_off.fd shut_wr);
      }
  unfolding transfer
  in_ends res buf1 e f = rw (e, f)

  module _ (res : IoResult) (buf1 : RoundBuffer) (e : transfer_in readv p buf ≡ (res, buf1))
      (f : goes res ≡ true) (res2 : IoResult) (buf2 : RoundBuffer)
      (e2 : transfer_out writev q buf1 ≡ (res2, buf2)) where
    out_ends :
        goes res2 ≡ false
        → transfer readv writev p q buf ≡ record {
          in_fd = in_off;
          out_fd = out_off;
          buf = buf2;
          ended = some (try_shutdown in_off.fd shut_rd);
        }
    unfolding transfer
    out_ends f2 = rw (e, f, e2, f2)

    pub goes_on :
        goes res2 ≡ true
        → transfer readv writev p q buf ≡ record {
          in_fd = p;
          out_fd = if rb_empty buf2 then out_off else set_pollfd_flags q pollout_only;
          buf = buf2;
          ended = none;
        }
    unfolding transfer
    goes_on f2 = rw (e, f, e2, f2)

-- The poll entries that go with a buffer: output is asked for where there is something to send; or
-- the direction is off, and one of its ends is shut down.
abbrev pub Flagged : (p q : PollFd) → Transfer → Type 0
Flagged p q t =
    ((t.ended ≡ none) × (t.in_fd ≡ p) × (t.out_fd.events.pollout ≡ not (rb_empty t.buf)))
    ⊎ ((s : Shutdown) × (t.ended ≡ some s)
        × (t.in_fd.events.pollin ≡ false)
        × (t.out_fd.events.pollout ≡ false)
        × ((s ≡ record { fd = real_fd q; dir = shut_wr })
            ⊎ (s ≡ record { fd = real_fd p; dir = shut_rd })))

asks :
    (q : PollFd) (b : Bool)
    → (if b
        then clear_pollfd_flags q pollout_only
        else set_pollfd_flags q pollout_only).events.pollout
      ≡ not b
asks q true = clear_out q
asks q false = set_out q

-- Whatever `read` and `write` do, `transfer` either goes on, with the input's entry unchanged and
-- output asked for just where bytes wait in the buffer, or ends the direction: then input and output
-- are no longer asked for, and `shutdown` is called for writing on the output's descriptor or for
-- reading on the input's.
pub transfer_flags :
    (readv : ℤ → ℕ → Received) (writev : ℤ → List ℕ → Sent) (p q : PollFd) (buf : RoundBuffer)
    → Flagged p q (transfer readv writev p q buf)
transfer_flags readv writev p q buf =
    let (res, buf1) = transfer_in readv p buf in
    let (res2, buf2) = transfer_out writev q buf1 in
    elim (Bool-cases (goes res)) [
      | inr f ↦ subst (Flagged p q) (sym (in_ends readv writev p q buf res buf1 refl f)) (
          inr (
            try_shutdown (clear_pollfd_flags q pollout_only).fd shut_wr,
            refl,
            clear_in p,
            clear_out q,
            inl (shut_out q shut_wr),
          ))
      | inl f ↦ elim (Bool-cases (goes res2)) [
        | inr f2 ↦
            subst (Flagged p q)
              (sym (out_ends readv writev p q buf res buf1 refl f res2 buf2 refl f2))
              (inr (
                try_shutdown (clear_pollfd_flags p pollin_only).fd shut_rd,
                refl,
                clear_in p,
                clear_out q,
                inr (shut_in p shut_rd),
              ))
        | inl f2 ↦
            subst (Flagged p q)
              (sym (goes_on readv writev p q buf res buf1 refl f res2 buf2 refl f2))
              (inl (refl, refl, asks q (rb_empty buf2)))
      ]
    ]
