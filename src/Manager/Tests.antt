-- ===== src/Manager/Tests.antt =====
-- Runs of the table of connections.
use os_tasks.Prelude.{
  ℕ, zero, suc, ◌<◌, ◌≡◌, refl, inr, arith, true, some, none, List, [], ◌∷◌, pos, replicate,
}
use os_tasks.RoundBuffer.{RoundBuffer, received, sent, eintr}
use os_tasks.Connection.{Allocations, Connection, Flags, no_flags, PollFd, no_events, pollin_only}
use os_tasks.Manager.{Slot, Table, Call, shrink}
use os_tasks.Manager.Poll.{Environment, cm_poll, accepted, polled, poll_failed}
use os_tasks.Manager.Live.{LiveAt, IsTable, ids}
use os_tasks.Manager.Accepting.{NewIds}
use os_tasks.Manager.Rounds.{cm_poll_lem}
use os_tasks.Manager.Shrink.{Shrunk, shrink_lem}

abbrev buffer : RoundBuffer
buffer = record { offset = 0; length = 0; capacity = 2; buffer = 0 ∷ 0 ∷ [] }

abbrev connection : ℕ → Flags → Connection
connection id state = record {
  id = pos id;
  state = state;
  in_state = no_flags;
  out_state = no_flags;
  address = 0;
  in_buf = buffer;
  out_buf = buffer;
}

abbrev gone : Flags
gone = record no_flags { cs_closed = true; cs_delete = true }

abbrev entry : ℕ → PollFd
entry n = record { fd = pos n; events = pollin_only; revents = no_events }

abbrev slot : ℕ → Slot
slot a = record { conn = some a; pfd = entry a }

abbrev unused : Slot
unused = record { conn = none; pfd = entry 0 }

-- The second of three connections is to go.
abbrev table : Table
table = record {
  manager = record {
    buf_size = 2;
    connections_count = 3;
    pipe = pos 4;
    acceptor = entry 5;
    pipe_in = entry 6;
    slots = slot 0 ∷ slot 1 ∷ slot 2 ∷ unused ∷ [];
  };
  objects = connection 1 no_flags ∷ connection 2 gone ∷ connection 3 no_flags ∷ [];
}

shrink_example :
    (t' : Table) × (shrink table ≡ some t')
    × (t'.objects ≡ table.objects)
    × Shrunk table.objects 0 (slot 0 ∷ slot 1 ∷ slot 2 ∷ []) table.manager t'.manager
shrink_example = shrink_lem table (omega arith) (
  (0, connection 1 no_flags, refl, refl),
  ((1, connection 2 gone, refl, refl), ((2, connection 3 no_flags, refl, refl), tt)),
)

-- The same table with all of its slots.
abbrev full_table : Table
full_table = record table {
  manager = record (table.manager) { slots = slot 0 ∷ slot 1 ∷ slot 2 ∷ replicate 1019 unused };
}

live_slots : (j : ℕ) → j < 3 → LiveAt 3 full_table.manager.slots j
live_slots zero h = (slot 0, 0, refl, refl, omega arith)
live_slots (suc zero) h = (slot 1, 1, refl, refl, omega arith)
live_slots (suc (suc zero)) h = (slot 2, 2, refl, refl, omega arith)
live_slots (suc (suc (suc j))) h = absurd (omega arith)

full_table-IsTable : IsTable full_table
full_table-IsTable = record { size = refl; bound = omega arith; live = live_slots }

abbrev granted : Allocations
granted = record {
  in_ptr = some (0 ∷ 0 ∷ []);
  in_res = true;
  out_ptr = some (0 ∷ 0 ∷ []);
  out_res = true;
  connection = true;
}

-- A signal interrupts `poll`, then a client arrives.
abbrev environment : Environment
environment = record {
  poll_results =
      poll_failed eintr ∷ polled pollin_only no_events (pollin_only ∷ no_events ∷ []) ∷ [];
  pipe_read = none;
  allocations = granted;
  accept_result = accepted 9 1;
  readv = λ fd room. received (7 ∷ []);
  writev = λ fd xs. sent 0;
}

cm_poll_example :
    (cause : ℕ) × (t' : Table) × (calls : List Call) × (cm_poll environment full_table
      ≡ some (cause, t', calls))
    × IsTable t'
    × NewIds (ids full_table.objects) (ids t'.objects)
cm_poll_example =
    cm_poll_lem environment full_table full_table-IsTable
      (record {
        in_storage = (0 ∷ 0 ∷ [], refl);
        in_made = refl;
        out_storage = (0 ∷ 0 ∷ [], refl);
        out_made = refl;
        made = refl;
      })
      (inr tt)
