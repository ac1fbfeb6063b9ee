-- ===== src/Lib.antt =====
-- Verification of the larger programs of the repository: "34-35. Port forwarding", a client and a
-- server that carry many TCP connections over one tunnel connection; "33. Proxy", a TCP proxy;
-- "5,6. File" and "7. mmap", which print the lines of a file by their numbers; and of smaller ones:
-- "30. Unix domain socket", "512-tcp-clients", "4. Memory", "25. Pipe" and "1. Process attributes".
--
-- Port forwarding:
-- A controller (controller.c) owns a connection manager (manager.c), which polls the sockets and
-- fills and empties one ring buffer per connection and direction (round_buffer.c), and a pump
-- (pump.c), which moves bytes between the connections' buffers and the tunnel's buffers as escaped
-- messages, and sends the commands that wait in a queue (command_queue.c).
--
-- Prelude: shared notation; Boolean tests, lists, C integers and the places of a ring.
-- RoundBuffer: "34-35. Port forwarding/round_buffer.c". `RoundBuffer` is `struct round_buffer`, each
--   function has its name; Inv holds the invariant and the contents, Reading and Writing the
--   theorems on what leaves and enters a buffer, Overwrite what happens on wrapped data.
-- CmdQueue: "34-35. Port forwarding/command_queue.c"; Fifo refines it to a list.
-- BufIter and Codec: "34-35. Port forwarding/pump.c", the iterator and `encode`, `decode` and
--   `encode_command`. Escape is the specification of a message; EncodeRound, EncodeLoop and
--   EncodeCore lead to Encoding, DecodeRound and DecodeLoop to Decoding.
-- Connection: "34-35. Port forwarding/manager.h" and the functions of manager.c on one connection.
-- Pump: the rest of "34-35. Port forwarding/pump.c": `struct pump`, `recv_from_tunnel` (Incoming),
--   the transfer of commands (Commands) and the order of the connections (Rounds); Objects is the
--   access to connections by address.
-- Manager: the table of connections of "34-35. Port forwarding/manager.c"; Poll is `cm_poll`, making
--   and destroying. Shrink and Closing are on single loops; Live is the invariant of the table; Keeping,
--   Shrinking and Accepting are on the parts of a whole `cm_poll`, which Rounds is on; Connecting is
--   on `cm_connect`, Ends on `destroy_manager`.
-- Controller: "34-35. Port forwarding/controller.c", the ids and the tests of the states; Step is
--   `handle_state_changes`, `on_command` and `update`, Start is `start_controller`. Ids is on the free
--   ids, Sorted on `sort_connections`, Steady and Changes on `handle_state_changes`, Updating and
--   Courses on `update` up to `pump_transfer`, Starting on `start_controller`, Opening on the command for a new
--   connection.
-- Forward: "34-35. Port forwarding/main.c"; Stopping is on the end of the program by a signal.
--
-- The proxy keeps a table of clients, each with two sockets and a ring buffer per direction; a round
-- of its loop polls, accepts a connection, moves bytes both ways for each client, and drops the
-- clients that are done.
--
-- ProxyBuffer: "33. Proxy/round_buffer.c"; Same compares it with RoundBuffer, whose record it shares.
-- Proxy: "33. Proxy/main.c". A slot is `clients[i]` with its two entries of `fds`; Directions is
--   `transfer`, Loop the loop of `main`, its start and its end. Slots is on `shrink_slots`, Transfers
--   and Moves on `transfer`, Table, Serving, Rounds and Run on the table of clients through a round
--   and a whole run.
--
-- The programs on lines scan a file into a list of offsets and lengths (line_list.c) and then answer
-- to the numbers that are typed in, which they read by lines with a time limit (read_line.c).
--
-- ReadLine: "5,6. File/read_line.c"; Consume is on the copying of one line, Collect is what a line is,
--   Supply the data that arrives, Whole the reading of a line from what arrives.
-- LineList: "5,6. File/line_list.c"; a node's address is an index; Segments is on a
--   part of a list, Linked refines a whole one to a list of lines, Freeing is on `free_list`.
-- FileLines: `scan_file`, `print_line` and `print_lines` of "5,6. File/main.c"; Table is the
--   specification of the list of lines, Scanning and Showing are on the scan and on the printing.
-- MappedLines: the same of "7. mmap/main.c", and `load_file`.
-- Console: the rest of both main.c, which is the same text: numbers, input and `main`; Numbers is on
--   what is answered to a number, Timeout on what is printed when none comes. read_line.c and
--   line_list.c of "7. mmap" are copies.
--
-- The smaller programs stand alone, but for names that they share.
--
-- UnixSocket: "30. Unix domain socket/server.c" and client.c; Writing is on `write_all`, Serving on the
--   server.
-- TcpClients: "512-tcp-clients/main.c"; Echo is on a child whose server sends back what it gets.
-- TextMemory: "4. Memory/main.c"; Chain refines the linked list to a list of lines.
-- PipeMessage: "25. Pipe/main.c"; Passing joins the two processes.
-- Attributes: "1. Process attributes/main.c"; Limits is on the options that set and print limits.
--
-- A `size_t` is a natural number with its wrap-around at 2^64 written out; capacities are at most
-- 2^62, far above any object, so that sums do not wrap; the programs on lines, whose sums stay inside a
-- file, have them plain. A byte is a natural number. Memory is a list,
-- an address its index; an access outside of a list is `none`. The loops of `encode` and `decode` run
-- on fuel of one more than the free bytes of the destination, of which each round uses one; that on
-- the commands runs on one more than the number of waiting commands, that of `read_line` on the size
-- of the result, since each round copies a byte, which Whole shows to be enough; `free_list`,
-- `print_lines` and the like run on one more than the nodes of the heap, since a list meets each once.
-- The dialogue of Console runs on fuel that is an argument, one for each line of input. Loops that end
-- by what the system gives, like those of `cm_poll`, of the main programs and around `read` and
-- `write`, run on the list of the given results.
--
-- A `struct connection *` is the index of an object; objects are not reused after `free`. The
-- system's calls are arguments: their results, or functions; so is the pump's command handler. Not
-- modelled are freeing memory (but for `free_list`), messages, the closing of the ends of the pipe in
-- "25. Pipe", and the programs of the other directories, which are short uses of single system
-- calls: of clocks, ids, locks, `fork` and `exec`.
pub mod Prelude
pub mod RoundBuffer
pub mod CmdQueue
pub mod BufIter
pub mod Codec
pub mod Connection
pub mod Pump
pub mod Manager
pub mod Controller
pub mod ReadLine
pub mod LineList
pub mod FileLines
pub mod MappedLines
pub mod Console
pub mod ProxyBuffer
pub mod Proxy
pub mod Forward
pub mod UnixSocket
pub mod TcpClients
pub mod TextMemory
pub mod PipeMessage
pub mod Attributes
