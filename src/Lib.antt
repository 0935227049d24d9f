-- ===== src/Lib.antt =====
-- A file synchronisation service: clients keep a directory the same as a directory on a server, a
-- master server serves them, and backup servers repeat what the master does and vote for a new
-- master when it falls silent. The model is of the server, of the client, and of what they share.
--
-- Parts, with the file that models each:
--   * `PacketType`, `Packet`: `commons/packet.hpp`, `commons/packet.cpp`. The header is the memory of
--     the struct on x86-64.
--   * `Socket`: `commons/socket/socket.cpp`. `read_packet` and `write_packet` over a descriptor,
--     `Datagram` for one packet in one datagram, and `Server` for the listening sockets of
--     `server/comms/socket/server_socket.cpp`.
--   * `File`, `FileManager`, `User`: the classes of `commons/file_manager` and `commons/user`. Copies
--     of a `User` share the array of its connections, so the arrays live in a heap.
--   * `Controllers`: `server/comms/controllers`.
--   * `Manager`: `server/comms/manager/manager.cpp`. `Users` has its map, `Broadcast` its loops over
--     connections and one round of `manage`, `Workers` the threads of one slot as a step relation,
--     `Requests`, `Files` and `Handler` the branches of `handle_connection`. The state that the
--     threads share is the record `Server`.
--   * `Router`: `server/comms/router/router.cpp`. `login` is the branch for LOGIN_REQ; `Handoff` is
--     the step relation of the two threads that share the master socket, and `Handshake` how a new
--     master tells the clients of the former one where it is.
--   * `InternalRouter`: `server/comms/router/internal_router.cpp`. `Signature` wraps a packet with the
--     name of its user, `Broadcast` sends it to the backups, `Backup` is the loop `keepalive` of a
--     backup, and `Vote` is the loop `while (voting)` of `start`. `Vote/Election` is that loop in all
--     backups of a ring at once, as a step relation on the packets that are on their way, and under
--     a schedule.
--     `Vote/Start` leads from the end of the keepalive to that loop. `Master` takes backups in.
--     `Member` is what a backup does to join, and `Succession` the rest of `main` of `server/main.cpp`,
--     up to the loop of the router: how a server follows one master after the other and becomes one.
--   * `Client`: `client/main.cpp` and `client/backend`. `InputManager` turns the lines that the user
--     types into packets, `SyncManager` the events of the watched directory; each leaves one packet at
--     a time for the loop of `main`, which `Main` and `Start` model. `SyncManager/Watcher` is the thread
--     that reads the events. `Listener` is `packet_listener`: what the client does with a packet that
--     arrives. `State` has what these threads share. `Connection` is
--     `client/frontend/socket/client_socket.cpp`, with the thread that waits for a new master.
--   * `Ui`: `commons/ui`. The screen and its streams, the `Logger`, and in `Threads` the thread that
--     draws with the threads that log, as a step relation on the accesses to what they share.
--   * `EndToEnd`: the client and the server together: an upload, a download, a deletion and a
--     synchronisation, from the line that is typed to the disk at the other end; a backup that joins a
--     master, hears of a login, and takes its place, or follows a second master; a backup whose master is
--     silent; a client that
--     hears of a new master.
--   * `Bytes`, `Text`, `Prelude`: memory, strings and shared helpers. `Tests` has concrete runs.
--
-- The operating system and the C++ library are the parameter `Os`. A piece of stateful code is a
-- function from the state to an `Outcome`: a result, an exception, a wait for ever, the end of the
-- process, undefined behaviour, or fuel used up. The loops that read take fuel, and one round more
-- than the bytes to read is enough where no read fails; the loops over a listing take the length of
-- the listing, and a name needs at least 14 bytes of it. The loop of the vote and that of the listener
-- take fuel for their rounds, which nothing in the code bounds; the ring of backups takes none. So do
-- the loop of a backup over its masters, that of `main` in the client, and that of the thread which
-- watches the directory, for which one round more than the sleeps before `stop_sync` is enough. All
-- other loops are structural: the keepalive follows the list of what `select` finds, and what the
-- interface reads of a stream is never more than its length.
--
-- What the source keeps in an `int` is narrowed to 32 bits where it comes from a wider number, and a
-- count of bytes that an `int` does not hold is undefined behaviour, as is a read past the end of a
-- block: `File::from_data` makes one for data without a NUL.
--
-- Where a loop or a call sleeps while other threads change what it looks at, what they do in each sleep is an
-- argument; where the order of single accesses matters, the threads are a step relation.
--
-- Not modelled: the calls of the logger in the other parts, with what they read, which are output; the
-- start and the join of the threads in
-- both `main` functions, the signal handlers, and the timers, which are calls of the system; what a
-- move of the elements of `others` does to the threads that refer to them; an id of a backup beyond the
-- range of `int`; the code in comments, of which `input_manager.cpp` has a hundred lines; and code that
-- nothing calls (`read_backups`, `set_backups`, `timeout`).
pub mod Prelude
pub mod Bytes
pub mod Os
pub mod PacketType
pub mod Packet
pub mod Socket
pub mod Text
pub mod FileManager
pub mod File
pub mod User
pub mod Controllers
pub mod InternalRouter
pub mod Manager
pub mod Router
pub mod Client
pub mod Ui
pub mod EndToEnd
pub mod Tests
