-- ===== src/Tests/Failovers.antt =====
-- A login at a master with a backup, and a backup that takes the place of its master.
use mathlib.Core.List.{Perm}
use dropbox_ufrgs_sisop.Prelude.{◌≡◌, refl, List, [], ◌∷◌, ◌++◌, true, false, arith, replicate}
use dropbox_ufrgs_sisop.Prelude.Int.{ℤ, pos}
use dropbox_ufrgs_sisop.Prelude.Outcome.{done}
use dropbox_ufrgs_sisop.Bytes.{Bytes}
use dropbox_ufrgs_sisop.Text.{text, find}
use dropbox_ufrgs_sisop.Text.Numbers.{to_string}
use dropbox_ufrgs_sisop.Packet.{Packet, header, of_header, build_packet, copy_bytes}
use dropbox_ufrgs_sisop.Socket.{Socket, write_packet, read_packet, read_loop}
use dropbox_ufrgs_sisop.Socket.Server.{ServerSocket}
use dropbox_ufrgs_sisop.FileManager.{create_directory}
use dropbox_ufrgs_sisop.Manager.{Server}
use dropbox_ufrgs_sisop.Manager.Users.{add_user, add_connection, find_user}
use dropbox_ufrgs_sisop.User.{
  get_active_connections_count, count_active, push_connection, push_slot,
}
use dropbox_ufrgs_sisop.Router.{login, login_address}
use dropbox_ufrgs_sisop.Router.Handshake.{send_handshakes}
use dropbox_ufrgs_sisop.InternalRouter.Master.{your_id_packet}
use dropbox_ufrgs_sisop.InternalRouter.Member.{join_packet}
use dropbox_ufrgs_sisop.InternalRouter.Backup.{receive, add_address, keepalive_packet}
use dropbox_ufrgs_sisop.InternalRouter.Backup.Replication.{login_packet}
use dropbox_ufrgs_sisop.InternalRouter.Signature.RoundTrip.{signed}
use dropbox_ufrgs_sisop.InternalRouter.Succession.{follow_masters}
use dropbox_ufrgs_sisop.InternalRouter.Succession.Context.{addresses_of}
use dropbox_ufrgs_sisop.InternalRouter.Succession.Heir.{nothing, Hears}
use dropbox_ufrgs_sisop.EndToEnd.Login.{login_end_to_end}
use dropbox_ufrgs_sisop.Socket.Server.{new_server_socket, bind_and_listen}
use dropbox_ufrgs_sisop.Socket.Datagram.{udp_client}
use dropbox_ufrgs_sisop.Text.Numbers.{atoi}
use dropbox_ufrgs_sisop.InternalRouter.Succession.{main}
use dropbox_ufrgs_sisop.InternalRouter.Member.{BackupClientSocket, new_backup_client_socket}
use dropbox_ufrgs_sisop.EndToEnd.Launch.{launch_end_to_end, command_line}
use dropbox_ufrgs_sisop.EndToEnd.Failover.{failover_end_to_end, told, polls_of}
use dropbox_ufrgs_sisop.Tests.World.{world}
use dropbox_ufrgs_sisop.Tests.Users.{at, serving}
use dropbox_ufrgs_sisop.Tests.Logins.{request}
use dropbox_ufrgs_sisop.Tests.Servers.{follower, peer, joining, my_ip, informed}

-- The address of the client, in memory that held zeros.
abbrev pub address : Bytes
address = 0 ∷ 0 ∷ 78 ∷ 152 ∷ 127 ∷ 0 ∷ 0 ∷ 1 ∷ replicate 8 0

abbrev pub padding : Bytes
padding = replicate 4 0

abbrev master : Server world
master = record (serving (at 4 ∷ at 0 ∷ [])) { others = peer ∷ [] }

abbrev accepting : Server world
accepting = record (serving (at 4 ∷ at 6 ∷ [])) { others = peer ∷ []; locked = true }

login_end_to_end_example :
    (login world (at 6) request master
      ≡ done tt
          (record (add_connection world (text "ana") (at 6) (record master { locked = true })).0 {
            state = [];
            locked = false;
          }))
    × (receive world (signed padding (login_packet address) (text "ana")) follower []
        ≡ done (record follower { users = (text "ana", address ∷ []) ∷ [] }) [])
unfolding find_user add_user add_connection push_connection get_active_connections_count
    count_active write_packet header build_packet find create_directory add_address push_slot
    login_address
login_end_to_end_example =
    login_end_to_end world world (at 6) (text "ana") (text "10.0.0.9") address refl (omega arith)
      (omega arith) request (text "ana:10.0.0.9") peer master (record master { locked = true }) _ _
      [] [] _ _ _ follower [] [] _ refl refl refl refl refl refl refl refl refl refl refl refl refl

-- The id of the backup, and then a login, on their way to it.
abbrev pub hello : Packet
hello = signed padding (login_packet address) (text "ana")

abbrev pub arriving : Bytes
arriving = header padding hello ++ hello.payload

abbrev stream : Bytes
stream = header padding (your_id_packet 0 my_ip) ++ ((your_id_packet 0 my_ip).payload ++ arriving)

abbrev pub logins : List (Bytes × Bytes)
logins = (text "ana", address) ∷ []

abbrev last_socket : Socket
last_socket = record informed { buffer = header padding hello }

hears : Hears world 60 logins informed arriving last_socket []
unfolding read_packet read_loop of_header header copy_bytes build_packet create_directory
hears =
    Hears.login padding (text "ana") address (pos 0) refl (omega arith) refl refl refl refl nothing

abbrev pub listening : ServerSocket
listening = record { sockfd = pos 3; queue_size = pos 5; port = pos 4052; is_waiting = false }

failover_end_to_end_example :
    (context : List Bytes) × (follow_masters world 3 9 60
        (λ _. polls_of world logins)
        my_ip
        (pos 4002)
        listening
        joining
        stream
      ≡ done context [])
    × Perm context (addresses_of logins)
    × ((fd : ℤ)
        → send_handshakes world fd 4002 context [] ≡ done tt (told world fd 4002 context []))
unfolding write_packet read_packet read_loop of_header header copy_bytes build_packet your_id_packet
    join_packet to_string keepalive_packet
failover_end_to_end_example =
    failover_end_to_end world my_ip 4002 logins 2 9 60 30 17 (λ _. polls_of world logins) listening
      joining informed last_socket stream stream stream arriving [] [] (omega arith) (omega arith)
      (omega arith) refl refl refl refl hears refl

-- The sockets of a backup that is started with this command line.
abbrev master_socket : ServerSocket
master_socket = record { sockfd = pos 7; queue_size = pos 5; port = pos 4002; is_waiting = false }

abbrev internal_socket : ServerSocket
internal_socket = record master_socket { port = pos 4052 }

abbrev starting : BackupClientSocket
starting = record {
  socket = record { sockfd = 7; port = pos 4051; is_waiting = false; buffer = replicate 16 0 };
  server = record { server_ip = text "10.0.0.1"; server_port = pos 4051 };
}

abbrev started : Socket
started = record starting.socket { buffer = header padding (your_id_packet 0 my_ip) }

abbrev ending : Socket
ending = record starting.socket { buffer = header padding hello }

hears_started : Hears world 60 logins started arriving ending []
unfolding read_packet read_loop of_header header copy_bytes build_packet create_directory
hears_started =
    Hears.login padding (text "ana") address (pos 0) refl (omega arith) refl refl refl refl nothing

launch_end_to_end_example :
    (context : List Bytes) × (main world 3 9 60
        (λ _. polls_of world logins)
        (command_line world (text "server") (text "4002") (text "10.0.0.1") (text "4001") my_ip)
        stream
      ≡ done true (world.close (told world (pos 8) 4002 context []) 8))
    × Perm context (addresses_of logins)
unfolding write_packet read_packet read_loop of_header header copy_bytes build_packet your_id_packet
    join_packet to_string keepalive_packet new_server_socket bind_and_listen
    new_backup_client_socket udp_client atoi
launch_end_to_end_example =
    launch_end_to_end world (text "server") (text "4002") (text "10.0.0.1") (text "4001") my_ip 4002
      logins 2 9 60 30 17 8 master_socket internal_socket starting started ending stream stream
      stream stream stream stream stream arriving [] [] [] [] (omega arith) (omega arith)
      (omega arith) refl refl refl refl refl refl refl refl refl hears_started refl refl refl
