-- ===== src/Tests/Servers.antt =====
-- A backup that joins, one that joins second, one that asks whether its master is alive, and a client
-- that hears of a new master.
use dropbox_ufrgs_sisop.Prelude.{◌≡◌, refl, [], ◌∷◌, ◌++◌, true, false, arith, replicate}
use dropbox_ufrgs_sisop.Prelude.Int.{pos}
use dropbox_ufrgs_sisop.Prelude.Outcome.{done}
use dropbox_ufrgs_sisop.Bytes.{Bytes}
use dropbox_ufrgs_sisop.Text.{text}
use dropbox_ufrgs_sisop.Os.{Os}
use dropbox_ufrgs_sisop.Packet.{header, of_header, build_packet, copy_bytes, header_size}
use dropbox_ufrgs_sisop.Socket.{Socket, write_packet, read_packet, read_loop}
use dropbox_ufrgs_sisop.Socket.Datagram.{udp_server}
use dropbox_ufrgs_sisop.InternalRouter.Broadcast.{Peer}
use dropbox_ufrgs_sisop.InternalRouter.Master.{handle_backup, your_id_packet, keepalive_answer}
use dropbox_ufrgs_sisop.InternalRouter.Member.{BackupClientSocket}
use dropbox_ufrgs_sisop.InternalRouter.Vote.{Voter}
use dropbox_ufrgs_sisop.Router.Handshake.{send_handshakes}
use dropbox_ufrgs_sisop.Client.Connection.{ClientSocket, udp_listener}
use dropbox_ufrgs_sisop.EndToEnd.Keepalive.{keepalive_end_to_end}
use dropbox_ufrgs_sisop.InternalRouter.Backup.{Follower, keepalive_packet, keepalive_round}
use dropbox_ufrgs_sisop.EndToEnd.Reconnect.{datagram, reconnected, reconnect_end_to_end}
use dropbox_ufrgs_sisop.Tests.World.{world}
use dropbox_ufrgs_sisop.Tests.Votes.{voter}

abbrev socket : Socket
socket = record {
  sockfd = 4;
  port = pos 4001;
  is_waiting = false;
  buffer = replicate header_size 0;
}

abbrev pub my_ip : Bytes
my_ip = text "10.0.0.2"

abbrev pub peer : Peer
peer = record { server_ip = []; server_port = pos 0; socket = socket; flag = true }

abbrev pub joining : BackupClientSocket
joining = record {
  socket = socket;
  server = record { server_ip = text "10.0.0.1"; server_port = pos 4051 };
}

-- The id, on its way to the backup.
abbrev stream : Bytes
stream = header (replicate 4 0) (your_id_packet 0 my_ip) ++ (your_id_packet 0 my_ip).payload

-- The socket of the backup when it has read the id.
abbrev pub informed : Socket
informed = record socket { buffer = header (replicate 4 0) (your_id_packet 0 my_ip) }

-- A backup with no neighbour.
abbrev alone : Voter
alone = record voter { adjacent = record { server_ip = []; server_port = pos 0 } }

-- An operating system with the handshake of a master at port 8080 on its way.
abbrev listening : Os
listening = record world { recvfrom = λ s fd n. (datagram (replicate 4 0) 8080, s) }

abbrev client : ClientSocket
client = record { socket = socket; server_address = text "10.0.0.1"; server_port = pos 4001 }

reconnect_end_to_end_example :
    (send_handshakes world (pos 8) 8080 ((1 ∷ []) ∷ []) []
      ≡ done tt (world.sendto [] (pos 8) (datagram (replicate 4 0) 8080) (1 ∷ [])))
    × (udp_listener listening (text "ana") client [] ≡ done (reconnected 7 8080 client, true) [])
unfolding write_packet header build_packet udp_server
reconnect_end_to_end_example =
    reconnect_end_to_end listening world (text "ana") 8080 7 20 client (omega arith) (1 ∷ [])
      (pos 8) (pos 8) [] [] [] [] [] [] [] refl refl refl refl refl refl refl

abbrev pub follower : Follower
follower = record {
  users = [];
  adjacent = record { server_ip = []; server_port = pos 0 };
  client_socket = socket;
  half_timeout = false;
  ended = false;
}

-- The answer of the master, on its way.
abbrev answer : Bytes
answer = header (replicate 4 0) keepalive_answer ++ keepalive_answer.payload

keepalive_end_to_end_example :
    (keepalive_round world 18 false follower answer
      ≡ done (record follower { half_timeout = true }) answer)
    × (handle_backup world 0 keepalive_packet (record { state = []; others = peer ∷ [] })
        ≡ done tt (record { state = []; others = peer ∷ [] }))
    × (keepalive_round world 18 true (record follower { half_timeout = true }) answer
        ≡ done
            (record follower {
              client_socket = record socket { buffer = header (replicate 4 0) keepalive_answer };
            })
            [])
unfolding write_packet read_packet read_loop of_header header copy_bytes build_packet
    keepalive_packet keepalive_answer
keepalive_end_to_end_example =
    keepalive_end_to_end world world 18 0 17 17 follower
      (record socket { buffer = header (replicate 4 0) keepalive_answer }) answer answer answer []
      peer (record { state = []; others = peer ∷ [] }) [] refl refl refl refl refl
