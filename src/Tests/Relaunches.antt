-- ===== src/Tests/Relaunches.antt =====
-- A backup that loses a vote, joins the winner, and takes its place later.
use mathlib.Core.List.{Perm}
use dropbox_ufrgs_sisop.Prelude.{
  ℕ, ◌≡◌, refl, List, [], ◌∷◌, ◌++◌, true, false, arith, replicate, Bool, some, if◌then◌else◌, ◌==◌,
}
use dropbox_ufrgs_sisop.Prelude.Int.{pos}
use dropbox_ufrgs_sisop.Prelude.Outcome.{done}
use dropbox_ufrgs_sisop.Bytes.{Bytes}
use dropbox_ufrgs_sisop.Text.{text, find, rfind}
use dropbox_ufrgs_sisop.Text.Numbers.{to_string, stoi, atoi}
use dropbox_ufrgs_sisop.PacketType.{code, join_resp, vote}
use dropbox_ufrgs_sisop.Packet.{Packet, header, of_header, build_packet, copy_bytes}
use dropbox_ufrgs_sisop.Socket.{Socket, write_packet, read_packet, read_loop, close_connection}
use dropbox_ufrgs_sisop.Socket.Server.{new_server_socket, accept_connection}
use dropbox_ufrgs_sisop.FileManager.{create_directory}
use dropbox_ufrgs_sisop.InternalRouter.Master.{your_id_packet}
use dropbox_ufrgs_sisop.InternalRouter.Vote.{
  reset_connection, vote_step, end_vote, my_vote, Voter, set_relaunch,
}
use dropbox_ufrgs_sisop.InternalRouter.Vote.Start.{
  context_of, succeed, enter_vote, meet_neighbours, vote_loop,
}
use dropbox_ufrgs_sisop.InternalRouter.Backup.{keepalive_packet, keepalive_round, silent_round}
use dropbox_ufrgs_sisop.InternalRouter.Member.{
  Member, join_packet, join_servers, take_neighbour, take_id, connect_to_server,
}
use dropbox_ufrgs_sisop.InternalRouter.Succession.{
  follow_masters, start, keepalive, after_keepalive, new_internal_router,
}
use dropbox_ufrgs_sisop.InternalRouter.Succession.Context.{addresses_of}
use dropbox_ufrgs_sisop.InternalRouter.Succession.Heir.{nothing, Hears}
use dropbox_ufrgs_sisop.EndToEnd.Failover.{polls_of}
use dropbox_ufrgs_sisop.EndToEnd.Relaunch.{relaunch_end_to_end}
use dropbox_ufrgs_sisop.Tests.World.{world}
use dropbox_ufrgs_sisop.Tests.Servers.{joining, my_ip}
use dropbox_ufrgs_sisop.Tests.Failovers.{padding, hello, arriving, address, logins, listening}

abbrev wire : Packet → Bytes
wire p = header padding p ++ p.payload

abbrev neighbour : Packet
neighbour = build_packet (code join_resp) 0 1 (text "10.0.0.9:4002")

-- The winner of the vote says who it is.
abbrev announcement : Packet
announcement = build_packet (code vote) 1 0 (text "10.0.0.3:4052")

-- What comes from the second master.
abbrev later : Bytes
later = wire (your_id_packet 0 my_ip) ++ arriving

abbrev stream : Bytes
stream = wire neighbour ++ (wire (your_id_packet 1 my_ip) ++ (wire announcement ++ later))

abbrev polls : ℕ → List Bool
polls n = if n == 1 then false ∷ false ∷ [] else polls_of world logins

-- The place that the first master gives.
abbrev placed : Member
placed = record {
  client_socket = record joining {
    socket = record joining.socket { buffer = header padding (your_id_packet 1 my_ip) };
  };
  id = some (pos 1);
  external_ip = my_ip;
  adjacent = record { server_ip = text "10.0.0.9"; server_port = pos 4002 };
}

joined :
    join_servers world 60 my_ip (pos 4002) joining stream ≡ done placed (wire announcement ++ later)
unfolding join_servers take_neighbour take_id connect_to_server write_packet read_packet read_loop
    of_header header copy_bytes build_packet your_id_packet join_packet to_string stoi atoi find
joined = refl

-- The backup when it has lost.
abbrev loser : Voter
loser = record {
  id = 0;
  is_master = false;
  relaunch = true;
  adjacent = record { server_ip = []; server_port = pos 0 };
  client_socket = record {
    sockfd = 7;
    port = pos 4052;
    is_waiting = false;
    buffer = replicate 16 0;
  };
  server = record { server_ip = text "10.0.0.3"; server_port = pos 4052 };
}

lost :
    start world 9 60 (polls 1) listening placed (wire announcement ++ later)
    ≡ done ([], loser) later
unfolding start keepalive keepalive_round silent_round new_internal_router after_keepalive succeed
    enter_vote meet_neighbours vote_loop vote_step end_vote reset_connection my_vote set_relaunch
    context_of new_server_socket accept_connection write_packet read_packet read_loop of_header
    header copy_bytes build_packet keepalive_packet to_string atoi rfind close_connection
lost = refl

abbrev informed : Socket
informed = record loser.client_socket { buffer = header padding (your_id_packet 0 my_ip) }

abbrev ending : Socket
ending = record informed { buffer = header padding hello }

hears : Hears world 60 logins informed arriving ending []
unfolding read_packet read_loop of_header header copy_bytes build_packet create_directory
hears =
    Hears.login padding (text "ana") address (pos 0) refl (omega arith) refl refl refl refl nothing

relaunch_end_to_end_example :
    (context : List Bytes) × (follow_masters world 2 9 60 polls my_ip
        (pos 4002)
        listening
        joining
        stream
      ≡ done context [])
    × Perm context (addresses_of logins)
unfolding write_packet read_packet read_loop of_header header copy_bytes build_packet your_id_packet
    join_packet to_string keepalive_packet
relaunch_end_to_end_example =
    relaunch_end_to_end world my_ip 4002 logins 0 9 60 30 17 polls listening joining placed [] loser
      informed ending stream (wire announcement ++ later) later later later arriving [] []
      (omega arith) (omega arith) (omega arith) joined lost refl refl refl refl refl hears refl
