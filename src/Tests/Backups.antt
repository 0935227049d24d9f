-- ===== src/Tests/Backups.antt =====
-- A backup that hears of an upload and of a deletion, and then of nothing.
use dropbox_ufrgs_sisop.Prelude.{◌≡◌, refl, [], ◌∷◌, ◌++◌, some, false, arith, replicate}
use dropbox_ufrgs_sisop.Prelude.Int.{pos}
use dropbox_ufrgs_sisop.Prelude.Outcome.{done, bind}
use dropbox_ufrgs_sisop.Bytes.{Bytes}
use dropbox_ufrgs_sisop.Text.{text}
use dropbox_ufrgs_sisop.Packet.{Packet, IsPacket, copy_bytes}
use dropbox_ufrgs_sisop.File.{File, to_data, serialize, fill_name}
use dropbox_ufrgs_sisop.File.RoundTrip.{IsFile, payload_of}
use dropbox_ufrgs_sisop.Controllers.{upload}
use dropbox_ufrgs_sisop.InternalRouter.Signature.{sign_packet}
use dropbox_ufrgs_sisop.InternalRouter.Backup.{Follower, receive}
use dropbox_ufrgs_sisop.InternalRouter.Backup.Replication.{receive-upload}
use dropbox_ufrgs_sisop.Tests.World.{world}

abbrev padding : Bytes
padding = replicate 4 0

abbrev follower : Follower
follower = record {
  users = [];
  adjacent = record { server_ip = []; server_port = pos 0 };
  client_socket = record { sockfd = 5; port = pos 4001; is_waiting = false; buffer = [] };
  half_timeout = false;
  ended = false;
}

abbrev note : File
note = record { filename = text "note"; bytes = 1 ∷ 0 ∷ []; file_size = 2 }

note-IsFile : IsFile note
note-IsFile = record {
  name_fits = omega arith;
  name_ends = omega arith;
  size_fits = omega arith;
  owns = refl;
}

abbrev upload_packet : Packet
upload_packet = record {
  type = 6;
  seqn = 0;
  total_size = 0;
  length = 262;
  payload = payload_of note;
}

upload_packet-IsPacket : IsPacket upload_packet
upload_packet-IsPacket = record {
  type_fits = omega arith;
  seqn_fits = omega arith;
  total_size_fits = omega arith;
  length_fits = omega arith;
  owns = refl;
}

receive-upload_example :
    (sp : Packet) × (sign_packet padding upload_packet (text "ana") ≡ some sp)
    × (receive world sp follower [] ≡ bind (upload world note (text "ana") []) (λ _. done follower))
unfolding to_data serialize fill_name copy_bytes
receive-upload_example =
    receive-upload world padding upload_packet (text "ana") upload_packet-IsPacket refl
      (omega arith) (omega arith) note follower [] note-IsFile refl refl refl

abbrev delete_packet : Packet
delete_packet = record {
  type = 13;
  seqn = 0;
  total_size = 0;
  length = 5;
  payload = text "note" ++ (0 ∷ []);
}

delete_packet-IsPacket : IsPacket delete_packet
delete_packet-IsPacket = record {
  type_fits = omega arith;
  seqn_fits = omega arith;
  total_size_fits = omega arith;
  length_fits = omega arith;
  owns = refl;
}
