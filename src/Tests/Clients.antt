-- ===== src/Tests/Clients.antt =====
-- A client with the disk of one file: a download, an upload, a deletion, a synchronisation, and the packets that
-- its commands leave for the main loop.
use dropbox_ufrgs_sisop.Prelude.{◌≡◌, refl, [], ◌∷◌, ◌++◌, none, some, true, false, arith}
use dropbox_ufrgs_sisop.Prelude.Int.{pos, negsuc}
use dropbox_ufrgs_sisop.Prelude.Outcome.{done, bind}
use dropbox_ufrgs_sisop.Bytes.{Bytes}
use dropbox_ufrgs_sisop.Text.{text}
use dropbox_ufrgs_sisop.PacketType.{code, upload_accept_resp}
use dropbox_ufrgs_sisop.Packet.{Packet, build_packet, header}
use dropbox_ufrgs_sisop.EndToEnd.Delete.{delete_end_to_end}
use dropbox_ufrgs_sisop.Socket.{Socket, write_packet}
use dropbox_ufrgs_sisop.File.{in_directory}
use dropbox_ufrgs_sisop.Manager.{respond, connection}
use dropbox_ufrgs_sisop.Manager.Broadcast.{broadcast_to_user}
use dropbox_ufrgs_sisop.Manager.Requests.{handle_download, handle_upload, handle_delete}
use dropbox_ufrgs_sisop.Manager.Files.Sync.{sync_packets}
use dropbox_ufrgs_sisop.Client.State.{Client}
use dropbox_ufrgs_sisop.Client.SyncManager.{ignore}
use dropbox_ufrgs_sisop.Client.InputManager.{
  new_input_manager, draft_of, new_draft, run_command, sync_dir,
}
use dropbox_ufrgs_sisop.Client.InputManager.Select.{select, blocks, draft_of-select}
use dropbox_ufrgs_sisop.Client.InputManager.Lines.{posted, request}
use dropbox_ufrgs_sisop.Client.Listener.{handle_packet, send_directory}
use dropbox_ufrgs_sisop.Client.Main.{main_round}
use dropbox_ufrgs_sisop.Client.Main.Rounds.{delivered, main_round-posted}
use dropbox_ufrgs_sisop.EndToEnd.Download.{download_end_to_end}
use dropbox_ufrgs_sisop.EndToEnd.Upload.{upload_end_to_end}
use dropbox_ufrgs_sisop.EndToEnd.Sync.{handle_all, store_all, handle_all-sync_packets}
use dropbox_ufrgs_sisop.Tests.Transfers.{disk_os, note, note-IsFile, stored, job, server, Slot}

abbrev pub base : Bytes
base = text "/home/ana"

-- A client with something on its disk.
abbrev pub client : Slot → Client disk_os
client s = record {
  state = s;
  client_soc = record { sockfd = 3; port = pos 4000; is_waiting = false; buffer = [] };
  input_manager = new_input_manager;
  sync_manager = record {
    send = false;
    pac = none;
    should_stop = false;
    should_ignore = false;
    watching = 0;
  };
}

-- The client's note.
abbrev local : Slot
local = some (in_directory (text "/tmp") (text "note"), 1 ∷ 0 ∷ [])

draft_of-select_example :
    draft_of disk_os base (text "download") (text "note") new_draft (client none)
    ≡ select disk_os (text "download") (blocks disk_os base (text "note")) new_draft (client none)
draft_of-select_example =
    draft_of-select disk_os base (text "download") (text "note") new_draft (client none)

main_round-posted_example :
    (main_round disk_os (
        posted disk_os
          (request 12 (text "b"))
          (posted disk_os (request 12 (text "a")) (client none)))
      ≡ done tt (delivered disk_os (request 12 (text "b")) none (client none)))
    × (main_round disk_os (delivered disk_os (request 12 (text "b")) none (client none))
        ≡ done tt (delivered disk_os (request 12 (text "b")) none (client none)))
unfolding write_packet header
main_round-posted_example =
    main_round-posted disk_os (request 12 (text "a")) (request 12 (text "b")) (client none) 18 none
      refl refl

download_end_to_end_example :
    (q answer : Packet) × (run_command disk_os base (text "download note") (client none)
      ≡ done true (posted disk_os q (client none)))
    × (handle_download disk_os job q (server stored) ≡ respond disk_os job answer (server stored))
    × (handle_packet disk_os base answer (client none)
        ≡ done tt (client (some (in_directory base (text "note"), 1 ∷ 0 ∷ []))))
download_end_to_end_example =
    download_end_to_end disk_os disk_os job base note (client none) (client none) (server stored)
      (some (in_directory base (text "note"), 1 ∷ 0 ∷ [])) note-IsFile refl refl refl

upload_end_to_end_example :
    (q broadcast : Packet) × (run_command disk_os base (text "upload /tmp/note") (client local)
      ≡ done true (posted disk_os q (client local)))
    × (handle_upload disk_os job q (server none)
        ≡ bind
            (respond disk_os job
              (build_packet (code upload_accept_resp) 0 0 (text "successfully uploaded file"))
              (server stored))
            (λ _ v.
              bind (broadcast_to_user disk_os (text "ana") (negsuc 0) broadcast v) (λ _. done tt)))
    × (handle_packet disk_os base broadcast (client none)
        ≡ done tt
            (record (client (some (in_directory (base ++ sync_dir) (text "note"), 1 ∷ 0 ∷ []))) {
              sync_manager = ignore (client none).sync_manager;
            }))
upload_end_to_end_example =
    upload_end_to_end disk_os disk_os disk_os job base (text "/tmp") note (client local)
      (server none) stored (client none)
      (some (in_directory (base ++ sync_dir) (text "note"), 1 ∷ 0 ∷ [])) (omega arith) note-IsFile
      refl refl refl refl

handle_all-sync_packets_example :
    handle_all disk_os base (sync_packets 1 1 (note ∷ [])) (client none)
    ≡ bind
        (store_all disk_os base (note ∷ []) (client none))
        (λ _. send_directory disk_os (base ++ sync_dir))
handle_all-sync_packets_example =
    handle_all-sync_packets disk_os base note [] (client none) ((note-IsFile, refl), tt)
      (omega arith)

-- The connection of the user at the server.
abbrev open_socket : Socket
open_socket = record { sockfd = 4; port = pos 0; is_waiting = false; buffer = [] }

delete_end_to_end_example :
    (q broadcast : Packet) × (run_command disk_os base (text "delete note") (client stored)
      ≡ done true (posted disk_os q (client none)))
    × (handle_delete disk_os job q (server stored)
        ≡ bind
            (broadcast_to_user disk_os (text "ana") (pos 4) broadcast (server none))
            (λ _. done tt))
    × (handle_packet disk_os base broadcast (client stored)
        ≡ done tt (record (client none) { sync_manager = ignore (client none).sync_manager }))
unfolding write_packet header build_packet connection
delete_end_to_end_example =
    delete_end_to_end disk_os disk_os disk_os job base (text "note") (omega arith) (client stored)
      none (server stored) none none open_socket 21 (client stored) none refl refl refl refl refl
