-- ===== src/EndToEnd/Delete.antt =====
-- `delete <name>`: on the disk of one client, on that of the server, and on those of the other clients.
use dropbox_ufrgs_sisop.Prelude.{ℕ, ◌≡◌, ◌++◌, [], true, some}
use dropbox_ufrgs_sisop.Prelude.Int.{pos}
use dropbox_ufrgs_sisop.Prelude.Outcome.{done, bind}
use dropbox_ufrgs_sisop.Bytes.{Bytes, NoNul, c_string-append}
use dropbox_ufrgs_sisop.Text.{text}
use dropbox_ufrgs_sisop.Os.{Os}
use dropbox_ufrgs_sisop.PacketType.{code, delete_req, delete_accept_resp, delete_broadcast}
use dropbox_ufrgs_sisop.Packet.{Packet, build_packet}
use dropbox_ufrgs_sisop.Socket.{Socket, write_packet}
use dropbox_ufrgs_sisop.File.{in_directory}
use dropbox_ufrgs_sisop.Controllers.RoundTrip.{path_of}
use dropbox_ufrgs_sisop.Manager.{Job, Server, connection}
use dropbox_ufrgs_sisop.Manager.Broadcast.{broadcast_to_user}
use dropbox_ufrgs_sisop.Manager.Requests.{handle_delete}
use dropbox_ufrgs_sisop.Manager.Requests.Delete.{handle_delete_removed}
use dropbox_ufrgs_sisop.Client.State.{Client}
use dropbox_ufrgs_sisop.Client.SyncManager.{ignore}
use dropbox_ufrgs_sisop.Client.InputManager.{run_command, sync_dir}
use dropbox_ufrgs_sisop.Client.InputManager.Lines.{request, posted, run_command-delete}
use dropbox_ufrgs_sisop.Client.Listener.{handle_packet, remove_file}

module _ (client server other : Os) (job : Job) (base_path name : Bytes) (ends : NoNul name) where
  -- The broadcast of a deletion, at another client.
  handle_packet-delete :
      (d : Client other) (u : other.State)
      → other.remove d.state (in_directory (base_path ++ sync_dir) name) ≡ some u
      → handle_packet other base_path (build_packet (code delete_broadcast) 0 0 name) d
        ≡ done tt (record d { state = u; sync_manager = ignore d.sync_manager })
  unfolding handle_packet remove_file build_packet
  handle_packet-delete d u gone = rw (c_string-append name [] ends, bind) (rw (gone, bind))

  -- What the user types as `delete <name>` removes the file everywhere: the client removes its own
  -- copy and leaves a request for its main loop; the server, on that request, removes the file of the
  -- user, accepts, and broadcasts one packet to the other connections; and a client that gets this
  -- packet removes its copy, and is not to hear of that as an event. The three disks must remove the
  -- file, the request must come over an open connection, and the answer to it must be sent.
  pub delete_end_to_end :
      (c : Client client) (r : client.State) (w : Server server) (s t : server.State) (soc : Socket)
      (n : ℕ) (d : Client other) (u : other.State)
      → client.remove c.state (in_directory (base_path ++ sync_dir) name) ≡ some r
      → server.remove w.state (path_of name job.username) ≡ some s
      → connection server job w ≡ done soc w
      → write_packet server soc (build_packet (code delete_accept_resp) 0 0 name) s ≡ done n t
      → other.remove d.state (in_directory (base_path ++ sync_dir) name) ≡ some u
      → (q broadcast : Packet) × (run_command client base_path (text "delete " ++ name) c
          ≡ done true (posted client q (record c { state = r })))
        × (handle_delete server job q w
            ≡ bind
                (broadcast_to_user server job.username
                  (pos soc.sockfd)
                  broadcast
                  (record w { state = t }))
                (λ _. done tt))
        × (handle_packet other base_path broadcast d
            ≡ done tt (record d { state = u; sync_manager = ignore d.sync_manager }))
  delete_end_to_end c r w s t soc n d u gone removed open_now sent kept = (
    request (code delete_req) name,
    build_packet (code delete_broadcast) 0 0 name,
    run_command-delete client base_path name c r gone,
    handle_delete_removed server job (request (code delete_req) name) w name soc n s t
        (c_string-append name [] ends) removed open_now sent,
    handle_packet-delete d u kept,
  )
