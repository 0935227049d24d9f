-- ===== src/EndToEnd/Upload.antt =====
-- `upload <dir>/<name>`: from the disk of one client to that of the server and of the other clients.
use dropbox_ufrgs_sisop.Prelude.{◌≡◌, ◌++◌, ◌∙◌, true, some, sym, refl}
use dropbox_ufrgs_sisop.Prelude.Int.{negsuc}
use dropbox_ufrgs_sisop.Prelude.Outcome.{done, bind, within}
use dropbox_ufrgs_sisop.Bytes.{Bytes, has_nul}
use dropbox_ufrgs_sisop.Text.{text, Without}
use dropbox_ufrgs_sisop.Os.{Os, contents}
use dropbox_ufrgs_sisop.PacketType.{code, upload_accept_resp, upload_broadcast}
use dropbox_ufrgs_sisop.Packet.{Packet, build_packet}
use dropbox_ufrgs_sisop.Packet.Header.{copy_bytes_self}
use dropbox_ufrgs_sisop.File.{File, in_directory, write_file}
use dropbox_ufrgs_sisop.File.RoundTrip.{IsFile}
use dropbox_ufrgs_sisop.Controllers.RoundTrip.{path_of}
use dropbox_ufrgs_sisop.Manager.{Job, Server, respond}
use dropbox_ufrgs_sisop.Manager.Broadcast.{broadcast_to_user}
use dropbox_ufrgs_sisop.Manager.Requests.{handle_upload}
use dropbox_ufrgs_sisop.Manager.Requests.Transfer.{
  file_packet, file_packet-back, handle_upload_accepted,
}
use dropbox_ufrgs_sisop.Client.State.{Client}
use dropbox_ufrgs_sisop.Client.SyncManager.{ignore}
use dropbox_ufrgs_sisop.Client.InputManager.{run_command, sync_dir}
use dropbox_ufrgs_sisop.Client.InputManager.Lines.{upload_request, posted, run_command-upload}
use dropbox_ufrgs_sisop.Client.Listener.{handle_packet}
use dropbox_ufrgs_sisop.Client.Listener.Files.{receive_file-write_file}

module _ (client server other : Os) (job : Job) (base_path : Bytes) where
  -- The broadcast of an upload, at another client.
  handle_packet-broadcast :
      (f : File) (d : Client other) (t : other.State)
      → IsFile f
      → has_nul f.bytes ≡ true
      → other.write_file d.state (in_directory (base_path ++ sync_dir) f.filename) f.bytes ≡ some t
      → handle_packet other base_path (file_packet (code upload_broadcast) f) d
        ≡ done tt (record d { state = t; sync_manager = ignore d.sync_manager })
  unfolding handle_packet write_file
  handle_packet-broadcast f d t v nul taken =
      receive_file-write_file other (base_path ++ sync_dir) (file_packet (code upload_broadcast) f)
        f _ (file_packet-back f v nul)
      ∙ rw (copy_bytes_self f.file_size f.bytes (sym v.owns), write_file, within, bind)
          (rw (taken, write_file, within, bind))

  -- What the user types as `upload <dir>/<name>` reaches the server and the other clients of the user:
  -- the client leaves a packet for its main loop; the server, on that packet, writes the file, with
  -- the contents that it has at the client, for the user, accepts it, and broadcasts one packet; and
  -- a client that gets this packet writes the same file into its synchronised directory, and is not
  -- to hear of that as an event. The client must be able to read the file, the file must hold a NUL and
  -- the format be able to carry it, and the disks of the server and of the other client must take it.
  pub upload_end_to_end :
      (dir : Bytes) (f : File) (c : Client client) (w : Server server) (s : server.State)
      (d : Client other) (t : other.State)
      → Without b'/' f.filename
      → IsFile f
      → has_nul f.bytes ≡ true
      → client.read_file c.state (in_directory dir f.filename) ≡ contents f.bytes
      → server.write_file w.state (path_of f.filename job.username) f.bytes ≡ some s
      → other.write_file d.state (in_directory (base_path ++ sync_dir) f.filename) f.bytes ≡ some t
      → (q broadcast : Packet) × (run_command client base_path
            (text "upload " ++ in_directory dir f.filename)
            c
          ≡ done true (posted client q c))
        × (handle_upload server job q w
            ≡ bind
                (respond server job
                  (build_packet (code upload_accept_resp) 0 0 (text "successfully uploaded file"))
                  (record w { state = s }))
                (λ _ v.
                  bind
                    (broadcast_to_user server job.username (negsuc 0) broadcast v)
                    (λ _. done tt)))
        × (handle_packet other base_path broadcast d
            ≡ done tt (record d { state = t; sync_manager = ignore d.sync_manager }))
  upload_end_to_end dir f c w s d t plain v nul found taken kept = (
    upload_request f,
    file_packet (code upload_broadcast) f,
    run_command-upload client base_path dir f c plain v found,
    handle_upload_accepted server job (upload_request f) w f s refl v nul taken,
    handle_packet-broadcast f d t v nul kept,
  )
