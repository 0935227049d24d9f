-- ===== src/EndToEnd/Download.antt =====
-- `download <name>`: from the disk of the server to that of the client.
use dropbox_ufrgs_sisop.Prelude.OptionMonad.{◌>>=◌}
use dropbox_ufrgs_sisop.Prelude.{◌≡◌, ◌++◌, [], true, some, ◌∙◌, sym}
use dropbox_ufrgs_sisop.Prelude.Outcome.{done, bind, within}
use dropbox_ufrgs_sisop.Bytes.{Bytes, c_string-append, has_nul}
use dropbox_ufrgs_sisop.Text.{text}
use dropbox_ufrgs_sisop.Os.{Os, contents}
use dropbox_ufrgs_sisop.PacketType.{code, download_req, download_accept_resp}
use dropbox_ufrgs_sisop.Packet.{Packet}
use dropbox_ufrgs_sisop.Packet.Header.{copy_bytes_self}
use dropbox_ufrgs_sisop.File.{File, in_directory, write_file, from_data, deserialize}
use dropbox_ufrgs_sisop.File.RoundTrip.{IsFile}
use dropbox_ufrgs_sisop.Controllers.RoundTrip.{path_of}
use dropbox_ufrgs_sisop.Manager.{Job, Server, respond}
use dropbox_ufrgs_sisop.Manager.Requests.{handle_download}
use dropbox_ufrgs_sisop.Manager.Requests.Transfer.{handle_download_contents}
use dropbox_ufrgs_sisop.Client.State.{Client}
use dropbox_ufrgs_sisop.Client.InputManager.{run_command}
use dropbox_ufrgs_sisop.Client.InputManager.Lines.{request, posted, run_command-download}
use dropbox_ufrgs_sisop.Client.Listener.{handle_packet}
use dropbox_ufrgs_sisop.Client.Listener.Files.{receive_file-write_file}

module _ (client server : Os) (job : Job) (base_path : Bytes) where
  -- An answer to a download, at the client.
  handle_packet-download :
      (p : Packet) (f : File) (d : Client client) (t : client.State)
      → IsFile f
      → p.type ≡ code download_accept_resp
      → (from_data p.payload >>= deserialize) ≡ some f
      → client.write_file d.state (in_directory base_path f.filename) f.bytes ≡ some t
      → handle_packet client base_path p d ≡ done tt (record d { state = t })
  unfolding handle_packet write_file
  handle_packet-download p f d t v typed carried taken =
      rw (typed, handle_packet)
        (receive_file-write_file client base_path p f d carried
          ∙ rw (copy_bytes_self f.file_size f.bytes (sym v.owns), write_file, within, bind)
              (rw (taken, write_file, within, bind)))

  -- What the user types as `download <name>` brings the file: the client leaves a request for its
  -- main loop; the server, on that request, sends one packet to the connection; and a client that
  -- gets this packet writes the file, with the contents that it has at the server, into the directory
  -- that it runs in. The server's disk must hold the file for the user, the file must hold a NUL and the
  -- format be able to carry it, and the client's disk must take it.
  pub download_end_to_end :
      (f : File) (c d : Client client) (w : Server server) (t : client.State)
      → IsFile f
      → has_nul f.bytes ≡ true
      → server.read_file w.state (path_of f.filename job.username) ≡ contents f.bytes
      → client.write_file d.state (in_directory base_path f.filename) f.bytes ≡ some t
      → (q answer : Packet) × (run_command client base_path (text "download " ++ f.filename) c
          ≡ done true (posted client q c))
        × (handle_download server job q w ≡ respond server job answer w)
        × (handle_packet client base_path answer d ≡ done tt (record d { state = t }))
  download_end_to_end f c d w t v nul stored taken =
      let q : Packet = request (code download_req) f.filename in
      let (answer, responds, typed, carried) =
        handle_download_contents server job q w f (c_string-append f.filename [] v.name_ends) v nul
          stored in
      (
        q,
        answer,
        run_command-download client base_path f.filename c,
        responds,
        handle_packet-download answer f d t v typed carried taken,
      )
