-- ===== src/Manager/Requests/Transfer.antt =====
-- Uploads and downloads as a client asks for them.
use dropbox_ufrgs_sisop.Prelude.{ℕ, ◌≡◌, refl, some, [], ap, sym, ◌∙◌, append-nil, ℕ, true}
use dropbox_ufrgs_sisop.Prelude.OptionMonad.{◌>>=◌}
use dropbox_ufrgs_sisop.Prelude.Int.{pos, negsuc}
use dropbox_ufrgs_sisop.Prelude.Outcome.{done, bind, within}
use dropbox_ufrgs_sisop.Bytes.{Bytes, c_string, has_nul}
use dropbox_ufrgs_sisop.Text.{text}
use dropbox_ufrgs_sisop.Os.{Os, contents, not_open}
use dropbox_ufrgs_sisop.PacketType.{
  download_refuse_resp, code, download_accept_resp, upload_broadcast, upload_accept_resp,
}
use dropbox_ufrgs_sisop.Packet.{Packet, build_packet, build_packet_sized}
use dropbox_ufrgs_sisop.Packet.Header.{build_packet_sized_self}
use dropbox_ufrgs_sisop.File.{read_file, File, from_data, deserialize, packet_size}
use dropbox_ufrgs_sisop.File.RoundTrip.{
  read_found, serialized, IsFile, payload_of, length-payload_of, to_data-IsFile,
  from_data-payload_of, deserialize-serialized,
}
use dropbox_ufrgs_sisop.Controllers.{download, user_directory, download}
use dropbox_ufrgs_sisop.Controllers.RoundTrip.{path_of, upload_taken}
use dropbox_ufrgs_sisop.Manager.{Job, Server, respond}
use dropbox_ufrgs_sisop.Manager.Broadcast.{broadcast_to_user}
use dropbox_ufrgs_sisop.Manager.Requests.{
  handle_download, download_response, handle_upload, upload_response, defined,
}

-- The packet that carries a file.
abbrev pub file_packet : ℕ → File → Packet
file_packet type f = record {
  type = type;
  seqn = 0;
  total_size = 0;
  length = packet_size f;
  payload = payload_of f;
}

from_data-payload :
    (f : File) → IsFile f → has_nul f.bytes ≡ true → from_data (payload_of f) ≡ some (serialized f)
from_data-payload f v nul =
    ap from_data (sym (append-nil (payload_of f))) ∙ from_data-payload_of f [] v nul

pub file_packet-back :
    (f : File)
    → IsFile f
    → has_nul f.bytes ≡ true
    → (from_data (payload_of f) >>= deserialize) ≡ some f
file_packet-back f v nul = rw (from_data-payload f v nul) (deserialize-serialized f v)

-- What `build_packet_sized` makes of the payload of a file.
build_packet_sized-file :
    (type : ℕ) (f : File)
    → IsFile f
    → build_packet_sized type 0 0 (packet_size f) (payload_of f) ≡ some (file_packet type f)
build_packet_sized-file type f v =
    build_packet_sized_self type 0 0 (packet_size f) (payload_of f) (sym (length-payload_of f v))

-- The answer to a download that has found a file.
download_response-file :
    (os : Os) (f : File)
    → IsFile f
    → download_response os (f, pos 0) ≡ some (file_packet (code download_accept_resp) f)
unfolding download_response
download_response-file os f v =
    rw (to_data-IsFile f v, download_response)
      (build_packet_sized-file (code download_accept_resp) f v)

-- A file as it is read.
pub download_found :
    (os : Os) (f : File) (user : Bytes) (s : os.State)
    → IsFile f
    → os.read_file s (path_of f.filename user) ≡ contents f.bytes
    → download os f.filename user s ≡ done (f, pos 0) s
unfolding download
download_found os f user s v found = read_found os f (user_directory user) s v found

-- A download of a file that can be read, and that the format can carry, is answered by one packet,
-- and the client finds in it the name that it has asked for and what the disk holds, if that holds a
-- NUL.
pub handle_download_contents :
    (os : Os) (job : Job) (p : Packet) (w : Server os) (f : File)
    → c_string p.payload ≡ some f.filename
    → IsFile f
    → has_nul f.bytes ≡ true
    → os.read_file w.state (path_of f.filename job.username) ≡ contents f.bytes
    → (answer : Packet) × (handle_download os job p w ≡ respond os job answer w)
      × (answer.type ≡ code download_accept_resp)
      × ((from_data answer.payload >>= deserialize) ≡ some f)
unfolding handle_download
handle_download_contents os job p w f named v nul found = (
  file_packet (code download_accept_resp) f,
  rw (named, handle_download, bind)
      (rw (download_found os f job.username w.state v found, within, bind)
        (rw (download_response-file os f v, bind))),
  refl,
  file_packet-back f v nul,
)

-- The answer to a download of a file that cannot be opened: a text without its NUL.
abbrev pub download_refusal : Packet
download_refusal = record {
  type = code download_refuse_resp;
  seqn = 0;
  total_size = 0;
  length = 22;
  payload = text "Error downloading file";
}

pub handle_download_missing :
    (os : Os) (job : Job) (p : Packet) (w : Server os) (name : Bytes)
    → c_string p.payload ≡ some name
    → os.read_file w.state (path_of name job.username) ≡ not_open
    → handle_download os job p w ≡ respond os job download_refusal w
unfolding handle_download download read_file download_response
handle_download_missing os job p w name named missing =
    rw (named, handle_download, bind)
      (rw (missing, download, read_file, within, bind)
        (rw (
          build_packet_sized_self (code download_refuse_resp) 0 0 22 (text "Error downloading file")
              refl,
          bind,
        )))

-- An upload whose data hold a NUL and whose file the disk takes is answered with its acceptance, and is then broadcast to the
-- connections of the user in a packet with the payload as it came.
pub handle_upload_accepted :
    (os : Os) (job : Job) (p : Packet) (w : Server os) (f : File) (t : os.State)
    → p.payload ≡ payload_of f
    → IsFile f
    → has_nul f.bytes ≡ true
    → os.write_file w.state (path_of f.filename job.username) f.bytes ≡ some t
    → handle_upload os job p w
      ≡ bind
          (respond os job
            (build_packet (code upload_accept_resp) 0 0 (text "successfully uploaded file"))
            (record w { state = t }))
          (λ _ v.
            bind
              (broadcast_to_user os job.username
                (negsuc 0)
                (file_packet (code upload_broadcast) f)
                v)
              (λ _. done tt))
unfolding handle_upload upload_response
handle_upload_accepted os job p w f t carried v nul taken =
    rw (carried, from_data-payload f v nul, handle_upload, bind)
      (rw (deserialize-serialized f v, bind)
        (rw (upload_taken os f job.username w.state t v.owns taken, within, bind)
          (rw (to_data-IsFile f v, bind)
            (ap
              (λ q.
                bind
                  (respond os job
                    (build_packet (code upload_accept_resp) 0 0 (text "successfully uploaded file"))
                    (record w { state = t }))
                  (λ _ v. bind (defined os q v) (λ packet u.
                    bind (broadcast_to_user os job.username (negsuc 0) packet u) (λ _. done tt))))
              (build_packet_sized-file (code upload_broadcast) f v)))))
