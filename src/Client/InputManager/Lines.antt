-- ===== src/Client/InputManager/Lines.antt =====
-- What a typed line asks of the server.
use dropbox_ufrgs_sisop.File.RoundTrip.{
  read_found, IsFile, payload_of, length-payload_of, to_data-IsFile,
}
use dropbox_ufrgs_sisop.File.{File, packet_size, in_directory}
use dropbox_ufrgs_sisop.Prelude.{
  refl, take-length-append, ◌≡◌, ◌++◌, ◌∷◌, [], true, some, length, ◌+◌, ℕ, sym, length-append,
  drop, suc,
}
use dropbox_ufrgs_sisop.Prelude.Outcome.{done, bind, within}
use dropbox_ufrgs_sisop.Bytes.{Bytes}
use dropbox_ufrgs_sisop.Text.{text, find, Without, rfind-append}
use dropbox_ufrgs_sisop.Os.{Os, contents}
use dropbox_ufrgs_sisop.PacketType.{code, download_req, upload_req, delete_req}
use dropbox_ufrgs_sisop.Packet.{Packet, build_packet_sized}
use dropbox_ufrgs_sisop.Packet.Header.{build_packet_sized_self}
use dropbox_ufrgs_sisop.Client.State.{Client}
use dropbox_ufrgs_sisop.Client.InputManager.{
  set_packet, run_command, draft_of, post_draft, upload_command, delete_command, sync_dir,
}

-- A packet with a C string, as the commands make it.
abbrev pub request : ℕ → Bytes → Packet
request type arg = record {
  type = type;
  seqn = 0;
  total_size = 1;
  length = length arg + 1;
  payload = arg ++ (0 ∷ []);
}

build_packet_sized-request :
    (type : ℕ) (arg : Bytes)
    → build_packet_sized type 0 1 (length arg + 1) (arg ++ (0 ∷ [])) ≡ some (request type arg)
build_packet_sized-request type arg =
    build_packet_sized_self type 0 1 (length arg + 1) (arg ++ (0 ∷ []))
      (sym (length-append arg (0 ∷ [])))

-- The packet with a file, as `upload` makes it.
abbrev pub upload_request : File → Packet
upload_request f = record {
  type = code upload_req;
  seqn = 0;
  total_size = 1;
  length = packet_size f;
  payload = payload_of f;
}

build_packet_sized-upload :
    (f : File)
    → IsFile f
    → build_packet_sized (code upload_req) 0 1 (packet_size f) (payload_of f)
      ≡ some (upload_request f)
build_packet_sized-upload f v =
    build_packet_sized_self (code upload_req) 0 1 (packet_size f) (payload_of f)
      (sym (length-payload_of f v))

module _ (os : Os) where
  -- The client when a packet has been left for its main loop.
  abbrev pub posted : Packet → Client os → Client os
  posted p c = record c { input_manager = set_packet p c.input_manager }

  -- `download <name>` asks for that name.
  pub run_command-download :
      (base_path name : Bytes) (c : Client os)
      → run_command os base_path (text "download " ++ name) c
        ≡ done true (posted (request (code download_req) name) c)
  unfolding run_command draft_of post_draft find
  run_command-download base_path name c =
      rw (build_packet_sized-request (code download_req) name, bind)

drop-directory : (dir name : Bytes) → drop (suc (length dir)) (dir ++ (b'/' ∷ name)) ≡ name
drop-directory [] name = refl
drop-directory (b ∷ dir) name = drop-directory dir name

module _ (os : Os) where
  -- `upload <dir>/<name>` sends that file, if it can be read and the format can carry it.
  pub run_command-upload :
      (base_path dir : Bytes) (f : File) (c : Client os)
      → Without b'/' f.filename
      → IsFile f
      → os.read_file c.state (in_directory dir f.filename) ≡ contents f.bytes
      → run_command os base_path (text "upload " ++ in_directory dir f.filename) c
        ≡ done true (posted os (upload_request f) c)
  unfolding run_command draft_of post_draft upload_command find
  run_command-upload base_path dir f c plain v found =
      rw
        (
          rfind-append b'/' dir f.filename plain,
          take-length-append dir (b'/' ∷ f.filename),
          drop-directory dir f.filename,
          bind,
        )
        (rw (read_found os f dir c.state v found, within, bind)
          (rw (to_data-IsFile f v, bind) (rw (build_packet_sized-upload f v, bind))))

module _ (os : Os) where
  -- `delete <name>` removes the local file, if it can, and asks for the deletion of that name.
  pub run_command-delete :
      (base_path name : Bytes) (c : Client os) (s : os.State)
      → os.remove c.state (in_directory (base_path ++ sync_dir) name) ≡ some s
      → run_command os base_path (text "delete " ++ name) c
        ≡ done true (posted os (request (code delete_req) name) (record c { state = s }))
  unfolding run_command draft_of post_draft delete_command find
  run_command-delete base_path name c s gone =
      rw (gone, bind) (rw (build_packet_sized-request (code delete_req) name, bind))
