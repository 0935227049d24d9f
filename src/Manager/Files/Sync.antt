-- ===== src/Manager/Files/Sync.antt =====
-- What `sync_files` sends to a connection.
use dropbox_ufrgs_sisop.Prelude.{
  suc, length, ◌++◌, ℕ, ◌≡◌, ◌+◌, ◌%◌, ◌^◌, refl, List, [], ◌∷◌, Bool-cases, Option-cases, inl, inr,
  sym, ◌∙◌, get_elem?, ◌==◌, ◌++◌, ap, some,
}
use dropbox_ufrgs_sisop.Prelude.Int.{to_unsigned, pos, narrow}
use dropbox_ufrgs_sisop.Prelude.Outcome.{M, done, bind, within}
use dropbox_ufrgs_sisop.Bytes.{Bytes}
use dropbox_ufrgs_sisop.Os.{Os, DirEntry, contents}
use dropbox_ufrgs_sisop.PacketType.{code, sync_dir_accept_resp}
use dropbox_ufrgs_sisop.Packet.{Packet, copy_bytes, header, header_size}
use dropbox_ufrgs_sisop.Packet.Header.{build_packet_sized_self}
use dropbox_ufrgs_sisop.Socket.{write_packet}
use dropbox_ufrgs_sisop.User.{array}
use dropbox_ufrgs_sisop.File.{File, packet_size}
use dropbox_ufrgs_sisop.File.RoundTrip.{IsFile, payload_of, length-payload_of, to_data-IsFile}
use dropbox_ufrgs_sisop.Controllers.RoundTrip.{path_of}
use dropbox_ufrgs_sisop.Text.{text}
use dropbox_ufrgs_sisop.FileManager.{list_directory}
use dropbox_ufrgs_sisop.FileManager.Listing.{
  IsLine, PlainNames, regular_names, listing_names-list_directory,
}
use dropbox_ufrgs_sisop.Manager.{Job, Server, respond, connection}
use dropbox_ufrgs_sisop.Manager.Requests.Transfer.{download_found}
use dropbox_ufrgs_sisop.Manager.Files.{send_files, sync_files}

-- The packet for a file with its number, and the packets for some files, numbered from `i`.
abbrev pub sync_packet : ℕ → ℕ → File → Packet
sync_packet i total f = record {
  type = code sync_dir_accept_resp;
  seqn = i % 2 ^ 16;
  total_size = total;
  length = packet_size f;
  payload = payload_of f;
}

abbrev pub sync_packets : ℕ → ℕ → List File → List Packet
sync_packets i total [] = []
sync_packets i total (f ∷ files) = sync_packet i total f ∷ sync_packets (i + 1) total files

abbrev pub filenames : List File → List Bytes
filenames [] = []
filenames (f ∷ files) = f.filename ∷ filenames files

length-filenames : (files : List File) → length (filenames files) ≡ length files
length-filenames [] = refl
length-filenames (f ∷ files) = ap suc (length-filenames files)

cons-not_nil {ℓ} : {A : Type ℓ} {x : A} {xs : List A} → (x ∷ xs ≡ []) → ⊥
cons-not_nil e = cc

-- The directory that is listed.
abbrev pub synced_directory : Bytes → Bytes → Bytes
synced_directory cwd username =
    cwd ++ (text "/sync_directories/sync_dir_" ++ (username ++ text "/"))

module _ (os : Os) (job : Job) where
  -- One packet after the other to the connection.
  abbrev pub respond_all : List Packet → M (Server os) (Unit {0})
  respond_all [] w = done tt w
  respond_all (p ∷ packets) w = bind (respond os job p w) (λ _. respond_all packets)

  -- The disk holds these files of the user, and the format can carry them.
  abbrev pub AllFound : os.State → List File → Type 0
  AllFound s [] = Unit
  AllFound s (f ∷ files) =
      IsFile f
      × (os.read_file s (path_of f.filename job.username) ≡ contents f.bytes)
      × AllFound s files

  AllFound-same :
      (s t : os.State) (files : List File)
      → ((path : Bytes) → os.read_file t path ≡ os.read_file s path)
      → AllFound s files
      → AllFound t files
  AllFound-same s t [] same found = tt
  AllFound-same s t (f ∷ files) same found =
      (found.0, same _ ∙ found.1, AllFound-same s t files same found.2)

  module _
      (apart : (s : os.State) (fd : ℕ) (bytes path : Bytes)
        → os.read_file (os.send s fd bytes).1 path ≡ os.read_file s path) where
    -- What follows an answer need only be known for a disk that is as it was.
    respond_then :
        (p : Packet) (w : Server os) (k l : M (Server os) (Unit {0}))
        → ((t : os.State)
            → ((path : Bytes) → os.read_file t path ≡ os.read_file w.state path)
            → k (record w { state = t }) ≡ l (record w { state = t }))
        → bind (respond os job p w) (λ _. k) ≡ bind (respond os job p w) (λ _. l)
    unfolding respond connection write_packet
    respond_then p w k l h =
        elim (Option-cases (get_elem? (array w.heap job.connections) job.slot)) [
          | inl missing ↦ rw (missing, respond, connection, bind)
          | inr (c, open_now) ↦ elim (Option-cases (copy_bytes p.length p.payload)) [
            | inl short ↦
                rw (open_now, respond, connection, bind) (rw (short, write_packet, within, bind))
            | inr (block, whole) ↦
                elim (Bool-cases (
                  to_unsigned 64
                    (narrow (os.send w.state c.sockfd (header (os.garbage w.state 4) p ++ block)).0)
                  == header_size + p.length)) [
                    | inl all ↦
                        rw (open_now, respond, connection, bind)
                          (rw (whole, write_packet, within, bind)
                            (rw (all, within, bind) (h _ (λ path. apart w.state c.sockfd _ path))))
                    | inr part ↦
                        rw (open_now, respond, connection, bind)
                          (rw (whole, write_packet, within, bind) (rw (part, within, bind)))
                  ]
          ]
        ]

    -- Where the disk holds the files of a listing, and writing to a socket does not touch the disk,
    -- a synchronisation sends each file in the order of the listing, in one packet that carries the
    -- file's number and their total; it stops early only where a packet cannot be sent.
    pub send_files-AllFound :
        (i total : ℕ) (files : List File) (w : Server os)
        → AllFound w.state files
        → send_files os job i total (filenames files) w ≡ respond_all (sync_packets i total files) w
    unfolding send_files
    send_files-AllFound i total [] w found = refl
    send_files-AllFound i total (f ∷ files) w found =
        rw (download_found os f job.username w.state found.0 found.1, within, bind)
          (rw (to_data-IsFile f found.0, bind)
            (rw
              (
                build_packet_sized_self (code sync_dir_accept_resp) (i % 2 ^ 16) total
                    (packet_size f) (payload_of f) (sym (length-payload_of f found.0)),
                bind,
              )
              (respond_then _ w _ _ (λ t same.
                send_files-AllFound (i + 1) total files (record w { state = t })
                  (AllFound-same w.state t files same found.2)))))

    -- A synchronisation of a directory with at least one regular file, whose names are plain, sends
    -- exactly its regular files, in the order of the directory, numbered from 1 to their number. It
    -- needs that the files are found under their names, that a time is one line, and that writing to
    -- a socket does not touch the disk.
    pub sync_files-AllFound :
        (lines : (n : ℕ) (t : Bytes) → os.ctime n ≡ some t → IsLine t)
        → (w : Server os) (cwd : Bytes) (entries : List DirEntry) (f : File) (files : List File)
        → os.getcwd w.state ≡ some cwd
        → os.read_dir w.state (synced_directory cwd job.username) ≡ some entries
        → PlainNames entries
        → regular_names entries ≡ filenames (f ∷ files)
        → AllFound w.state (f ∷ files)
        → sync_files os job w ≡ respond_all (sync_packets 1 (length (f ∷ files)) (f ∷ files)) w
    unfolding sync_files
    sync_files-AllFound lines w cwd entries f files here found plain regular stored =
        let path = synced_directory cwd job.username in
        let (counted, named) =
          listing_names-list_directory os lines w.state path entries found plain
            (λ e. cons-not_nil (sym regular ∙ e)) in
        let total : (list_directory os path [] w.state).0 ≡ pos (length (f ∷ files)) =
          counted
          ∙ ap (λ names. pos (length names)) regular
          ∙ ap pos (length-filenames (f ∷ files)) in
        rw (here, sync_files)
          (rw (total, sync_files)
            (rw (named ∙ regular)
              (send_files-AllFound 1 (length (f ∷ files)) (f ∷ files) w stored)))
