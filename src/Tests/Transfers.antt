-- ===== src/Tests/Transfers.antt =====
-- A disk with room for one file, and a user who sends a file to it and asks for it.
use dropbox_ufrgs_sisop.Prelude.{
  ◌≡◌, refl, [], ◌∷◌, ◌++◌, Option, none, some, true, false, length, replicate, ap, subst,
  if◌then◌else◌, arith, List,
}
use dropbox_ufrgs_sisop.Prelude.Int.{pos}
use dropbox_ufrgs_sisop.Prelude.Outcome.{done}
use dropbox_ufrgs_sisop.Bytes.{Bytes, bytes_eq, bytes_eq_self}
use dropbox_ufrgs_sisop.Text.{text}
use dropbox_ufrgs_sisop.Os.{Os, DirEntry, FileRead, eof, not_open, contents}
use dropbox_ufrgs_sisop.Packet.{Packet}
use dropbox_ufrgs_sisop.File.{File}
use dropbox_ufrgs_sisop.File.RoundTrip.{IsFile}
use dropbox_ufrgs_sisop.Controllers.{upload, download}
use dropbox_ufrgs_sisop.Controllers.RoundTrip.{IsDisk, path_of, download-upload}
use dropbox_ufrgs_sisop.Manager.{Job, Server}
use dropbox_ufrgs_sisop.Manager.Files.{sync_files}
use dropbox_ufrgs_sisop.Manager.Files.Sync.{respond_all, sync_packets, sync_files-AllFound}
use dropbox_ufrgs_sisop.Tests.World.{noon, noon-IsLine}

-- The path and the bytes of the file, if there is one.
abbrev pub Slot : Type 0
Slot = Option (Bytes × Bytes)

abbrev read_slot : Slot → Bytes → FileRead
read_slot none path = not_open
read_slot (some (key, bytes)) path = if bytes_eq path key then contents bytes else not_open

abbrev note_entries : List DirEntry
note_entries =
    record { d_name = text ".."; is_regular = false }
    ∷ record { d_name = text "note"; is_regular = true }
    ∷ []

abbrev pub disk_os : Os
disk_os = record {
  State = Slot;
  garbage = λ s n. replicate n 0;
  recv = λ s fd k. (eof, s);
  send = λ s fd bytes. (pos (length bytes), s);
  close = λ s fd. s;
  socket = λ s. (pos 7, s);
  resolves = λ s name. true;
  inet_aton = λ ip. some (127 ∷ 0 ∷ 0 ∷ 1 ∷ []);
  errno = λ s. 0;
  mkdir = λ s path. (pos 0, s);
  read_dir = λ s path. some note_entries;
  stat = λ s path. none;
  stat_garbage = λ s. record { st_ctim = 0; st_mtim = 0; st_atim = 0 };
  ctime = λ n. some noon;
  read_file = read_slot;
  write_file = λ s path bytes. some (some (path, bytes));
  remove = λ s path. some none;
  getcwd = λ s. some (text "/srv");
  watch = λ s path. s;
  connect = λ s fd host port. (pos 0, s);
  socket_udp = λ s. (pos 8, s);
  sendto = λ s fd bytes address. s;
  recvfrom = λ s fd n. ([], s);
  bind_port = λ s fd port. (pos 0, s);
  listen = λ s fd size. (pos 0, s);
  accept = λ s fd. (pos 9, s);
}

-- The state in a result.
abbrev state_of : Option Slot → Slot
state_of none = none
state_of (some s) = s

disk : IsDisk disk_os
disk = record {
  written = λ s t path bytes e.
      subst (λ t. read_slot t path ≡ contents bytes) (ap state_of e) (rw (bytes_eq_self path));
  removed = λ s t path e. subst (λ t. read_slot t path ≡ not_open) (ap state_of e) refl;
}

abbrev pub note : File
note = record { filename = text "note"; bytes = 1 ∷ 0 ∷ []; file_size = 2 }

pub note-IsFile : IsFile note
note-IsFile = record {
  name_fits = omega arith;
  name_ends = omega arith;
  size_fits = omega arith;
  owns = refl;
}

abbrev pub stored : Slot
stored = some (path_of (text "note") (text "ana"), 1 ∷ 0 ∷ [])

abbrev pub job : Job
job = record { connections = 0; slot = 0; username = text "ana" }

abbrev pub server : Slot → Server disk_os
server s = record {
  state = s;
  users = [];
  heap = (record { sockfd = 4; port = pos 0; is_waiting = false; buffer = [] } ∷ []) ∷ [];
  threads = [];
  is_router_routing = false;
  locked = false;
  others = [];
}

abbrev request : Packet
request = record {
  type = 10;
  seqn = 0;
  total_size = 0;
  length = 5;
  payload = text "note" ++ (0 ∷ []);
}

download-upload_example :
    (upload disk_os note (text "ana") none ≡ done (pos 0) stored)
    × (download disk_os (text "note") (text "ana") stored ≡ done (note, pos 0) stored)
download-upload_example =
    download-upload disk_os disk note (text "ana") none stored refl (omega arith) refl

sync_files-AllFound_example :
    sync_files disk_os job (server stored)
    ≡ respond_all disk_os job (sync_packets 1 1 (note ∷ [])) (server stored)
sync_files-AllFound_example =
    sync_files-AllFound disk_os job (λ s fd bytes path. refl) noon-IsLine (server stored)
      (text "/srv") note_entries note [] refl refl (omega arith, (omega arith, tt)) refl
      (note-IsFile, refl, tt)
