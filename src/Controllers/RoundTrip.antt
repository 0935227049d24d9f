-- ===== src/Controllers/RoundTrip.antt =====
-- Uploads, downloads and deletions, one after the other.
use dropbox_ufrgs_sisop.File.RoundTrip.{read_sized}
use dropbox_ufrgs_sisop.Prelude.{◌≡◌, some, length, sym, [], ◌<◌, ◌^◌}
use dropbox_ufrgs_sisop.Prelude.Int.{pos, negsuc}
use dropbox_ufrgs_sisop.Prelude.Outcome.{done}
use dropbox_ufrgs_sisop.Bytes.{Bytes}
use dropbox_ufrgs_sisop.Os.{Os, contents, not_open}
use dropbox_ufrgs_sisop.Packet.Header.{copy_bytes_self}
use dropbox_ufrgs_sisop.File.{File, read_file, write_file, in_directory}
use dropbox_ufrgs_sisop.Controllers.{upload, download, delete_file, user_directory}

-- What a disk that nobody else uses documents: a file that has been written is read as it was
-- written, and a file that has been removed cannot be opened.
pub record IsDisk (os : Os) : Type 0 where
  pub written :
      (s t : os.State) (path bytes : Bytes)
      → os.write_file s path bytes ≡ some t
      → os.read_file t path ≡ contents bytes
  pub removed :
      (s t : os.State) (path : Bytes) → os.remove s path ≡ some t → os.read_file t path ≡ not_open

-- The place of a file of a user.
abbrev pub path_of : Bytes → Bytes → Bytes
path_of filename user = in_directory (user_directory user) filename

pub upload_taken :
    (os : Os) (f : File) (user : Bytes) (s t : os.State)
    → length f.bytes ≡ f.file_size
    → os.write_file s (path_of f.filename user) f.bytes ≡ some t
    → upload os f user s ≡ done (pos 0) t
unfolding upload write_file
upload_taken os f user s t owns taken =
    rw (copy_bytes_self f.file_size f.bytes (sym owns), upload, write_file)
      (rw (taken, upload, write_file))

-- On a disk that nobody else uses, an upload that the disk takes succeeds, and a download of the
-- same name by the same user then gives the file back. The size of the file is one that an `int`
-- holds.
pub download-upload :
    (os : Os) (disk : IsDisk os) (f : File) (user : Bytes) (s t : os.State)
    → length f.bytes ≡ f.file_size
    → f.file_size < 2 ^ 31
    → os.write_file s (path_of f.filename user) f.bytes ≡ some t
    → (upload os f user s ≡ done (pos 0) t) × (download os f.filename user t ≡ done (f, pos 0) t)
unfolding download
download-upload os disk f user s t owns fits taken = (
  upload_taken os f user s t owns taken,
  read_sized os f (user_directory user) t fits owns
      (disk.written s t (path_of f.filename user) f.bytes taken),
)

-- On a disk that nobody else uses, a deletion that the disk takes succeeds, and a download of the
-- same name by the same user then fails.
pub download-delete_file :
    (os : Os) (disk : IsDisk os) (filename user : Bytes) (s t : os.State)
    → os.remove s (path_of filename user) ≡ some t
    → (delete_file os filename user s ≡ done (pos 0) t)
      × ((f : File) × (download os filename user t ≡ done (f, negsuc 0) t))
unfolding delete_file download read_file
download-delete_file os disk filename user s t taken = (
  rw (taken, delete_file),
  (
    record { filename = filename; bytes = []; file_size = 0 },
    rw (disk.removed s t (path_of filename user) taken, download, read_file),
  ),
)
