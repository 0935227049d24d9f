-- ===== src/Controllers.antt =====
-- `server/comms/controllers/*.cpp`: what the server does to the directory of a user.
pub mod RoundTrip
use dropbox_ufrgs_sisop.FileManager.{create_directory, list_directory}
use dropbox_ufrgs_sisop.Prelude.Int.{ℤ, negsuc, pos}
use dropbox_ufrgs_sisop.File.{File, in_directory, read_file, write_file}
use dropbox_ufrgs_sisop.Text.{text}
use dropbox_ufrgs_sisop.Os.{Os}
use dropbox_ufrgs_sisop.Bytes.{Bytes}
use dropbox_ufrgs_sisop.Prelude.{none, some, ◌++◌, []}
use dropbox_ufrgs_sisop.Prelude.Outcome.{done, M}

-- `"./sync_directories/sync_dir_" + username`
abbrev pub user_directory : Bytes → Bytes
user_directory username = text "./sync_directories/sync_dir_" ++ username

module _ (os : Os) where
  -- `UploadController::upload`
  unfoldable pub upload : File → Bytes → M os.State ℤ
  upload file username = write_file os file (user_directory username)

  -- `DownloadController::download`, on the file that `new File(filename)` makes
  unfoldable pub download : Bytes → Bytes → M os.State (File × ℤ)
  download filename username s =
      read_file os (record { filename = filename; bytes = []; file_size = 0 })
        (user_directory username) s

  -- `DeleteController::delete_file`
  unfoldable pub delete_file : Bytes → Bytes → M os.State ℤ
  delete_file filename username s =
      elim (os.remove s (in_directory (user_directory username) filename)) [
        | none ↦ done (negsuc 0) s
        | some t ↦ done (pos 0) t
      ]

  -- `SyncController::sync_dir`, over a file manager whose base path is `SYNC_DIRS_BASE_PATH`
  unfoldable pub sync_dir : Bytes → M os.State ℤ
  sync_dir username =
      create_directory os (text "./sync_directories") (text "/sync_dir_" ++ username)

  -- `SyncController::list_sync_dir`. The listing is made in a copy of `out`, and the caller's text is
  -- as it was.
  unfoldable pub list_sync_dir : Bytes → Bytes → M os.State (ℤ × Bytes)
  list_sync_dir username out s = elim (os.getcwd s) [
    | none ↦ done (negsuc 0, out) s
    | some current_path ↦
        let path = current_path ++ (text "/sync_directories/sync_dir_" ++ username) in
        done ((list_directory os path out s).0, out) s
  ]
