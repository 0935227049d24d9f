-- ===== src/Manager/Files.antt =====
-- `Manager::handle_connection`: the branches that go through the directory of a user, with
-- `Manager::sync_files`.
pub mod Sync
use dropbox_ufrgs_sisop.File.{to_data, packet_size}
use dropbox_ufrgs_sisop.PacketType.{
  code, list_refuse_resp, sync_dir_refuse_resp, list_accept_resp, sync_dir_accept_resp,
}
use dropbox_ufrgs_sisop.Packet.{build_packet, build_packet_sized}
use dropbox_ufrgs_sisop.Manager.Requests.{defined}
use dropbox_ufrgs_sisop.FileManager.{list_directory, listing_names}
use dropbox_ufrgs_sisop.Prelude.Int.{is_negative, pos, ◌==ℤ◌}
use dropbox_ufrgs_sisop.Text.{text}
use dropbox_ufrgs_sisop.Controllers.{download, sync_dir}
use dropbox_ufrgs_sisop.Bytes.{Bytes}
use dropbox_ufrgs_sisop.Manager.{Job, Server, on_os, respond}
use dropbox_ufrgs_sisop.Os.{Os}
use dropbox_ufrgs_sisop.Prelude.{
  ℕ, List, [], ◌∷◌, none, some, true, false, Bool, ◌++◌, if◌then◌else◌, suc, ◌%◌, ◌^◌, ◌+◌,
}
use dropbox_ufrgs_sisop.Prelude.Outcome.{done, fault, M, ◌>>=◌, ◌>>◌, exited, return, bind}

module _ (os : Os) where
  -- The packets of `sync_files`, one for each name, numbered from `curr_file`. What a failed download
  -- leaves in the size of a file is not defined.
  unfoldable pub send_files : Job → ℕ → ℕ → List Bytes → M (Server os) (Unit {0})
  send_files job curr_file total_files [] = return tt
  send_files job curr_file total_files (filename ∷ names) = do
    found ← on_os os (download os filename job.username)
    _ ← λ w. if is_negative found.1 then fault else done tt w
    payload ← defined os (to_data found.0)
    p ← defined os (
        build_packet_sized (code sync_dir_accept_resp) (curr_file % 2 ^ 16) total_files
          (packet_size found.0) payload)
    respond os job p
    send_files job (curr_file + 1) total_files names

  -- `Manager::sync_files`
  unfoldable pub sync_files : Job → M (Server os) (Unit {0})
  sync_files job w = elim (os.getcwd w.state) [
    | none ↦ exited w
    | some cwd ↦
        let user_path = cwd ++ (text "/sync_directories/sync_dir_" ++ (job.username ++ text "/")) in
        let (total_files, out) = list_directory os user_path [] w.state in
        elim total_files [
          | pos (suc n) ↦ send_files job 1 (suc n) (listing_names out) w
          | _ ↦ respond os job (build_packet (code sync_dir_accept_resp) 0 0 []) w
        ]
  ]

  -- `case SYNC_DIR_REQ`
  unfoldable pub handle_sync_dir : Job → M (Server os) (Unit {0})
  handle_sync_dir job = do
    err ← on_os os (sync_dir os job.username)
    if is_negative err
        then respond os job
            (build_packet (code sync_dir_refuse_resp) 0 0 (text "error syncing directory"))
        else (if err ==ℤ pos 1
            then sync_files job
            else respond os job (
                build_packet (code sync_dir_accept_resp) 0 0
                  (text "successfully synced directory")))

  -- `case LIST_REQ`; the flag is false where the function returns early.
  unfoldable pub handle_list : Job → M (Server os) Bool
  handle_list job w = elim (os.getcwd w.state) [
    | none ↦ done false w
    | some base ↦
        let path = base ++ (text "/sync_directories/sync_dir_" ++ job.username) in
        let (err, files) = list_directory os path [] w.state in
        let answer =
          if is_negative err
          then build_packet (code list_refuse_resp) 0 0 (text "error listing files")
          else build_packet (code list_accept_resp) 0 0 files in
        bind (respond os job answer w) (λ _. done true)
  ]
