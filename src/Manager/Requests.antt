-- ===== src/Manager/Requests.antt =====
-- `Manager::handle_connection`: the branches for the requests that carry no file list. Each is a
-- branch of the `switch` with all that it does to the connection, the directories and the peers.
pub mod Delete
pub mod Transfer
use dropbox_ufrgs_sisop.Socket.{close_connection}
use dropbox_ufrgs_sisop.Text.{text}
use dropbox_ufrgs_sisop.Controllers.{delete_file, download, upload}
use dropbox_ufrgs_sisop.PacketType.{
  code, delete_refuse_resp, download_refuse_resp, logout_resp, stop_server_broadcast, unknown_resp,
  upload_refuse_resp, delete_accept_resp, download_accept_resp, upload_accept_resp,
  upload_broadcast, delete_broadcast,
}
use dropbox_ufrgs_sisop.Manager.Broadcast.{broadcast, broadcast_to_user, close_all_connections}
use dropbox_ufrgs_sisop.Packet.{Packet, build_packet, build_packet_sized}
use dropbox_ufrgs_sisop.Bytes.{Bytes, c_string}
use dropbox_ufrgs_sisop.File.{File, from_data, deserialize, to_data, packet_size}
use dropbox_ufrgs_sisop.Prelude.Int.{ℤ, is_negative, pos, negsuc}
use dropbox_ufrgs_sisop.Manager.{Job, Server, respond, on_os, connection, store}
use dropbox_ufrgs_sisop.Os.{Os}
use dropbox_ufrgs_sisop.Prelude.{
  ℕ, List, [], ◌∷◌, none, some, true, false, Option, if◌then◌else◌, length,
}
use dropbox_ufrgs_sisop.Prelude.Outcome.{done, fault, M, ◌>>=◌, ◌>>◌, return}

module _ (os : Os) where
  -- A step that is undefined where it gives `none`.
  abbrev pub defined : {A : Type 0} → Option A → M (Server os) A
  defined o w = elim o [ none ↦ fault | some a ↦ done a w ]

  -- `case LOGOUT_REQ`
  unfoldable pub handle_logout : Job → M (Server os) (Unit {0})
  handle_logout job = do
    respond os job (build_packet (code logout_resp) 0 0 (text "successfully logged out"))
    c ← connection os job
    closed ← on_os os (close_connection os c)
    store os job closed

  -- `case STOP_SERVER_REQ`
  unfoldable pub handle_stop : M (Server os) (Unit {0})
  handle_stop = do
    _ ← broadcast os (build_packet (code stop_server_broadcast) 0 0 (text "server stopped"))
    close_all_connections os

  upload_response : ℤ → Packet
  upload_response err =
      if is_negative err
      then build_packet (code upload_refuse_resp) 0 0 (text "error uploading file")
      else build_packet (code upload_accept_resp) 0 0 (text "successfully uploaded file")

  -- `case UPLOAD_REQ`
  unfoldable pub handle_upload : Job → Packet → M (Server os) (Unit {0})
  unfolding upload_response
  handle_upload job p = do
    serialized_file ← defined (from_data p.payload)
    file ← defined (deserialize serialized_file)
    err ← on_os os (upload os file job.username)
    respond os job (upload_response err)
    file_bytes ← defined (to_data file)
    broadcast_packet ←
        defined (build_packet_sized (code upload_broadcast) 0 0 (packet_size file) file_bytes)
    _ ← broadcast_to_user os job.username (negsuc 0) broadcast_packet
    return tt

  -- The type and the payload of the answer to DOWNLOAD_REQ.
  download_response : File × ℤ → Option Packet
  download_response (file, err) =
      if is_negative err
      then build_packet_sized (code download_refuse_resp) 0 0
          (length (text "Error downloading file")) (text "Error downloading file")
      else (elim (to_data file) [
        | none ↦ none
        | some payload ↦
            build_packet_sized (code download_accept_resp) 0 0 (packet_size file) payload
      ])

  -- `case DOWNLOAD_REQ`
  unfoldable pub handle_download : Job → Packet → M (Server os) (Unit {0})
  unfolding download_response
  handle_download job p = do
    filename ← defined (c_string p.payload)
    found ← on_os os (download os filename job.username)
    answer ← defined (download_response found)
    respond os job answer

  -- The type of the answer to DELETE_REQ, and its text, which goes to the other connections too.
  delete_response : Bytes → ℤ → ℕ × Bytes
  delete_response filename err =
      if is_negative err
      then (code delete_refuse_resp, text "error deleting file")
      else (code delete_accept_resp, filename)

  -- `case DELETE_REQ`
  unfoldable pub handle_delete : Job → Packet → M (Server os) (Unit {0})
  unfolding delete_response
  handle_delete job p = do
    filename ← defined (c_string p.payload)
    err ← on_os os (delete_file os filename job.username)
    let (p_type, message) = delete_response filename err
    respond os job (build_packet p_type 0 0 message)
    c ← connection os job
    _ ←
        broadcast_to_user os job.username (pos c.sockfd)
          (build_packet (code delete_broadcast) 0 0 message)
    return tt

  -- `default`, which `case REDUNDANCY_REQ` falls through to
  unfoldable pub handle_unknown : Job → M (Server os) (Unit {0})
  handle_unknown job =
      respond os job (build_packet (code unknown_resp) 0 0 (text "Unrecognized packet type"))
