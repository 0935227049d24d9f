-- ===== src/Manager/Handler.antt =====
-- `Manager::handle_connection` as a whole. It runs in a thread of its own with no handler: an
-- exception that leaves it ends the server.
use dropbox_ufrgs_sisop.InternalRouter.Broadcast.{broadcast_others}
use dropbox_ufrgs_sisop.Manager.Files.{handle_sync_dir, handle_list}
use dropbox_ufrgs_sisop.Socket.{read_packet, set_is_waiting}
use dropbox_ufrgs_sisop.Manager.Requests.{
  handle_logout, handle_stop, handle_upload, handle_download, handle_delete, handle_unknown,
}
use dropbox_ufrgs_sisop.PacketType.{of_code}
use dropbox_ufrgs_sisop.Packet.{Packet}
use dropbox_ufrgs_sisop.Manager.{Job, Server, connection, on_os, store}
use dropbox_ufrgs_sisop.Os.{Os}
use dropbox_ufrgs_sisop.Prelude.{ℕ, some, true, false, Bool, if◌then◌else◌}
use dropbox_ufrgs_sisop.PacketType.{
  logout_req, sync_dir_req, stop_server_req, upload_req, download_req, list_req, delete_req,
}
use dropbox_ufrgs_sisop.Prelude.Outcome.{done, M, ◌>>=◌, ◌>>◌, bind, return}

module _ (os : Os) where
  -- A branch that goes on behind the `switch`.
  abbrev finished : M (Server os) (Unit {0}) → M (Server os) Bool
  finished m w = bind (m w) (λ _. done true)

  -- `switch (p.type)`; the flag is false where the function returns in the middle.
  unfoldable pub dispatch : Job → Packet → M (Server os) Bool
  dispatch job p = elim (of_code p.type) [
    | some logout_req ↦ finished (handle_logout os job)
    | some sync_dir_req ↦ finished (handle_sync_dir os job)
    | some stop_server_req ↦ finished (handle_stop os)
    | some upload_req ↦ finished (handle_upload os job p)
    | some download_req ↦ finished (handle_download os job p)
    | some list_req ↦ handle_list os job
    | some delete_req ↦ finished (handle_delete os job p)
    | _ ↦ finished (handle_unknown os job)
  ]

  -- `connection->set_is_waiting(false)`
  unfoldable pub rest_connection : Job → M (Server os) (Unit {0})
  rest_connection job = do c ← connection os job; store os job (set_is_waiting false c)

  -- `Manager::handle_connection`, with fuel for the loops that read the packet
  unfoldable pub handle_connection : ℕ → Job → M (Server os) (Unit {0})
  handle_connection fuel job = do
    c ← connection os job
    received ← on_os os (read_packet os fuel c)
    store os job received.1
    _ ← λ w. on_os os (broadcast_others os w.others received.0 job.username) w
    on ← dispatch job received.0
    if on then rest_connection job else return tt
