-- ===== src/Manager/Requests/Delete.antt =====
-- Requests to delete a file, which the system removes or not.
use dropbox_ufrgs_sisop.Prelude.Int.{pos}
use dropbox_ufrgs_sisop.Manager.Broadcast.{broadcast_to_user}
use dropbox_ufrgs_sisop.PacketType.{code, delete_refuse_resp, delete_accept_resp, delete_broadcast}
use dropbox_ufrgs_sisop.File.{in_directory}
use dropbox_ufrgs_sisop.Socket.{Socket, write_packet}
use dropbox_ufrgs_sisop.Packet.{Packet, build_packet}
use dropbox_ufrgs_sisop.Os.{Os}
use dropbox_ufrgs_sisop.Manager.{respond, Job, Server, connection}
use dropbox_ufrgs_sisop.Controllers.{delete_file, user_directory}
use dropbox_ufrgs_sisop.Text.{text}
use dropbox_ufrgs_sisop.Manager.Requests.{handle_delete}
use dropbox_ufrgs_sisop.Bytes.{Bytes, c_string}
use dropbox_ufrgs_sisop.Prelude.{ℕ, ◌≡◌, none, some, arith}
use dropbox_ufrgs_sisop.Prelude.Outcome.{done, bind, within}

abbrev pub delete_error : Bytes
delete_error = text "error deleting file"

-- The array of connections does not depend on the operating system.
connection-state :
    (os : Os) (job : Job) (w : Server os) (c : Socket) (t : os.State)
    → connection os job w ≡ done c w
    → connection os job (record w { state = t }) ≡ done c (record w { state = t })
unfolding connection
connection-state os job w c t open_now = ground (arith, open_now)

-- A request to delete a file that the system does not remove is refused; and if the refusal can be
-- sent, the other connections of the user are then told, as after a deletion, that a file has been
-- deleted, whose name is the text of the refusal.
pub handle_delete_failed :
    (os : Os) (job : Job) (p : Packet) (w : Server os) (filename : Bytes) (c : Socket) (n : ℕ)
    (t : os.State)
    → c_string p.payload ≡ some filename
    → os.remove w.state (in_directory (user_directory job.username) filename) ≡ none
    → connection os job w ≡ done c w
    → write_packet os c (build_packet (code delete_refuse_resp) 0 0 delete_error) w.state ≡ done n t
    → handle_delete os job p w
      ≡ bind
          (broadcast_to_user os job.username
            (pos c.sockfd)
            (build_packet (code delete_broadcast) 0 0 delete_error)
            (record w { state = t }))
          (λ _. done tt)
unfolding handle_delete delete_file respond
handle_delete_failed os job p w filename c n t named stays open_now sent =
    rw (named, handle_delete, bind)
      (rw (stays, delete_file, within, bind)
        (rw (open_now, respond, bind)
          (rw (sent, within, bind) (rw (connection-state os job w c t open_now, bind)))))

-- A request to delete a file that the system removes is accepted, and if the answer can be sent, the
-- other connections of the user are told the name.
pub handle_delete_removed :
    (os : Os) (job : Job) (p : Packet) (w : Server os) (filename : Bytes) (c : Socket) (n : ℕ)
    (s t : os.State)
    → c_string p.payload ≡ some filename
    → os.remove w.state (in_directory (user_directory job.username) filename) ≡ some s
    → connection os job w ≡ done c w
    → write_packet os c (build_packet (code delete_accept_resp) 0 0 filename) s ≡ done n t
    → handle_delete os job p w
      ≡ bind
          (broadcast_to_user os job.username
            (pos c.sockfd)
            (build_packet (code delete_broadcast) 0 0 filename)
            (record w { state = t }))
          (λ _. done tt)
unfolding handle_delete delete_file respond
handle_delete_removed os job p w filename c n s t named gone open_now sent =
    rw (named, handle_delete, bind)
      (rw (gone, delete_file, within, bind)
        (rw (connection-state os job w c s open_now, respond, bind)
          (rw (sent, within, bind) (rw (connection-state os job w c t open_now, bind)))))
