-- ===== src/Client/Main.antt =====
-- `main` of `client/main.cpp`: the login, and the loop that sends what the other threads have left.
-- The listener of the UDP socket is the thread that sets `reconnected`; the restart of the thread
-- that reads packets changes none of this state.
pub mod Rounds
use dropbox_ufrgs_sisop.Prelude.{ℕ, ◌++◌, ◌∷◌, none, some, if◌then◌else◌}
use dropbox_ufrgs_sisop.Prelude.Outcome.{done, fault, M, bind, ◌>>=◌, ◌>>◌, return, or_fault}
use dropbox_ufrgs_sisop.Bytes.{Bytes, c_string}
use dropbox_ufrgs_sisop.Os.{Os}
use dropbox_ufrgs_sisop.PacketType.{code, login_req}
use dropbox_ufrgs_sisop.Packet.{Packet, build_packet}
use dropbox_ufrgs_sisop.Socket.{close_connection}
use dropbox_ufrgs_sisop.Client.State.{Client, on_os}
use dropbox_ufrgs_sisop.Client.SyncManager.{SyncManager}
use dropbox_ufrgs_sisop.Client.InputManager.{is_done}
use dropbox_ufrgs_sisop.Client.Listener.{client_write_packet, client_read_packet}
use dropbox_ufrgs_sisop.Client.InputManager
use dropbox_ufrgs_sisop.Client.SyncManager

-- The request for a login, which names the user and the address of the client.
unfoldable pub login_packet : Bytes → Bytes → Packet
login_packet username my_ip = build_packet (code login_req) 0 1 (username ++ (b':' ∷ my_ip))

module _ (os : Os) where
  -- The request and the answer, which is only printed, whether it accepts or refuses.
  unfoldable pub log_in : ℕ → Bytes → Bytes → M (Client os) (Unit {0})
  log_in fuel username my_ip = do
    client_write_packet os (login_packet username my_ip)
    response ← client_read_packet os fuel
    _ ← or_fault (c_string response.payload)
    return tt

  -- `if (input_manager.should_send())` with its block
  unfoldable pub send_input : M (Client os) (Unit {0})
  send_input c =
      if InputManager.should_send c.input_manager
      then elim (InputManager.get_packet c.input_manager) [
        | none ↦ fault
        | some (p, m) ↦ client_write_packet os p (record c { input_manager = m })
      ]
      else done tt c

  -- `if (sync_manager.should_send())` with its block
  unfoldable pub send_event : M (Client os) (Unit {0})
  send_event c =
      if SyncManager.should_send c.sync_manager
      then elim (SyncManager.get_packet c.sync_manager) [
        | none ↦ fault
        | some (p, m) ↦ client_write_packet os p (record c { sync_manager = m })
      ]
      else done tt c

  -- One round of the loop.
  unfoldable pub main_round : M (Client os) (Unit {0})
  main_round = do send_input; send_event

  -- The end of `main`
  unfoldable pub hang_up : M (Client os) (Unit {0})
  hang_up c =
      bind (on_os os (close_connection os c.client_soc) c)
        (λ soc d. done tt (record d { client_soc = soc }))
