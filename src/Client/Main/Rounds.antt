-- ===== src/Client/Main/Rounds.antt =====
-- What the main loop of the client sends of the packets that are left for it.
use dropbox_ufrgs_sisop.Prelude.{ℕ, ◌≡◌, refl, false, some}
use dropbox_ufrgs_sisop.Prelude.Outcome.{done, bind, within}
use dropbox_ufrgs_sisop.Os.{Os}
use dropbox_ufrgs_sisop.Packet.{Packet}
use dropbox_ufrgs_sisop.Socket.{write_packet}
use dropbox_ufrgs_sisop.Client.State.{Client}
use dropbox_ufrgs_sisop.Client.InputManager.Lines.{posted}
use dropbox_ufrgs_sisop.Client.Listener.{client_write_packet}
use dropbox_ufrgs_sisop.Client.Main.{main_round, send_input, send_event}
use dropbox_ufrgs_sisop.Client.InputManager
use dropbox_ufrgs_sisop.Client.SyncManager

-- The client when its last packet has been sent.
abbrev pub delivered : (os : Os) → Packet → os.State → Client os → Client os
delivered os q t c = record c {
  state = t;
  input_manager = record c.input_manager { send = false; pac = some q };
}

-- Two packets that the commands leave before the main loop looks are one packet to it: the first of
-- them, `p`, is never sent. Where no packet of `SyncManager` waits and the write of the second, `q`,
-- succeeds, the next round sends `q`, and the round after it sends nothing.
pub main_round-posted :
    (os : Os) (p q : Packet) (c : Client os) (n : ℕ) (t : os.State)
    → c.sync_manager.send ≡ false
    → write_packet os c.client_soc q c.state ≡ done n t
    → (main_round os (posted os q (posted os p c)) ≡ done tt (delivered os q t c))
      × (main_round os (delivered os q t c) ≡ done tt (delivered os q t c))
unfolding main_round send_input send_event client_write_packet InputManager.set_packet
    InputManager.get_packet InputManager.should_send SyncManager.should_send
main_round-posted os p q c n t quiet wrote =
    (rw (wrote, bind, within) (rw quiet refl), rw quiet refl)
