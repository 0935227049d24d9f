-- ===== src/Client/Start/Exit.antt =====
-- What becomes of the last packet when the user ends the client of `client/main.cpp`.
use dropbox_ufrgs_sisop.Prelude.{ℕ, suc, ◌≡◌, refl, ap, ◌∙◌, List, [], ◌∷◌, true, false, some}
use dropbox_ufrgs_sisop.Prelude.Outcome.{done, bind, within}
use dropbox_ufrgs_sisop.Prelude.Outcome.Laws.{bind_step}
use dropbox_ufrgs_sisop.Bytes.{Bytes}
use dropbox_ufrgs_sisop.Text.{text, find}
use dropbox_ufrgs_sisop.Os.{Os}
use dropbox_ufrgs_sisop.PacketType.{code, logout_req}
use dropbox_ufrgs_sisop.Packet.{Packet, build_packet_sized}
use dropbox_ufrgs_sisop.Socket.{write_packet}
use dropbox_ufrgs_sisop.Client.State.{Client}
use dropbox_ufrgs_sisop.Client.InputManager.{
  run_commands, run_command, draft_of, post_draft, finish, is_done, set_packet, get_packet,
}
use dropbox_ufrgs_sisop.Client.SyncManager.{stop_sync}
use dropbox_ufrgs_sisop.Client.Listener.{client_write_packet}
use dropbox_ufrgs_sisop.Client.Main.{main_round, send_input, send_event}
use dropbox_ufrgs_sisop.Client.InputManager
use dropbox_ufrgs_sisop.Client.SyncManager
use dropbox_ufrgs_sisop.Client.Start.{main_loop}

-- The request for a logout, as the command `exit` leaves it.
abbrev pub logout_packet : Packet
logout_packet = record {
  type = code logout_req;
  seqn = 0;
  total_size = 1;
  length = 1;
  payload = 0 ∷ [];
}

-- The client when the thread of the commands has ended.
abbrev pub ended : (os : Os) → Client os → Client os
ended os c = record c {
  sync_manager = stop_sync c.sync_manager;
  input_manager = record (set_packet logout_packet c.input_manager) { finished = true };
}

-- The client when the main loop has sent that packet.
abbrev pub logged_out : (os : Os) → os.State → Client os → Client os
logged_out os t c = record c {
  state = t;
  sync_manager = stop_sync c.sync_manager;
  input_manager = record c.input_manager {
    send = false;
    pac = some logout_packet;
    finished = true;
  };
}

module _ (os : Os) (base_path : Bytes) (lines : List Bytes) where
  run_commands-exit :
      (c : Client os) → run_commands os base_path (text "exit" ∷ lines) c ≡ done tt (ended os c)
  unfolding run_commands run_command draft_of post_draft finish find build_packet_sized
  run_commands-exit c = refl

module _ (os : Os) (others : ℕ → Client os → Client os) where
  main_loop_ended :
      (fuel k : ℕ) (c : Client os)
      → is_done c.input_manager ≡ true
      → main_loop os others (suc fuel) k c ≡ done tt c
  unfolding main_loop is_done
  main_loop_ended fuel k c over = rw over refl

  main_loop_round :
      (fuel k : ℕ) (c : Client os)
      → is_done c.input_manager ≡ false
      → main_loop os others (suc fuel) k c
        ≡ bind (main_round os (others k c)) (λ _ d. main_loop os others fuel (suc k) d)
  unfolding main_loop is_done
  main_loop_round fuel k c running = rw running refl

  main_round-ended :
      (c : Client os) (n : ℕ) (t : os.State)
      → c.sync_manager.send ≡ false
      → write_packet os c.client_soc logout_packet c.state ≡ done n t
      → main_round os (ended os c) ≡ done tt (logged_out os t c)
  unfolding main_round send_input send_event client_write_packet set_packet get_packet
      InputManager.should_send SyncManager.should_send stop_sync
  main_round-ended c n t quiet wrote = rw (wrote, bind, within) (rw quiet refl)

  -- The line `exit` leaves a request for a logout and then ends the client, whatever is typed behind it.
  -- If that happens while the main loop sleeps, where no packet of `SyncManager` waits and the write
  -- succeeds, the loop sends the request and is left; if it happens between a sleep and the next look at
  -- the end of the client, the loop is left with the request unsent.
  pub exit_sent_or_lost :
      (base_path : Bytes) (lines : List Bytes) (c : Client os) (fuel k n : ℕ) (t : os.State)
      → c.input_manager.finished ≡ false
      → c.sync_manager.send ≡ false
      → others k c ≡ ended os c
      → write_packet os c.client_soc logout_packet c.state ≡ done n t
      → (run_commands os base_path (text "exit" ∷ lines) c ≡ done tt (ended os c))
        × (main_loop os others (suc (suc fuel)) k c ≡ done tt (logged_out os t c))
        × (main_loop os others (suc fuel) k (ended os c) ≡ done tt (ended os c))
  unfolding is_done
  exit_sent_or_lost base_path lines c fuel k n t running quiet meanwhile wrote = (
    run_commands-exit os base_path lines c,
    main_loop_round (suc fuel) k c running
        ∙ ap (λ d. bind (main_round os d) (λ _ e. main_loop os others (suc fuel) (suc k) e))
            meanwhile
        ∙ bind_step _ (main_round-ended c n t quiet wrote)
            (main_loop_ended fuel (suc k) (logged_out os t c) refl),
    main_loop_ended fuel k (ended os c) refl,
  )
