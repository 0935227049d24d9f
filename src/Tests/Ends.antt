-- ===== src/Tests/Ends.antt =====
-- A client that is told to end.
use dropbox_ufrgs_sisop.Prelude.{◌++◌, ℕ, ◌≡◌, refl, [], ◌∷◌, none, true, false, arith, leb}
use dropbox_ufrgs_sisop.Prelude.Outcome.{done}
use dropbox_ufrgs_sisop.Text.{text}
use dropbox_ufrgs_sisop.Packet.{header}
use dropbox_ufrgs_sisop.Socket.{write_packet}
use dropbox_ufrgs_sisop.Client.InputManager.{run_commands}
use dropbox_ufrgs_sisop.Client.SyncManager.{SyncManager, Event}
use dropbox_ufrgs_sisop.Client.SyncManager.Watcher.{events, run, new}
use dropbox_ufrgs_sisop.Client.SyncManager.Watcher.Stop.{Stops, run-Stops}
use dropbox_ufrgs_sisop.Client.Start.{main_loop, arguments}
use dropbox_ufrgs_sisop.Client.Start.Exit.{ended, logged_out, exit_sent_or_lost}
use dropbox_ufrgs_sisop.Tests.Transfers.{disk_os}
use dropbox_ufrgs_sisop.Tests.Clients.{client, base}

too_few : arguments (text "myClient" ∷ text "ana" ∷ text "localhost" ∷ text "4000" ∷ []) ≡ none
unfolding arguments
too_few = refl

exit_sent_or_lost_example :
    (run_commands disk_os base (text "exit" ∷ text "upload a/b" ∷ []) (client none)
      ≡ done tt (ended disk_os (client none)))
    × (main_loop disk_os (λ k. ended disk_os) 2 5 (client none)
        ≡ done tt (logged_out disk_os none (client none)))
    × (main_loop disk_os (λ k. ended disk_os) 1 5 (ended disk_os (client none))
        ≡ done tt (ended disk_os (client none)))
unfolding write_packet header
exit_sent_or_lost_example =
    exit_sent_or_lost disk_os (λ k. ended disk_os) base (text "upload a/b" ∷ []) (client none) 0 5
      17 none refl refl refl refl

-- A file that has gone, again and again.
abbrev gone : Event
gone = record {
  moved_to = false;
  moved_from = false;
  deleted = true;
  created = false;
  close_write = false;
  name = text "a" ++ (0 ∷ []);
}

-- The directory is watched at once, and after three sleeps the thread is told to stop.
abbrev stopping : ℕ → ℕ → SyncManager → SyncManager
stopping k i m = record m { should_stop = leb 3 k; watching = 1 }

run-Stops_example :
    Stops true (run disk_os (λ s. (events (gone ∷ []), s)) stopping 4 3 (new false) none)
run-Stops_example =
    run-Stops disk_os (λ s. (events (gone ∷ []), s)) stopping 3 (λ k i n late. ground arith)
      (λ s. (record { stays = refl; gone = refl; named = omega arith; short = omega arith }, tt)) 4
      3 (new false) none (λ n. omega arith) (omega arith)
