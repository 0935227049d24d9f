-- ===== src/Tests/Events.antt =====
-- Two files that go from the watched directory at once.
use dropbox_ufrgs_sisop.Prelude.{
  length, ◌<◌, ◌^◌, length-append, ◌==◌, ◌≡◌, refl, [], ◌∷◌, ◌++◌, true, false, some, none,
  replicate, arith,
}
use dropbox_ufrgs_sisop.Prelude.Outcome.{done}
use dropbox_ufrgs_sisop.Bytes.{Bytes}
use dropbox_ufrgs_sisop.Text.{text}
use dropbox_ufrgs_sisop.Client.SyncManager.{Event, SyncManager, handle_batch, should_send}
use dropbox_ufrgs_sisop.Client.SyncManager.Mailbox.{
  IsDeletion, delete_packet, handle_batch-last, main_loop_nap,
}
use dropbox_ufrgs_sisop.Tests.World.{world}

abbrev gone : Bytes → Event
gone name = record {
  moved_to = false;
  moved_from = false;
  deleted = true;
  created = false;
  close_write = false;
  name = name ++ replicate 12 0;
}

gone-IsDeletion : (name : Bytes) → length (gone name).name < 2 ^ 31 → IsDeletion (gone name)
gone-IsDeletion name short = record {
  stays = refl;
  gone = refl;
  named = omega (arith, length-append name (replicate 12 0));
  short = short;
}

abbrev idle : SyncManager
idle = record { send = false; pac = none; should_stop = false; should_ignore = false; watching = 0 }

-- The main loop takes the first of two deletions, and is late for the second.
handle_batch-last_example :
    (n : SyncManager) × (handle_batch world
        (λ i. main_loop_nap (i == 1))
        (text "/home")
        (gone (text "a1") ∷ gone (text "a2") ∷ [])
        idle
        []
      ≡ done n [])
    × (should_send n ≡ true)
    × (n.pac ≡ some (delete_packet (gone (text "a2"))))
handle_batch-last_example =
    handle_batch-last world (text "/home") (λ i. i == 1) (gone (text "a1") ∷ []) (gone (text "a2"))
      idle [] (gone-IsDeletion (text "a1") (omega arith), tt)
      (gone-IsDeletion (text "a2") (omega arith)) refl
