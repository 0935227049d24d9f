-- ===== src/Client/SyncManager/Watcher.antt =====
-- The thread of `client/backend/sync_manager/sync_manager.cpp`: its constructor and `run`. What the
-- other threads do to the object while it sleeps is an argument of the loop, and so is what `read` finds
-- in the inotify descriptor.
pub mod Stop
use dropbox_ufrgs_sisop.Prelude.{
  ℕ, zero, suc, ◌+◌, ◌-◌, ◌≤◌, ◌<◌, ◌≡◌, refl, sym, ◌∙◌, List, [], ◌∷◌, ◌++◌, Bool, true, false,
  none, some, arith, Bool-cases, inl, inr, ap, Option, if◌then◌else◌, ltb, ◌&&◌, not, ◌||◌,
}
use dropbox_ufrgs_sisop.Prelude.Int.{ℤ, is_negative}
use dropbox_ufrgs_sisop.Prelude.Outcome.{
  Outcome, done, raised, blocked, exited, fault, no_fuel, M, bind, or_fault, ◌>>=◌, ◌>>◌, return,
}
use dropbox_ufrgs_sisop.Bytes.{Bytes, c_string}
use dropbox_ufrgs_sisop.Os.{Os}
use dropbox_ufrgs_sisop.Packet.{Packet, build_packet_sized}
use dropbox_ufrgs_sisop.File.{read_file, to_data}
use dropbox_ufrgs_sisop.Client.SyncManager.{
  Event, SyncManager, get_stop, stop_sync, set_packet, handle_batch, handle_events, handle_event,
  event_message, upload_message,
}

-- `SyncManager::SyncManager`. It leaves `should_ignore` without a value.
unfoldable pub new : Bool → SyncManager
new unset = record {
  send = false;
  pac = none;
  should_stop = false;
  should_ignore = unset;
  watching = 0;
}

-- What `read` gives: events, nothing yet (`EAGAIN`), or another error.
pub data Poll : Type 0 where
  events : List Event → Poll
  nothing_yet : Poll
  broken : Poll

module _ (os : Os) (read_events : os.State → Poll × os.State)
    (others : ℕ → ℕ → SyncManager → SyncManager) where
  -- The two loops of `run`, with fuel for the calls of `read`, the last of which was number `k`. The
  -- inner one is left when there are events or the thread is to stop, and the outer one then too.
  -- `others k 0` is what the other threads do in the sleep after call `k`, and `others k (suc i)` in that
  -- of `set_packet` where `i` of the events of this call are left.
  unfoldable pub watch_loop : ℕ → ℕ → Bytes → SyncManager → M os.State SyncManager
  watch_loop zero k current_path m s = no_fuel
  watch_loop (suc fuel) k current_path m s = elim (get_stop m) [
    | true ↦ done m s
    | false ↦ elim (read_events s).0 [
      | broken ↦ exited (read_events s).1
      | nothing_yet ↦ watch_loop fuel (suc k) current_path (others k 0 m) (read_events s).1
      | events found ↦
          bind
            (handle_batch os (λ i. others k (suc i)) current_path found (others k 0 m)
              (read_events s).1)
            (λ n t. watch_loop fuel (suc k) current_path n t)
    ]
  ]

  -- The directory that `run` works in. Without one the thread is told to stop.
  abbrev work_in : SyncManager → Option Bytes → SyncManager × Bytes
  work_in m none = (stop_sync m, [])
  work_in m (some path) = (m, path)

  -- `sem_wait`, on a semaphore with this count, and what follows it
  unfoldable pub wait_and_watch : ℕ → ℕ → ℕ → Bytes → SyncManager → M os.State SyncManager
  wait_and_watch zero fuel fd path m s = blocked s
  wait_and_watch (suc n) fuel fd path m s =
      bind (watch_loop fuel 1 path (record m { watching = n }) s) (λ r t. done r (os.close t fd))

  -- `SyncManager::run`, on the descriptor `fd`. It waits for `watch` first; `others 0 0` is what the
  -- other threads have done by then.
  unfoldable pub run : ℕ → ℕ → SyncManager → M os.State SyncManager
  run fuel fd m s =
      let (started, path) = work_in m (os.getcwd s) in
      wait_and_watch (others 0 0 started).watching fuel fd path (others 0 0 started) s
