-- ===== src/Client/SyncManager.antt =====
-- `client/backend/sync_manager/sync_manager.cpp`: the events that one `read` of the inotify descriptor
-- gives, and the place for one packet that the main loop of the client looks into. Each accessor
-- holds its lock for all that it does.
pub mod Mailbox
pub mod Watcher
use dropbox_ufrgs_sisop.Prelude.{
  ℕ, List, [], ◌∷◌, ◌++◌, Bool, true, false, Option, none, some, length, ltb, if◌then◌else◌, ◌||◌,
  ◌&&◌, not, ◌==◌, ◌+◌, ◌%◌, ◌^◌,
}
use dropbox_ufrgs_sisop.Prelude.Int.{ℤ, is_negative, ltb_ℤ, to_int, pos, to_unsigned}
use dropbox_ufrgs_sisop.Prelude.Outcome.{
  Outcome, done, fault, M, bind, ◌>>=◌, ◌>>◌, return, or_fault,
}
use dropbox_ufrgs_sisop.Bytes.{Bytes, c_string}
use dropbox_ufrgs_sisop.Text.{text}
use dropbox_ufrgs_sisop.Os.{Os}
use dropbox_ufrgs_sisop.PacketType.{code, upload_req, delete_req}
use dropbox_ufrgs_sisop.Packet.{Packet, build_packet_sized}
use dropbox_ufrgs_sisop.File.{File, read_file, to_data, get_payload_size}

-- `struct inotify_event` with the bits of its mask that `run` tests. `name` is the whole block of
-- `len` bytes, with the NULs that fill it.
pub record Event : Type 0 where
  pub moved_to : Bool
  pub moved_from : Bool
  pub deleted : Bool
  pub created : Bool
  pub close_write : Bool
  pub name : Bytes

-- `class SyncManager`; `pac` is `none` where the pointer has not been set, and `watching` counts what
-- the semaphore of that name has been given.
pub record SyncManager : Type 0 where
  pub send : Bool
  pub pac : Option Packet
  pub should_stop : Bool
  pub should_ignore : Bool
  pub watching : ℕ

-- `SyncManager::get_packet`; `none` is the use of a pointer that has not been set.
unfoldable pub get_packet : SyncManager → Option (Packet × SyncManager)
get_packet m = elim m.pac [ none ↦ none | some p ↦ some (p, record m { send = false }) ]

-- `SyncManager::set_packet`. It ends in `usleep`, in which the other threads do `nap` to the object.
unfoldable pub set_packet : (SyncManager → SyncManager) → Packet → SyncManager → SyncManager
set_packet nap p m = nap (record m { send = true; pac = some p })

-- `SyncManager::stop_sync`, `SyncManager::get_stop`
unfoldable pub stop_sync : SyncManager → SyncManager
stop_sync m = record m { should_stop = true }

unfoldable pub get_stop : SyncManager → Bool
get_stop m = m.should_stop

-- `SyncManager::should_send`
unfoldable pub should_send : SyncManager → Bool
should_send m = m.send

-- `SyncManager::ignore`, `SyncManager::get_should_ignore`
unfoldable pub ignore : SyncManager → SyncManager
ignore m = record m { should_ignore = true }

unfoldable pub get_should_ignore : SyncManager → Bool
get_should_ignore m = m.should_ignore

-- `ENOTDIR` of Linux
abbrev pub enotdir : ℕ
enotdir = 20

module _ (os : Os) where
  -- `SyncManager::watch`, which looks at `errno` whether or not the call has set it
  unfoldable pub watch : Bytes → SyncManager → M os.State SyncManager
  watch filepath m s =
      let t = os.watch s filepath in
      done (if os.errno t == enotdir then m else record m { watching = m.watching + 1 }) t

  -- The size and the message of an upload. What a failed read leaves in the file is not defined.
  unfoldable pub upload_message : Bytes → Event → M os.State (ℤ × Bytes)
  upload_message current_path event = do
    filename ← or_fault (c_string event.name)
    let f : File = record { filename = filename; bytes = []; file_size = 0 }
    found ← read_file os f (current_path ++ text "/sync_dir")
    _ ← λ s. if is_negative found.1 then fault else done tt s
    message ← or_fault (to_data found.0)
    return (get_payload_size found.0, message)

  -- The branches on the mask: the type, the size and the message, with size 0 for no message.
  unfoldable pub event_message : Bytes → Event → M os.State (ℕ × ℤ × Bytes)
  event_message current_path event =
      let upload : M os.State (ℕ × ℤ × Bytes) =
        λ s. bind (upload_message current_path event s) (λ x. done (code upload_req, x.0, x.1)) in
      let delete : M os.State (ℕ × ℤ × Bytes) =
        return (code delete_req, to_int (length event.name % 2 ^ 32), event.name) in
      if event.moved_to
      then upload
      else if event.moved_from || event.deleted
      then delete
      else if event.created || event.close_write
      then upload
      else return (0, pos 0, [])

  -- The body of the `for` loop.
  unfoldable pub handle_event :
      (SyncManager → SyncManager) → Bytes → Event → SyncManager → M os.State SyncManager
  handle_event nap current_path event m = do
    (p_type, size, message) ← event_message current_path event
    if ltb_ℤ (pos 0) size && not (get_should_ignore m)
        then (do
          p ← or_fault (build_packet_sized p_type 0 0 (to_unsigned 32 size) message)
          return (set_packet nap p m))
        else return m

  -- The `for` loop; `naps i` is what the other threads do where `i` events are left.
  unfoldable pub handle_events :
      (ℕ → SyncManager → SyncManager) → Bytes → List Event → SyncManager → M os.State SyncManager
  handle_events naps current_path [] m = return m
  handle_events naps current_path (event ∷ events) m = do
    n ← handle_event (naps (length events)) current_path event m
    handle_events naps current_path events n

  -- What `run` does with the events of one `read`.
  unfoldable pub handle_batch :
      (ℕ → SyncManager → SyncManager) → Bytes → List Event → SyncManager → M os.State SyncManager
  handle_batch naps current_path events m = do
    n ← handle_events naps current_path events m
    return (record n { should_ignore = false })
