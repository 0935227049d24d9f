-- ===== src/Client/InputManager.antt =====
-- `client/backend/comms/input_manager/input_manager.cpp`: the commands that the user types, and the
-- place for one packet that the main loop looks into. Each accessor holds its lock for all that it
-- does. A line of the loop of `run` is a sequence of tests on one command, each of which may fill in
-- the draft of a packet.
pub mod Select
pub mod Lines
use dropbox_ufrgs_sisop.Prelude.{
  ℕ, ◌+◌, ◌++◌, ◌∷◌, [], List, Bool, true, false, Option, none, some, length, if◌then◌else◌,
}
use dropbox_ufrgs_sisop.Prelude.Int.{is_negative}
use dropbox_ufrgs_sisop.Prelude.Outcome.{done, fault, M, bind, ◌>>=◌, ◌>>◌, return, or_fault}
use dropbox_ufrgs_sisop.Bytes.{Bytes, bytes_eq}
use dropbox_ufrgs_sisop.Text.{text, find, rfind, before, after}
use dropbox_ufrgs_sisop.Os.{Os}
use dropbox_ufrgs_sisop.PacketType.{
  code, sync_dir_req, stop_server_req, logout_req, upload_req, download_req, delete_req, list_req,
}
use dropbox_ufrgs_sisop.Packet.{Packet, build_packet_sized}
use dropbox_ufrgs_sisop.File.{File, in_directory, read_file, to_data, packet_size}
use dropbox_ufrgs_sisop.FileManager.{create_directory}
use dropbox_ufrgs_sisop.Client.SyncManager.{watch, stop_sync}
use dropbox_ufrgs_sisop.Client.State.{InputManager, Client, on_os}

-- `InputManager::InputManager`
abbrev pub new_input_manager : InputManager
new_input_manager = record { waiting = false; finished = false; send = false; pac = none }

-- `InputManager::is_waiting`, `InputManager::is_done`, `InputManager::should_send`
unfoldable pub is_waiting : InputManager → Bool
is_waiting m = m.waiting

unfoldable pub is_done : InputManager → Bool
is_done m = m.finished

unfoldable pub should_send : InputManager → Bool
should_send m = m.send

-- `InputManager::get_packet`; `none` is the use of a pointer that has not been set.
unfoldable pub get_packet : InputManager → Option (Packet × InputManager)
get_packet m = elim m.pac [ none ↦ none | some p ↦ some (p, record m { send = false }) ]

-- `InputManager::set_packet`
unfoldable pub set_packet : Packet → InputManager → InputManager
set_packet p m = record m { send = true; pac = some p }

-- The variables of one round of the loop: `_packet_type`, `size`, `buf` with all the bytes of the
-- block that it points to, `remote` and `running`.
pub record Draft : Type 0 where
  pub packet_type : ℕ
  pub size : ℕ
  pub buf : Bytes
  pub remote : Bool
  pub running : Bool

-- The values at the start of a round. The type is -1 as an `uint16_t`.
abbrev pub new_draft : Draft
new_draft = record { packet_type = 65535; size = 1; buf = 0 ∷ []; remote = true; running = true }

-- A draft with a type and an argument, as a C string.
abbrev pub with_argument : ℕ → Bytes → Draft → Draft
with_argument type arg d = record d {
  packet_type = type;
  size = length arg + 1;
  buf = arg ++ (0 ∷ []);
}

-- `"/sync_dir"`
abbrev pub sync_dir : Bytes
sync_dir = text "/sync_dir"

module _ (os : Os) where
  -- `if (command.compare(name) == 0)`
  abbrev pub on_command :
      Bytes → Bytes → (Draft → M (Client os) Draft) → Draft → M (Client os) Draft
  on_command name command block d = if bytes_eq command name then block d else return d

  -- `this->sync_manager->watch(watch_path)`
  abbrev pub watch_sync_dir : Bytes → M (Client os) (Unit {0})
  watch_sync_dir base_path c =
      bind (on_os os (watch os (base_path ++ sync_dir) c.sync_manager) c)
        (λ m d. done tt (record d { sync_manager = m }))

  -- The block for `get_sync_dir`
  unfoldable pub get_sync_dir : Bytes → Draft → M (Client os) Draft
  get_sync_dir base_path d = do
    err ← on_os os (create_directory os base_path sync_dir)
    if is_negative err then return tt else watch_sync_dir base_path
    return (record d { packet_type = code sync_dir_req })

  -- The block for `upload`. Without a slash the whole argument is the name and the directory too. What
  -- a failed read leaves in the file is not defined.
  unfoldable pub upload_command : Bytes → Draft → M (Client os) Draft
  upload_command arg d = do
    let delim = rfind b'/' arg
    let f : File = record { filename = after delim arg; bytes = []; file_size = 0 }
    found ← on_os os (read_file os f (before delim arg))
    _ ← λ c. if is_negative found.1 then fault else done tt c
    buf ← or_fault (to_data found.0)
    return (record d { packet_type = code upload_req; size = packet_size found.0; buf = buf })

  -- The block for `delete`, which removes the local file, or tries to
  unfoldable pub delete_command : Bytes → Bytes → Draft → M (Client os) Draft
  delete_command base_path arg d c =
      elim (os.remove c.state (in_directory (base_path ++ sync_dir) arg)) [
        | none ↦ done (with_argument (code delete_req) arg d) c
        | some s ↦ done (with_argument (code delete_req) arg d) (record c { state = s })
      ]

  -- All the tests of a round, in their order.
  unfoldable pub draft_of : Bytes → Bytes → Bytes → Draft → M (Client os) Draft
  draft_of base_path command arg d₀ = do
    d₁ ← on_command (text "get_sync_dir") command (get_sync_dir base_path) d₀
    d₂ ←
        on_command (text "stop") command
          (λ d. return (record d { packet_type = code stop_server_req; running = false })) d₁
    d₃ ←
        on_command (text "exit") command
          (λ d. return (record d { packet_type = code logout_req; running = false })) d₂
    d₄ ← on_command (text "upload") command (upload_command arg) d₃
    d₅ ←
        on_command (text "download") command (λ d. return (with_argument (code download_req) arg d))
          d₄
    d₆ ←
        on_command (text "delete_safe") command
          (λ d. return (with_argument (code delete_req) arg d)) d₅
    d₇ ← on_command (text "delete") command (delete_command base_path arg) d₆
    d₈ ←
        on_command (text "list_server") command
          (λ d. return (record d { packet_type = code list_req; size = 1; buf = 0 ∷ [] })) d₇
    d₉ ← on_command (text "list_client") command (λ d. return (record d { remote = false })) d₈
    return d₉

  -- The end of a round: the packet, unless the command was a local one.
  unfoldable pub post_draft : Draft → M (Client os) (Unit {0})
  post_draft d c =
      if d.remote
      then bind (or_fault (build_packet_sized d.packet_type 0 1 d.size d.buf) c)
          (λ p c. done tt (record c { input_manager = set_packet p c.input_manager }))
      else done tt c

  -- One round of the loop, on the line that `getline` gives. The result is `running`.
  unfoldable pub run_command : Bytes → Bytes → M (Client os) Bool
  run_command base_path line = do
    let delim = find b' ' line
    d ← draft_of base_path (before delim line) (after delim line) new_draft
    post_draft d
    return d.running

  -- Behind the loop.
  unfoldable pub finish : M (Client os) (Unit {0})
  finish c = done tt (record c {
    sync_manager = stop_sync c.sync_manager;
    input_manager = record c.input_manager { finished = true };
  })

  -- The loop, on the lines that are typed: the state after them, or after the one that ends it.
  unfoldable pub run_commands : Bytes → List Bytes → M (Client os) (Unit {0})
  run_commands base_path [] = λ c. done tt c
  run_commands base_path (line ∷ lines) = do
    running ← run_command base_path line
    if running then run_commands base_path lines else finish

  -- The first request, before the loop.
  unfoldable pub request_sync_dir : Bytes → M (Client os) (Unit {0})
  request_sync_dir base_path = do
    err ← on_os os (create_directory os base_path sync_dir)
    if is_negative err then return tt else (do
      p ← or_fault (build_packet_sized (code sync_dir_req) 0 0 1 (0 ∷ []))
      λ c. done tt (record c { input_manager = set_packet p c.input_manager })
      watch_sync_dir base_path)

  -- `InputManager::run`. Without a directory the path is a buffer that nothing has written.
  unfoldable pub run : List Bytes → M (Client os) (Unit {0})
  run lines c = elim (os.getcwd c.state) [
    | none ↦ fault
    | some base_path ↦ bind (request_sync_dir base_path c) (λ _. run_commands base_path lines)
  ]
