-- ===== src/Client/State.antt =====
-- What the threads of a client share: its socket, its `InputManager` and its `SyncManager`.
use dropbox_ufrgs_sisop.Prelude.{Bool, Option}
use dropbox_ufrgs_sisop.Prelude.Outcome.{M, within, done}
use dropbox_ufrgs_sisop.Os.{Os}
use dropbox_ufrgs_sisop.Packet.{Packet}
use dropbox_ufrgs_sisop.Socket.{Socket}
use dropbox_ufrgs_sisop.Client.SyncManager.{SyncManager, ignore}

-- `class InputManager`; `finished` is its `done`, and `pac` is `none` where the pointer has not been
-- set.
pub record InputManager : Type 0 where
  pub waiting : Bool
  pub finished : Bool
  pub send : Bool
  pub pac : Option Packet

pub record Client (os : Os) : Type 0 where
  pub state : os.State
  pub client_soc : Socket
  pub input_manager : InputManager
  pub sync_manager : SyncManager

module _ (os : Os) where
  -- A call of the operating system.
  abbrev pub on_os : {A : Type 0} → M os.State A → M (Client os) A
  on_os = within (λ c. c.state) (λ s c. record c { state = s })

  -- `sync_manager->ignore()`
  abbrev pub ignore_events : M (Client os) (Unit {0})
  ignore_events c = done tt (record c { sync_manager = ignore c.sync_manager })
