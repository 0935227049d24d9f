-- ===== src/Manager.antt =====
-- `server/comms/manager/manager.cpp`: the users of a server, their connections, and the requests that
-- the connections bring. A `Server` is the state that the threads of a master share: the manager, the
-- arrays of sockets, and the backups of its internal router.
pub mod Users
pub mod Broadcast
pub mod Requests
pub mod Files
pub mod Handler
pub mod Workers
use dropbox_ufrgs_sisop.InternalRouter.Broadcast.{Peer}
use dropbox_ufrgs_sisop.Packet.{Packet}
use dropbox_ufrgs_sisop.Socket.{Socket, write_packet}
use dropbox_ufrgs_sisop.User.{User, Heap, array}
use dropbox_ufrgs_sisop.Os.{Os}
use dropbox_ufrgs_sisop.Bytes.{Bytes}
use dropbox_ufrgs_sisop.Prelude.{
  ℕ, List, [], ◌∷◌, none, some, false, if◌then◌else◌, get_elem?, set, Bool, true,
}
use dropbox_ufrgs_sisop.Prelude.Outcome.{◌>>=◌, ◌>>◌, done, fault, M, within, blocked, return}

-- `handle_connection_input`: a slot of an array, and the name of the user.
pub record Job : Type 0 where
  pub connections : ℕ
  pub slot : ℕ
  pub username : Bytes

pub record Server (os : Os) : Type 0 where
  pub state : os.State
  pub users : List (Bytes × User)
  pub heap : Heap
  -- `active_connections_threads`
  pub threads : List Job
  pub is_router_routing : Bool
  -- whether `lock` is held
  pub locked : Bool
  -- `p_internal_router->others`
  pub others : List Peer

abbrev pub max_connections_per_user : ℕ
max_connections_per_user = 2

module _ (os : Os) where
  -- A call of the operating system.
  abbrev pub on_os : {A : Type 0} → M os.State A → M (Server os) A
  on_os = within (λ w. w.state) (λ s w. record w { state = s })

  -- `*connection`
  unfoldable pub connection : Job → M (Server os) Socket
  connection job w = elim (get_elem? (array w.heap job.connections) job.slot) [
    | none ↦ fault
    | some c ↦ done c w
  ]

  -- A change of `*connection`, which all that look at the array see.
  unfoldable pub store : Job → Socket → M (Server os) (Unit {0})
  store job c w = done tt (record w {
    heap = set w.heap job.connections (set (array w.heap job.connections) job.slot c);
  })

  -- `connection->write_packet(&p)`
  unfoldable pub respond : Job → Packet → M (Server os) (Unit {0})
  respond job p = do c ← connection job; _ ← on_os (write_packet os c p); return tt

  -- `lock.lock()`: to wait for a lock that nobody gives back is to wait for ever.
  unfoldable pub lock : M (Server os) (Unit {0})
  lock w = if w.locked then blocked w else done tt (record w { locked = true })

  -- `lock.unlock()`
  unfoldable pub unlock : M (Server os) (Unit {0})
  unlock w = done tt (record w { locked = false })
