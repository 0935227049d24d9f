-- ===== src/Tests/Users.antt =====
-- A user with two slots: connections that come, are told, and are closed.
use dropbox_ufrgs_sisop.Prelude.{ℕ, ◌≡◌, ◌≢◌, ◌<◌, ◌+◌, ◌⊎◌, refl, List, [], ◌∷◌, false, arith}
use dropbox_ufrgs_sisop.Prelude.Int.{pos, negsuc}
use dropbox_ufrgs_sisop.Prelude.Outcome.{done}
use dropbox_ufrgs_sisop.Text.{text}
use dropbox_ufrgs_sisop.Packet.{Packet}
use dropbox_ufrgs_sisop.Socket.{Socket}
use dropbox_ufrgs_sisop.User.{User, Heap, array, get_active_connections_count}
use dropbox_ufrgs_sisop.Manager.{Server, Job}
use dropbox_ufrgs_sisop.Manager.Users.{add_connection, find_user}
use dropbox_ufrgs_sisop.Manager.Users.Limits.{Owned, add_connection-count}
use dropbox_ufrgs_sisop.Manager.Broadcast.{dispatch_slot}
use dropbox_ufrgs_sisop.Manager.Broadcast.Dispatch.{dispatched, dispatch_slot_once}
use dropbox_ufrgs_sisop.Tests.World.{world}

abbrev pub at : ℕ → Socket
at fd = record { sockfd = fd; port = pos 0; is_waiting = false; buffer = [] }

abbrev notice : Packet
notice = record { type = 19; seqn = 0; total_size = 0; length = 1; payload = 0 ∷ [] }

abbrev pub ana : User
ana = record { username = text "ana"; connections = 0; max_connections = 2 }

abbrev pub serving : List Socket → Server world
serving slots = record {
  state = [];
  users = (text "ana", ana) ∷ [];
  heap = slots ∷ [];
  threads = [];
  is_router_routing = false;
  locked = false;
  others = [];
}

abbrev half : Server world
half = serving (at 4 ∷ at 0 ∷ [])

half-Owned : Owned half.heap half.users
half-Owned = (omega arith, refl, refl, tt, tt)

add_connection-count_example :
    ((get_active_connections_count ana half.heap ≡ 2)
      × (add_connection world (text "ana") (at 5) half ≡ (half, negsuc 0)))
    ⊎ ((heap : Heap) × (get_active_connections_count ana half.heap < 2)
        × (add_connection world (text "ana") (at 5) half ≡ (record half { heap = heap }, pos 0))
        × (get_active_connections_count ana heap ≡ get_active_connections_count ana half.heap + 1)
        × ((q : ℕ) → q ≢ 0 → array heap q ≡ array half.heap q))
unfolding find_user
add_connection-count_example =
    add_connection-count world (text "ana") (at 5) half ana (omega arith) refl half-Owned

abbrev job : Job
job = record { connections = 0; slot = 0; username = text "ana" }

abbrev request : Packet
request = record { type = 10; seqn = 0; total_size = 0; length = 2; payload = 120 ∷ 0 ∷ [] }

dispatch_slot_once_example :
    (dispatch_slot world job half ≡ done tt (dispatched world job (at 4) half))
    × (dispatch_slot world job (dispatched world job (at 4) half)
        ≡ done tt (dispatched world job (at 4) half))
dispatch_slot_once_example = dispatch_slot_once world job (at 4) half refl refl refl refl
