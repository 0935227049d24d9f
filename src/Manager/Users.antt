-- ===== src/Manager/Users.antt =====
-- The users of the manager: `add_user`, `remove_user`, `add_connection`, `remove_connection`.
pub mod Limits
pub mod Ownership
use dropbox_ufrgs_sisop.Packet.{header_size}
use dropbox_ufrgs_sisop.Prelude.Int.{ℤ, negsuc, pos}
use dropbox_ufrgs_sisop.Prelude.Outcome.{M, done, bind}
use dropbox_ufrgs_sisop.Socket.{Socket, new_socket, copy}
use dropbox_ufrgs_sisop.Manager.{Server, on_os, max_connections_per_user}
use dropbox_ufrgs_sisop.User.{User, new_user, push_connection, disconnect}
use dropbox_ufrgs_sisop.Os.{Os}
use dropbox_ufrgs_sisop.Bytes.{Bytes, bytes_eq, bytes_lt}
use dropbox_ufrgs_sisop.Prelude.{ℕ, List, [], ◌∷◌, none, some, Option, if◌then◌else◌}

-- `std::map<std::string, User>`, in the order of its keys
abbrev pub Users : Type 0
Users = List (Bytes × User)

unfoldable pub find_user : Bytes → Users → Option User
find_user name [] = none
find_user name ((key, u) ∷ users) = if bytes_eq name key then some u else find_user name users

-- `insert`, for a key that the map has not
unfoldable pub insert_user : Bytes → User → Users → Users
insert_user name u [] = (name, u) ∷ []
insert_user name u ((key, v) ∷ users) =
    if bytes_lt name key then (name, u) ∷ (key, v) ∷ users else (key, v) ∷ insert_user name u users

unfoldable pub erase_user : Bytes → Users → Users
erase_user name [] = []
erase_user name ((key, u) ∷ users) =
    if bytes_eq name key then users else (key, u) ∷ erase_user name users

module _ (os : Os) where
  -- `Manager::add_user`
  unfoldable pub add_user : Bytes → Server os → Server os × ℤ
  add_user username w = elim (find_user username w.users) [
    | none ↦
        let (u, heap) =
          new_user (new_socket (os.garbage w.state header_size)) username max_connections_per_user
            w.heap in
        (record w { users = insert_user username u w.users; heap = heap }, pos 0)
    | some _ ↦ (w, negsuc 0)
  ]

  -- `Manager::remove_user`; the array of its connections stays in the heap
  unfoldable pub remove_user : Bytes → Server os → Server os × ℤ
  remove_user username w = elim (find_user username w.users) [
    | none ↦ (w, negsuc 0)
    | some _ ↦ (record w { users = erase_user username w.users }, pos 0)
  ]

  -- `Manager::add_connection`, on a copy of the user, which shares the array
  unfoldable pub add_connection : Bytes → Socket → Server os → Server os × ℤ
  add_connection username c w = elim (find_user username w.users) [
    | none ↦ (w, negsuc 0)
    | some u ↦
        let (heap, err) = push_connection u (copy (os.garbage w.state header_size) c) w.heap in
        (record w { heap = heap }, err)
  ]

  -- `Manager::remove_connection`
  unfoldable pub remove_connection : Bytes → ℕ → M (Server os) ℤ
  remove_connection username fd w = elim (find_user username w.users) [
    | none ↦ done (negsuc 0) w
    | some u ↦
        bind (on_os os (disconnect os u fd w.heap) w) (λ r v. done r.1 (record v { heap = r.0 }))
  ]
