-- ===== src/User.antt =====
-- `commons/user/user.cpp`: a user and the array of its connections. A `User` is copied by value all
-- over the server, and its copies share the array, so the arrays live in a heap and a `User` holds
-- the position of its own.
pub mod Slots
pub mod Disconnect
use mathlib.Core.Option
use dropbox_ufrgs_sisop.Prelude.{
  ℕ, zero, suc, ◌+◌, List, [], ◌∷◌, ◌++◌, Option, none, some, length, get_elem?, set, replicate,
  ◌==◌, if◌then◌else◌,
}
use dropbox_ufrgs_sisop.Prelude.Int.{ℤ, pos, negsuc}
use dropbox_ufrgs_sisop.Prelude.Outcome.{done, M, bind}
use dropbox_ufrgs_sisop.Bytes.{Bytes}
use dropbox_ufrgs_sisop.Os.{Os}
use dropbox_ufrgs_sisop.Socket.{Socket, new_socket, close_connection}

abbrev pub Heap : Type 0
Heap = List (List Socket)

-- `class User`
pub record User : Type 0 where
  pub username : Bytes
  pub connections : ℕ
  pub max_connections : ℕ

-- The array at a position of the heap.
abbrev pub array : Heap → ℕ → List Socket
array heap p = elim (get_elem? heap p) [ none ↦ [] | some xs ↦ xs ]

-- `User::User(std::string, int)`; `fresh` is a socket as `Socket::Socket()` makes it.
unfoldable pub new_user : Socket → Bytes → ℕ → Heap → User × Heap
new_user fresh username max_connections heap = (
  record { username = username; connections = length heap; max_connections = max_connections },
  heap ++ (replicate max_connections (record fresh { sockfd = 0 }) ∷ []),
)

-- The loop of `push_connection`: `none` if it finds no slot with descriptor 0.
unfoldable pub push_slot : ℕ → Socket → List Socket → Option (List Socket)
push_slot zero c xs = none
push_slot (suc k) c [] = none
push_slot (suc k) c (x ∷ xs) =
    let rest = Option.map (◌∷◌ x) (push_slot k c xs) in
    if x.sockfd == 0 then some (c ∷ xs) else rest

-- `User::push_connection`
unfoldable pub push_connection : User → Socket → Heap → Heap × ℤ
push_connection u c heap = elim (push_slot u.max_connections c (array heap u.connections)) [
  | none ↦ (heap, negsuc 0)
  | some xs ↦ (set heap u.connections xs, pos 0)
]

-- The loop of `get_active_connections_count`.
unfoldable pub count_active : ℕ → List Socket → ℕ
count_active zero xs = 0
count_active (suc k) [] = 0
count_active (suc k) (x ∷ xs) = if x.sockfd == 0 then count_active k xs else suc (count_active k xs)

-- `User::get_active_connections_count`
unfoldable pub get_active_connections_count : User → Heap → ℕ
get_active_connections_count u heap = count_active u.max_connections (array heap u.connections)

module _ (os : Os) where
  -- The loop of `disconnect`.
  unfoldable pub disconnect_slot : ℕ → ℕ → List Socket → M os.State (Option (List Socket))
  disconnect_slot zero fd xs s = done none s
  disconnect_slot (suc k) fd [] s = done none s
  disconnect_slot (suc k) fd (x ∷ xs) s =
      let rest = bind (disconnect_slot k fd xs s) (λ r. done (Option.map (◌∷◌ x) r)) in
      if x.sockfd == fd
      then bind (close_connection os x s) (λ closed. done (some (closed ∷ xs)))
      else rest

  -- `User::disconnect`
  unfoldable pub disconnect : User → ℕ → Heap → M os.State (Heap × ℤ)
  disconnect u fd heap s =
      bind (disconnect_slot u.max_connections fd (array heap u.connections) s) λ r. elim r [
        | none ↦ done (heap, negsuc 0)
        | some xs ↦ done (set heap u.connections xs, pos 0)
      ]
