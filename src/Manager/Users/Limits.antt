-- ===== src/Manager/Users/Limits.antt =====
-- The arrays of connections that the users of a manager own.
use dropbox_ufrgs_sisop.Packet.{header_size}
use dropbox_ufrgs_sisop.User.Slots.{push_slot_cases}
use dropbox_ufrgs_sisop.Prelude.Int.{negsuc, pos}
use dropbox_ufrgs_sisop.Manager.{Server, max_connections_per_user}
use dropbox_ufrgs_sisop.Bytes.{Bytes, bytes_eq}
use dropbox_ufrgs_sisop.Socket.{Socket, copy}
use dropbox_ufrgs_sisop.Os.{Os}
use dropbox_ufrgs_sisop.Manager.Users.{Users, find_user, add_connection}
use dropbox_ufrgs_sisop.User.{
  Heap, User, array, push_connection, get_active_connections_count, count_active,
}
use dropbox_ufrgs_sisop.Prelude.{
  subst, ℕ, List, [], ◌∷◌, ◌≡◌, some, ◌<◌, ◌≢◌, length, set, Bool-cases, get_elem?-set_ne,
  get_elem?-set_self, inl, arith, inr, ◌⊎◌, ◌+◌, ◌∙◌, sym,
}

-- An array written at its position, and the others.
pub array-set_self :
    (heap : Heap) (i : ℕ) (xs : List Socket) → i < length heap → array (set heap i xs) i ≡ xs
array-set_self heap i xs h = rw (get_elem?-set_self heap i xs h, array)

pub array-set_ne :
    (heap : Heap) (i j : ℕ) (xs : List Socket) → i ≢ j → array (set heap i xs) j ≡ array heap j
array-set_ne heap i j xs h = rw (get_elem?-set_ne heap i j xs h, array)

-- No user of the list has its array at this position.
abbrev pub Apart : ℕ → Users → Type 0
Apart i [] = Unit
Apart i ((_, v) ∷ users) = (i ≢ v.connections) × Apart i users

-- Each user has an array of its own, with `MAX_CONNECTIONS_PER_USER` slots.
abbrev pub Owned : Heap → Users → Type 0
Owned heap [] = Unit
Owned heap ((_, u) ∷ users) =
    (u.connections < length heap)
    × (u.max_connections ≡ max_connections_per_user)
    × (length (array heap u.connections) ≡ max_connections_per_user)
    × Apart u.connections users
    × Owned heap users

pub Owned-find_user :
    (heap : Heap) (name : Bytes) (u : User) (users : Users)
    → Owned heap users
    → find_user name users ≡ some u
    → (u.connections < length heap)
      × (u.max_connections ≡ max_connections_per_user)
      × (length (array heap u.connections) ≡ max_connections_per_user)
unfolding find_user
Owned-find_user heap name u [] o h = cc
Owned-find_user heap name u ((key, v) ∷ users) o h = elim (Bool-cases (bytes_eq name key)) [
  | inl hit ↦
      let same : v ≡ u = ground arith in
      (
        subst (λ x. x.connections < length heap) same o.0,
        subst (λ x. x.max_connections ≡ max_connections_per_user) same o.1,
        subst (λ x. length (array heap x.connections) ≡ max_connections_per_user) same o.2,
      )
  | inr miss ↦ Owned-find_user heap name u users o.4 (ground arith)
]

module _ (os : Os) (name : Bytes) (c : Socket) (w : Server os) (u : User) (h : c.sockfd ≢ 0)
    (known : find_user name w.users ≡ some u) (owned : Owned w.heap w.users) where
  -- A new open connection of a known user, where each user has an array of its own: it is refused,
  -- and nothing changes, exactly if all slots of the user are taken; otherwise the user has one
  -- open connection more, also for all the copies of the user, and the arrays at other positions
  -- are as they were.
  pub add_connection-count :
      ((get_active_connections_count u w.heap ≡ max_connections_per_user)
        × (add_connection os name c w ≡ (w, negsuc 0)))
      ⊎ ((heap : Heap) × (get_active_connections_count u w.heap < max_connections_per_user)
          × (add_connection os name c w ≡ (record w { heap = heap }, pos 0))
          × (get_active_connections_count u heap ≡ get_active_connections_count u w.heap + 1)
          × ((q : ℕ) → q ≢ u.connections → array heap q ≡ array w.heap q))
  unfolding add_connection push_connection get_active_connections_count copy
  add_connection-count =
      let (inside, max, size) = Owned-find_user w.heap name u w.users owned known in
      elim (push_slot_cases u.max_connections (copy (os.garbage w.state header_size) c)
        (array w.heap u.connections) (size ∙ sym max) h) [
          | inl (refused, full) ↦
              inl (full ∙ max, rw (known, add_connection) (rw (refused, push_connection)))
          | inr (ys, pushed, sizes, counts, room) ↦ inr (
            set w.heap u.connections ys,
            subst (λ m. count_active u.max_connections (array w.heap u.connections) < m) max room,
            rw (known, add_connection) (rw (pushed, push_connection)),
            rw (array-set_self w.heap u.connections ys inside) counts,
            (λ q apart. array-set_ne w.heap u.connections q ys (λ e. apart (sym e))),
          )
        ]
